-- ===== src/Queue/Transactions.antt =====
-- The database, and computations in one transaction. An error ends the transaction, which is rolled
-- back: so an error carries no database (`WithTx` of backend/server/store/db.go).
use buildbeaver.Base.{
  ℕ, ◌≡◌, refl, sym, ap, subst, Bool, true, false, Option, none, some, List, [], ◌∷◌,
}
use buildbeaver.Models.{Text, WorkflowStatus, Error, not_found, JobType, Job, Step, Build}

-- A row of `log_descriptors`.
pub record LogDescriptor : Type 0 where
  pub id : ℕ
  pub parent_log_id : ℕ
  pub resource_id : ℕ
  pub sealed : Bool
  pub size_bytes : ℕ

-- A row of `jobs_depend_on_jobs`; a deferred dependency names its target, and has no target ID.
pub record DependencyRow : Type 0 where
  pub build_id : ℕ
  pub source_job_id : ℕ
  pub target_job_id : Option ℕ
  pub target : Option (Text × Text)

pub data EventType : Type 0 where
  build_status_changed job_status_changed step_status_changed : EventType

-- `EventData`, without the names.
pub record EventData : Type 0 where
  pub build_id : ℕ
  pub type : EventType
  pub resource_id : ℕ
  pub payload : WorkflowStatus

pub record Runner : Type 0 where
  pub id : ℕ
  pub legal_entity_id : ℕ
  pub supported_job_types : List JobType
  pub labels : List Text
  pub enabled : Bool
  pub deleted_at : Option ℕ

-- A row of `repos`, with that of `repo_build_counters`.
pub record Repo : Type 0 where
  pub id : ℕ
  pub legal_entity_id : ℕ
  pub has_external_id : Bool
  pub build_counter : ℕ

-- `now` is the time of the transaction, `list_blobs` what the blob store answers for the chunks of a
-- log, all pages together: their sizes, or nothing if a call fails; and `next_id` the next ID that is made. `identities` holds
-- the builds that have an identity, and `scm_notified` what an external SCM was told.
pub record Db : Type 0 where
  pub now : ℕ
  pub next_id : ℕ
  pub builds : List Build
  pub jobs : List Job
  pub steps : List Step
  pub logs : List LogDescriptor
  pub dependencies : List DependencyRow
  pub identities : List ℕ
  pub events : List EventData
  pub runners : List Runner
  pub repos : List Repo
  pub commits : List ℕ
  pub scm_notified : List (ℕ × WorkflowStatus)
  pub list_blobs : ℕ → Option (List ℕ)

pub data Result {ℓ} (A : Type ℓ) : Type ℓ where
  ok : A → Result A
  err : Error → Result A

abbrev pub M : Type 0 → Type 0
M A = Db → Result (A × Db)

infixl 5 ◌>>=◌ ◌>>◌
abbrev pub ◌>>=◌ : {A B : Type 0} → M A → (A → M B) → M B
◌>>=◌ m f db = elim (m db) [ ok (a, db') ↦ f a db' | err e ↦ err e ]

abbrev pub ◌>>◌ : {A B : Type 0} → M A → M B → M B
m >> n = m >>= λ _. n

abbrev pub pure : {A : Type 0} → A → M A
pure a db = ok (a, db)

abbrev pub throw : {A : Type 0} → Error → M A
throw e db = err e

abbrev pub get_db : M Db
get_db db = ok (db, db)

abbrev pub modify : (Db → Db) → M (Unit {0})
modify f db = ok (tt, f db)

-- A read that must find something.
abbrev pub found_or : {A : Type 0} → Error → Option A → M A
found_or e none = throw e
found_or e (some a) = pure a

abbrev pub found : {A : Type 0} → Option A → M A
found = found_or not_found

abbrev pub when : Bool → M (Unit {0}) → M (Unit {0})
when true m = m
when false m = pure tt

-- `if !ok { return err }`
abbrev pub guard : Bool → Error → M (Unit {0})
guard true e = pure tt
guard false e = throw e

-- `for` over a list, ended by the first error.
abbrev pub for_each : {A : Type 0} → (A → M (Unit {0})) → List A → M (Unit {0})
for_each f [] = pure tt
for_each f (x ∷ xs) = f x >> for_each f xs

-- What a computation ensures of its value and of the database, if it ends without an error.
abbrev pub OnOk {ℓ} : {A : Type 0} → Result (A × Db) → (A → Db → Type ℓ) → Type ℓ
OnOk (ok (a, db)) P = P a db
OnOk (err e) P = Unit

-- The rule of a sequence.
pub OnOk-bind {ℓ κ} :
    {A B : Type 0} (m : M A) (f : A → M B) (db : Db) {P : A → Db → Type ℓ} (Q : B → Db → Type κ)
    → OnOk (m db) P
    → ((a : A) (d : Db) → P a d → OnOk (f a d) Q)
    → OnOk ((m >>= f) db) Q
OnOk-bind {A} {B} m f db {P} Q h k = after (m db) h
  where
    after :
        (x : Result (A × Db))
        → OnOk x P
        → OnOk (elim x as (λ _. Result (B × Db)) [ ok (a, d) ↦ f a d | err e ↦ err e ]) Q
    after (ok (a, d)) h = k a d h
    after (err e) h = tt

-- Weaker than what is ensured, and two facts that are both ensured.
pub OnOk-map {ℓ κ} :
    {A : Type 0} (x : Result (A × Db)) (P : A → Db → Type ℓ) (Q : A → Db → Type κ)
    → OnOk x P
    → ((a : A) (d : Db) → P a d → Q a d)
    → OnOk x Q
OnOk-map (ok (a, d)) P Q p f = f a d p
OnOk-map (err e) P Q p f = tt

pub OnOk-both {ℓ κ} :
    {A : Type 0} (x : Result (A × Db)) (P : A → Db → Type ℓ) (Q : A → Db → Type κ)
    → OnOk x P
    → OnOk x Q
    → OnOk x λ a d. P a d × Q a d
OnOk-both (ok (a, d)) P Q p q = (p, q)
OnOk-both (err e) P Q p q = tt

pub OnOk-ok {ℓ} :
    {A : Type 0} {x : Result (A × Db)} {a : A} {d : Db} (P : A → Db → Type ℓ)
    → x ≡ ok (a, d)
    → OnOk x P
    → P a d
OnOk-ok P e h = subst (λ x. OnOk x P) e h

-- Inversion of a successful sequence.
pub >>=-eq-ok :
    {A B : Type 0} (m : M A) (f : A → M B) (db : Db) {r : B × Db}
    → (m >>= f) db ≡ ok r
    → (a : A) × (db' : Db) × (m db ≡ ok (a, db')) × (f a db' ≡ ok r)
>>=-eq-ok {A} m f db {r} h = opened (m db) h
  where
    opened :
        (x : Result (A × Db))
        → elim x [ ok (a, db') ↦ f a db' | err e ↦ err e ] ≡ ok r
        → (a : A) × (db' : Db) × (x ≡ ok (a, db')) × (f a db' ≡ ok r)
    opened (ok (a, db')) h = (a, db', refl, h)
    opened (err e) h = cc

-- An error ends a sequence.
pub >>=-err :
    {A B : Type 0} (m : M A) (f : A → M B) (db : Db) {e : Error}
    → m db ≡ err e
    → (m >>= f) db ≡ err e
>>=-err {A} {B} m f db h =
    ap (λ x. elim x as (λ _. Result (B × Db)) [ ok (a, d) ↦ f a d | err e ↦ err e ]) h

-- A computation that ends without an error.
abbrev pub Succeeds : {A : Type 0} → Result (A × Db) → Type 0
Succeeds {A} x = (a : A) × (d : Db) × (x ≡ ok (a, d))

pub >>=-Succeeds :
    {A B : Type 0} (m : M A) (f : A → M B) (db : Db)
    → Succeeds (m db)
    → ((a : A) (d : Db) → m db ≡ ok (a, d) → Succeeds (f a d))
    → Succeeds ((m >>= f) db)
>>=-Succeeds {A} {B} m f db (a, d, e) k =
    subst Succeeds
      (sym (ap (λ x. elim x as (λ _. Result (B × Db)) [ ok (a, d) ↦ f a d | err e ↦ err e ]) e))
      (k a d e)

pub >>=-ok :
    {A B : Type 0} (m : M A) (f : A → M B) (db : Db) {a : A} {d : Db}
    → m db ≡ ok (a, d)
    → (m >>= f) db ≡ f a d
>>=-ok {A} {B} m f db e =
    ap (λ x. elim x as (λ _. Result (B × Db)) [ ok (a, d) ↦ f a d | err e ↦ err e ]) e

pub anything : {A : Type 0} (x : Result (A × Db)) → OnOk x λ _ _. Unit {0}
anything (ok (a, d)) = tt
anything (err e) = tt

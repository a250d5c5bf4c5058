-- ===== src/Runner/Secrets/Visibility.antt =====
-- The secrets that a job can read are those that are scrubbed from its logs.
use buildbeaver.Base.{
  if◌then◌else◌, Bool-cases, some-inj, OnSome, all, All, All-map, ℕ, ◌≡◌, refl, sym, ap, subst, ◌∙◌,
  ◌⊎◌, inl, inr, Bool, true, false, Option, none, some, List, [], ◌∷◌, ◌++◌, arith,
}
use buildbeaver.Base.Options.{OnSome->>=, OnSome-any}
use buildbeaver.Models.{Text, codes, text_eq, is_empty}
use buildbeaver.Models.Laws.{text_eq_iff}
use mathlib.Core.List.Memᴰ
use mathlib.Core.List.{Memᴰ}
use buildbeaver.Runner.Scrubbing.{SecretPlaintext}
use buildbeaver.Runner.Scrubbing.Stream.{visible}
use buildbeaver.Runner.Secrets.{
  SecretStore, make_secret_key, lookup, index_secrets, init_secrets, add_secret, get_secret,
  get_all_secrets, add_global_env_var, RunnableDoc, standard_variables, set_variables,
  add_standard_global_env_vars, EnvVar, env_value, SecretString, direct_or_secret, only_secret,
  BasicAuth, AwsAuth, basic_auth, aws_auth, get_docker_auth,
}

-- The last but one of the bytes of a text behind two others.
last_but_one : ℕ → ℕ → Text → ℕ
last_but_one p q [] = p
last_but_one p q (c ∷ t) = last_but_one q c t

ends_in_true : (p q : ℕ) (k : Text) → last_but_one p q (k ++ codes ":true") ≡ b'u'
unfolding last_but_one
ends_in_true p q [] = refl
ends_in_true p q (c ∷ k) = ends_in_true q c k

ends_in_false : (p q : ℕ) (k : Text) → last_but_one p q (k ++ codes ":false") ≡ b's'
unfolding last_but_one
ends_in_false p q [] = refl
ends_in_false p q (c ∷ k) = ends_in_false q c k

-- The key of a secret that is not internal is not that of an internal one.
key-external :
    (name key : Text) (internal : Bool)
    → make_secret_key key internal ≡ make_secret_key name false
    → internal ≡ false
unfolding make_secret_key
key-external name key true e =
    absurd
      (omega (arith, sym (ends_in_true 0 0 key) ∙ ap (last_but_one 0 0) e ∙ ends_in_false 0 0 name))
key-external name key false e = refl

-- Every secret of the index stands under its own key, and is in the list.
Indexed : List SecretPlaintext → List (Text × SecretPlaintext) → Type 0
Indexed secrets = All λ (k, s). (k ≡ make_secret_key s.key s.is_internal) × Memᴰ s secrets

Indexed-lookup :
    (secrets : List SecretPlaintext) (m : List (Text × SecretPlaintext)) (key : Text)
    {s : SecretPlaintext}
    → Indexed secrets m
    → lookup key m ≡ some s
    → (make_secret_key s.key s.is_internal ≡ key) × Memᴰ s secrets
unfolding lookup Indexed
Indexed-lookup secrets [] key h e = cc
Indexed-lookup secrets ((k, a) ∷ m) key {s} h e = elim (Bool-cases (text_eq k key)) [
  | inl t ↦
      let i : a ≡ s = some-inj (sym (rw t refl) ∙ e) in
      subst (λ (s : SecretPlaintext). (make_secret_key s.key s.is_internal ≡ key) × Memᴰ s secrets)
        i (sym h.0.0 ∙ (text_eq_iff k key).0 t, h.0.1)
  | inr f ↦ Indexed-lookup secrets m key h.1 (sym (rw f refl) ∙ e)
]

visible-Memᴰ :
    (ss : List SecretPlaintext) (s : SecretPlaintext)
    → Memᴰ s ss
    → s.is_internal ≡ false
    → Memᴰ s.value (visible ss)
unfolding visible
visible-Memᴰ [] s m e = absurd (Memᴰ.not-nil m)
visible-Memᴰ (x ∷ ss) s m e = at_secret x.is_internal refl (Memᴰ.cases_cons m) (visible-Memᴰ ss s)
  where
    at_secret :
        (b : Bool)
        → x.is_internal ≡ b
        → (s ≡ x) ⊎ Memᴰ s ss
        → (Memᴰ s ss → s.is_internal ≡ false → Memᴰ s.value (visible ss))
        → Memᴰ s.value (if b then visible ss else x.value ∷ visible ss)
    at_secret true i (inl q) rest = cc
    at_secret true i (inr n) rest = rest n e
    at_secret false i (inl q) rest = Memᴰ.head (ap (λ (y : SecretPlaintext). y.value) q)
    at_secret false i (inr n) rest = Memᴰ.tail (rest n e)

Indexed-append :
    (secrets : List SecretPlaintext) (s : SecretPlaintext) (m : List (Text × SecretPlaintext))
    → Indexed secrets m
    → Indexed (secrets ++ (s ∷ [])) m
unfolding Indexed
Indexed-append secrets s m h = All-map m h λ (k, x) (e, n). (e, Memᴰ.append_left (s ∷ []) n)

index_secrets-Indexed :
    (all ss : List SecretPlaintext) (m : List (Text × SecretPlaintext))
    → ((s : SecretPlaintext) → Memᴰ s ss → Memᴰ s all)
    → Indexed all m
    → Indexed all (index_secrets ss m)
unfolding index_secrets Indexed
index_secrets-Indexed all [] m f h = h
index_secrets-Indexed all (s ∷ ss) m f h =
    index_secrets-Indexed all ss ((make_secret_key s.key s.is_internal, s) ∷ m)
      (λ x n. f x (Memᴰ.tail n)) ((refl, f s (Memᴰ.head refl)), h)

-- The store after `Init` and after each further secret.
pub Kept : SecretStore → Type 0
Kept store = Indexed store.secrets_plaintext store.by_key

pub init_secrets-Kept : (secrets : List SecretPlaintext) → Kept (init_secrets secrets)
unfolding init_secrets Kept
init_secrets-Kept secrets =
    index_secrets-Indexed secrets secrets [] (λ s m. m) (unfold Indexed in tt)

add_secret-Kept :
    (s : SecretPlaintext) (store : SecretStore) → Kept store → Kept (add_secret s store)
unfolding add_secret Kept Indexed
add_secret-Kept s store h = (
  (refl, Memᴰ.append_right store.secrets_plaintext (Memᴰ.head refl)),
  Indexed-append store.secrets_plaintext s store.by_key h,
)

-- The value of a secret that is not internal.
secret_value-visible :
    (store : SecretStore) (name : Text)
    → Kept store
    → OnSome
        (elim (get_secret name false store) as (λ _. Option Text) [
          | some s ↦ some s.value
          | none ↦ none
        ])
        λ v. Memᴰ v (visible (get_all_secrets store))
unfolding get_secret get_all_secrets Kept
secret_value-visible store name h =
    at_secret (lookup (make_secret_key name false) store.by_key) refl
  where
    at_secret :
        (o : Option SecretPlaintext)
        → lookup (make_secret_key name false) store.by_key ≡ o
        → OnSome
            (elim o as (λ _. Option Text) [ some s ↦ some s.value | none ↦ none ])
            λ v. Memᴰ v (visible store.secrets_plaintext)
    at_secret none q = tt
    at_secret (some s) q =
        let (k, m) = Indexed-lookup store.secrets_plaintext store.by_key _ h q in
        visible-Memᴰ store.secrets_plaintext s m (key-external name s.key s.is_internal k)

env_value-visible :
    (store : SecretStore) (e : EnvVar)
    → Kept store
    → (is_empty e.value_from_secret ≡ true)
      ⊎ OnSome (env_value store e) λ v. Memᴰ v (visible (get_all_secrets store))
unfolding env_value
env_value-visible store e h = elim (Bool-cases (is_empty e.value_from_secret)) [
  | inl t ↦ inl t
  | inr f ↦ inr (rw f (secret_value-visible store e.value_from_secret h))
]

env_values-visible :
    (store : SecretStore)
    → Kept store
    → (es : List EnvVar)
    → All
        (λ e.
          (is_empty e.value_from_secret ≡ true)
          ⊎ OnSome (env_value store e) λ v. Memᴰ v (visible (get_all_secrets store)))
        es
env_values-visible store h [] = tt
env_values-visible store h (e ∷ es) = (env_value-visible store e h, env_values-visible store h es)

added-visible :
    (secrets : List SecretPlaintext) (s : SecretPlaintext)
    → s.is_internal ≡ false
    → Memᴰ s.value (visible (get_all_secrets (add_secret s (init_secrets secrets))))
unfolding add_secret init_secrets get_all_secrets
added-visible secrets s e = visible-Memᴰ _ s (Memᴰ.append_right secrets (Memᴰ.head refl)) e

-- Once the standard variables are set, the access token of the job, and the value of each of its
-- variables that is taken from a secret, are among the values that the scrubber is to replace.
pub environment-visible :
    (secrets : List SecretPlaintext) (vars : List Text) (by_name : List (Text × Text))
    (r : RunnableDoc) (endpoint : Text) (es : List EnvVar)
    → let st = add_standard_global_env_vars r endpoint (record {
      global_env_vars = vars;
      global_env_vars_by_name = by_name;
      secret_store = init_secrets secrets;
    }) in
      Memᴰ r.jwt (visible (get_all_secrets st.secret_store))
      × All
          (λ e.
            (is_empty e.value_from_secret ≡ true)
            ⊎ OnSome
                (env_value st.secret_store e)
                λ v. Memᴰ v (visible (get_all_secrets st.secret_store)))
          es
unfolding add_standard_global_env_vars standard_variables set_variables add_global_env_var
environment-visible secrets vars by_name r endpoint es =
    let token : SecretPlaintext = record {
      key = codes "BB_BUILD_ACCESS_TOKEN";
      value = r.jwt;
      is_internal = false;
    } in
    (
      added-visible secrets token refl,
      env_values-visible (add_secret token (init_secrets secrets))
          (add_secret-Kept token (init_secrets secrets) (init_secrets-Kept secrets)) es,
    )

only_secret-visible :
    (store : SecretStore) (s : SecretString)
    → Kept store
    → OnSome (only_secret store s) λ v. Memᴰ v (visible (get_all_secrets store))
unfolding only_secret
only_secret-visible store s h = elim (Bool-cases (is_empty s.from_secret)) [
  | inl t ↦ rw t tt
  | inr f ↦ rw f (secret_value-visible store s.from_secret h)
]

basic_auth-visible :
    (store : SecretStore) (basic : Option BasicAuth)
    → Kept store
    → OnSome
        (basic_auth store basic)
        λ o. OnSome o λ (_, p). Memᴰ p (visible (get_all_secrets store))
unfolding basic_auth
basic_auth-visible store none h = tt
basic_auth-visible store (some b) h =
    OnSome->>= _ (direct_or_secret store b.username) _ (OnSome-any _) λ u _.
      OnSome->>= _ (only_secret store b.password) _ (only_secret-visible store b.password h)
        λ p m. m

aws_auth-visible :
    (store : SecretStore) (aws : Option AwsAuth)
    → Kept store
    → OnSome
        (aws_auth store aws)
        λ o. OnSome o λ (_, _, k). Memᴰ k (visible (get_all_secrets store))
unfolding aws_auth
aws_auth-visible store none h = tt
aws_auth-visible store (some a) h =
    OnSome->>= _ (direct_or_secret store a.access_key_id) _ (OnSome-any _) λ u _.
      OnSome->>= _ (only_secret store a.secret_access_key) _
        (only_secret-visible store a.secret_access_key h) λ k m. m

-- Every password and secret access key that Docker is given is among the values that the scrubber
-- is to replace, if the store is one that was filled by its operations.
pub get_docker_auth-visible :
    (store : SecretStore) (basic : Option BasicAuth) (aws : Option AwsAuth)
    → Kept store
    → OnSome (get_docker_auth store basic aws) λ d.
      OnSome d.basic (λ (_, p). Memᴰ p (visible (get_all_secrets store)))
      × OnSome d.aws λ (_, _, k). Memᴰ k (visible (get_all_secrets store))
unfolding get_docker_auth
get_docker_auth-visible store basic aws h =
    OnSome->>= _ (basic_auth store basic) _ (basic_auth-visible store basic h)
      λ b p. OnSome->>= _ (aws_auth store aws) _ (aws_auth-visible store aws h) λ a k. (p, k)

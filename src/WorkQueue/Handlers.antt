-- ===== src/WorkQueue/Handlers.antt =====
-- The handlers of the work queue.
use buildbeaver.Base.{
  ◌==◌, if◌then◌else◌, ℕ, ◌≡◌, refl, ap, subst, ◌∙◌, Bool, true, false, Option, none, some, List,
  [], ◌∷◌, ◌++◌, arith,
}
use buildbeaver.Models.{Text, text_eq}
use buildbeaver.Queue.{first}
use buildbeaver.WorkQueue.{
  BackoffAlgorithm, WorkItem, HandlerResult, HandlerRegistration, get_handler, zero_timeout,
  registered, registration, add_registration, register_handler,
}
use buildbeaver.Models.Laws.{text_eq_iff}

first-append {ℓ} :
    {A : Type ℓ} (p : A → Bool) (xs : List A) (x : A)
    → first p (xs ++ (x ∷ [])) ≡ elim (first p xs) as (λ _. Option A) [
      | some y ↦ some y
      | none ↦ if p x then some x else none
    ]
unfolding first
first-append p [] x = refl
first-append p (y ∷ ys) x = ground (arith, first-append p ys x)

same_or_none :
    (b : Bool) (r : HandlerRegistration) (o : Option HandlerRegistration)
    → (b ≡ true → o ≡ none)
    → elim o as (λ _. Option HandlerRegistration) [
      | some y ↦ some y
      | none ↦ if b then some r else none
    ]
      ≡ (if b then some r else o)
same_or_none true r o h = rw (h refl) refl
same_or_none false r none h = refl
same_or_none false r (some y) h = refl

add_registration-get_handler :
    (t : Text) (r : HandlerRegistration) (o : Option HandlerRegistration)
    (rs rs' : List HandlerRegistration)
    → get_handler r.type rs ≡ o
    → add_registration r o rs ≡ registered rs'
    → get_handler t rs' ≡ (if text_eq r.type t then some r else get_handler t rs)
unfolding add_registration get_handler
add_registration-get_handler t r (some old) rs rs' e h = cc
add_registration-get_handler t r none rs rs' e h =
    ap (λ l. first (λ q. text_eq q.type t) l) (registered-inj h)
    ∙ first-append (λ q. text_eq q.type t) rs r
    ∙ same_or_none (text_eq r.type t) r (first (λ q. text_eq q.type t) rs)
        λ b. subst (λ u. first (λ q. text_eq q.type u) rs ≡ none) ((text_eq_iff r.type t).0 b) e
  where
    registered-inj : registered (rs ++ (r ∷ [])) ≡ registered rs' → rs' ≡ rs ++ (r ∷ [])
    registered-inj e = cc

-- Once a handler was registered for a type, it is the handler of the type, and the handlers of the
-- other types are as they were.
pub register_handler-get_handler :
    (type t : Text) (handler : WorkItem → HandlerResult) (timeout : ℕ)
    (backoff : Option BackoffAlgorithm) (keep_failed keep_successful : Bool)
    (rs rs' : List HandlerRegistration)
    → register_handler type handler timeout backoff keep_failed keep_successful rs ≡ registered rs'
    → get_handler t rs' ≡ (
        if text_eq type t
        then some (registration type handler timeout backoff keep_failed keep_successful)
        else get_handler t rs)
unfolding register_handler registration
register_handler-get_handler type t handler timeout backoff keep_failed keep_successful rs rs' h =
    at_timeout (timeout == 0) h
  where
    new_one : HandlerRegistration
    new_one = registration type handler timeout backoff keep_failed keep_successful

    at_timeout :
        (b : Bool)
        → (if b then zero_timeout else add_registration new_one (get_handler type rs) rs)
          ≡ registered rs'
        → get_handler t rs' ≡ (if text_eq type t then some new_one else get_handler t rs)
    at_timeout true e = cc
    at_timeout false e = add_registration-get_handler t new_one (get_handler type rs) rs rs' refl e

-- ===== src/WorkQueue/Links.antt =====
-- The references of work items to their states.
use buildbeaver.Base.{
  ◌==◌, length, all, ℕ, ◌≡◌, refl, ap, ◌∙◌, ◌≢◌, Bool, true, not, ◌||◌, some, List, [], ◌∷◌, ◌++◌,
  arith,
}
use buildbeaver.Queue.{find_row, put_row, select}
use buildbeaver.WorkQueue.{WorkItem, WorkItemState, Store, item_key, state_key, is_null}

unfoldable pub has_state : List WorkItemState → ℕ → Bool
has_state states id = not (is_null (find_row state_key id states))

-- The reference of every item is to a state.
unfoldable pub linked : Store → Bool
linked store = all (λ i. has_state store.states i.state_id) store.items

pub has_state-put_row :
    (s : WorkItemState) (states : List WorkItemState) (id : ℕ)
    → has_state (put_row state_key s states) id ≡ has_state states id
unfolding has_state find_row put_row is_null
has_state-put_row s [] id = refl
has_state-put_row s (t ∷ ts) id = ground (arith, has_state-put_row s ts id)

pub has_state-append :
    (s : WorkItemState) (states : List WorkItemState) (id : ℕ)
    → has_state (states ++ (s ∷ [])) id ≡ (has_state states id || s.id == id)
unfolding has_state find_row is_null
has_state-append s [] id = ground arith
has_state-append s (t ∷ ts) id = ground (arith, has_state-append s ts id)

pub has_state-select :
    (k : ℕ) (states : List WorkItemState) (id : ℕ)
    → id ≢ k
    → has_state (select (λ s. not (s.id == k)) states) id ≡ has_state states id
unfolding has_state find_row is_null select
has_state-select k [] id n = refl
has_state-select k (t ∷ ts) id n = ground (arith, has_state-select k ts id n)

-- The links of a list of items to the states.
abbrev pub links : List WorkItemState → List WorkItem → Bool
links states = all (λ i. has_state states i.state_id)

pub links_mono :
    (states states' : List WorkItemState) (items : List WorkItem)
    → ((id : ℕ) → has_state states id ≡ true → has_state states' id ≡ true)
    → links states items ≡ true
    → links states' items ≡ true
links_mono states states' [] f h = refl
links_mono states states' (i ∷ is) f h =
    ground (arith, f i.state_id, links_mono states states' is f)

pub links-put_row :
    (states : List WorkItemState) (i : WorkItem) (items : List WorkItem)
    → has_state states i.state_id ≡ true
    → links states items ≡ true
    → links states (put_row item_key i items) ≡ true
unfolding put_row
links-put_row states i [] f h = refl
links-put_row states i (k ∷ is) f h = ground (arith, links-put_row states i is)

pub links-append :
    (states : List WorkItemState) (items : List WorkItem) (i : WorkItem)
    → has_state states i.state_id ≡ true
    → links states items ≡ true
    → links states (items ++ (i ∷ [])) ≡ true
links-append states [] i f h = ground (arith, f)
links-append states (k ∷ is) i f h = ground (arith, links-append states is i f)

pub links-select :
    (states : List WorkItemState) (p : WorkItem → Bool) (items : List WorkItem)
    → links states items ≡ true
    → links states (select p items) ≡ true
unfolding select
links-select states p [] h = refl
links-select states p (i ∷ is) h = ground (arith, links-select states p is)

pub links-unused :
    (states : List WorkItemState) (k : ℕ) (items : List WorkItem)
    → length (select (λ i. i.state_id == k) items) ≡ 0
    → links states items ≡ true
    → links (select (λ s. not (s.id == k)) states) items ≡ true
unfolding select
links-unused states k [] c h = refl
links-unused states k (i ∷ is) c h =
    ground (arith, links-unused states k is, has_state-select k states i.state_id)

pub has_state-found :
    (states : List WorkItemState) (id : ℕ) {s : WorkItemState}
    → find_row state_key id states ≡ some s
    → has_state states id ≡ true
unfolding has_state is_null
has_state-found states id e = rw e refl

-- An item is replaced by one whose state exists, and the IDs of the states stay.
pub linked-replaced :
    (old mid after : Store) (id : ℕ) (k : WorkItem)
    → k.state_id ≡ id
    → mid.items ≡ put_row item_key k old.items
    → mid.states ≡ old.states
    → after.items ≡ mid.items
    → ((j : ℕ) → has_state after.states j ≡ has_state mid.states j)
    → has_state after.states id ≡ true
    → linked old ≡ true
    → linked after ≡ true
unfolding linked
linked-replaced old mid after id k e f g f' s h l =
    ap (links after.states) (f' ∙ f)
    ∙ links-put_row after.states k old.items (ap (has_state after.states) e ∙ h) (
        links_mono old.states after.states old.items
          (λ j t. s j ∙ ap (λ states. has_state states j) g ∙ t) l)

-- ===== src/WorkQueue/Integrity/Rows.antt =====
-- What the updates of the two tables of the work queue do to the references.
use buildbeaver.Base.{
  ◌==◌, if◌then◌else◌, ==_iff, OnSome, OnSome-map, ℕ, ◌≡◌, refl, ap, ◌∙◌, Bool, true, false, not,
  Option, none, some, [], ◌∷◌, ◌++◌, arith,
}
use buildbeaver.Queue.{find_row, put_row, find_row-key, select}
use buildbeaver.WorkQueue.{
  WorkItem, WorkItemState, WorkItemRecords, Store, item_key, state_key, is_null, count_work_items,
  find_or_create_state, update_item_row, update_state_row, update_both, delete_item,
  delete_and_update,
}
use buildbeaver.WorkQueue.Links.{
  has_state, linked, has_state-put_row, has_state-append, links, links_mono, links-select,
  links-unused, has_state-found, linked-replaced,
}

-- The same items, and the same IDs of states, of which the given one is one.
abbrev SameStates : Store → ℕ → Store → Type 0
SameStates old id after =
    (after.items ≡ old.items)
    × ((k : ℕ) → has_state after.states k ≡ has_state old.states k)
    × (has_state after.states id ≡ true)

update_state_row-SameStates :
    (s : WorkItemState) (store : Store) → OnSome (update_state_row s store) (SameStates store s.id)
unfolding update_state_row
update_state_row-SameStates s store = at_row (find_row state_key s.id store.states) refl
  where
    at_row :
        (o : Option WorkItemState)
        → find_row state_key s.id store.states ≡ o
        → OnSome
            (elim o as (λ _. Option Store) [
              | some old ↦ some (record store {
                states = put_row state_key (record s { created_at = old.created_at }) store.states;
              })
              | none ↦ none
            ])
            (SameStates store s.id)
    at_row none e = tt
    at_row (some old) e = (
      refl,
      λ k. has_state-put_row (record s { created_at = old.created_at }) store.states k,
      has_state-put_row (record s { created_at = old.created_at }) store.states s.id
          ∙ has_state-found store.states s.id e,
    )

-- The item is replaced by one with the same state, and the states stay.
abbrev ItemReplaced : Store → WorkItem → Store → Type 0
ItemReplaced old i after =
    (k : WorkItem) × (k.state_id ≡ i.state_id)
    × (after.items ≡ put_row item_key k old.items)
    × (after.states ≡ old.states)

update_item_row-ItemReplaced :
    (i : WorkItem) (store : Store) → OnSome (update_item_row i store) (ItemReplaced store i)
unfolding update_item_row
update_item_row-ItemReplaced i store = at_row (find_row item_key i.id store.items)
  where
    at_row :
        (o : Option WorkItem)
        → OnSome
            (elim o as (λ _. Option Store) [
              | some old ↦ some (record store {
                items = put_row item_key (record i { created_at = old.created_at }) store.items;
              })
              | none ↦ none
            ])
            (ItemReplaced store i)
    at_row none = tt
    at_row (some old) = (record i { created_at = old.created_at }, refl, refl, refl)

pub update_both-linked :
    (r : WorkItemRecords) (store : Store)
    → r.item.state_id ≡ r.state.id
    → linked store ≡ true
    → OnSome (update_both r store) λ store'. linked store' ≡ true
unfolding update_both
update_both-linked r store e l =
    at_item (update_item_row r.item store) (update_item_row-ItemReplaced r.item store)
  where
    at_state :
        (mid : Store) (o : Option Store)
        → ItemReplaced store r.item mid
        → OnSome o (SameStates mid r.state.id)
        → OnSome o λ store'. linked store' ≡ true
    at_state mid none f g = tt
    at_state mid (some after) f g =
        linked-replaced store mid after r.state.id f.0 (f.1 ∙ e) f.2 f.3 g.0 g.1 g.2 l

    at_item :
        (o : Option Store)
        → OnSome o (ItemReplaced store r.item)
        → OnSome
            (elim o as (λ _. Option Store) [ some x ↦ update_state_row r.state x | none ↦ none ])
            λ store'. linked store' ≡ true
    at_item none f = tt
    at_item (some mid) f =
        at_state mid (update_state_row r.state mid) f (update_state_row-SameStates r.state mid)

SameStates-linked :
    (old : Store) (id : ℕ) (after : Store)
    → linked old ≡ true
    → SameStates old id after
    → linked after ≡ true
unfolding linked
SameStates-linked old id after l f =
    ap (links after.states) f.0 ∙ links_mono old.states after.states old.items (λ k t. f.1 k ∙ t) l

pub delete_and_update-linked :
    (r : WorkItemRecords) (store : Store)
    → linked store ≡ true
    → OnSome (delete_and_update r store) λ store'. linked store' ≡ true
unfolding delete_and_update linked
delete_and_update-linked r store l =
    at_count (is_null (find_row state_key r.state.id store.states))
      (count_work_items r.state.id (delete_item r store) == 0) refl
  where
    at_count :
        (missing unused : Bool)
        → (count_work_items r.state.id (delete_item r store) == 0) ≡ unused
        → OnSome
            (if missing
              then none
              else if unused
              then some (record (delete_item r store) {
                states = select (λ s. not (s.id == r.state.id)) store.states;
              })
              else update_state_row r.state (delete_item r store))
            λ store'. linked store' ≡ true
    at_count true unused e = tt
    at_count false true e =
        unfold delete_item count_work_items in
        links-unused store.states r.state.id (delete_item r store).items ((==_iff _ _).0 e)
          (links-select store.states (λ i. not (i.id == r.item.id)) store.items l)
    at_count false false e =
        unfold delete_item in
        OnSome-map (SameStates (delete_item r store) r.state.id) _
          (update_state_row r.state (delete_item r store))
          (update_state_row-SameStates r.state (delete_item r store))
          λ after f.
            SameStates-linked (delete_item r store) r.state.id after
              (links-select store.states (λ i. not (i.id == r.item.id)) store.items l) f

-- What finding or creating a state leaves.
abbrev pub HasFound : Store → WorkItemState × Store → Type 0
HasFound store p =
    (has_state p.1.states p.0.id ≡ true)
    × (p.1.items ≡ store.items)
    × ((k : ℕ) → has_state store.states k ≡ true → has_state p.1.states k ≡ true)

pub find_or_create_state-HasFound :
    (s : WorkItemState) (store : Store) → HasFound store (find_or_create_state s store)
unfolding find_or_create_state
find_or_create_state-HasFound s store = at_row (find_row state_key s.id store.states) refl
  where
    at_row :
        (o : Option WorkItemState)
        → find_row state_key s.id store.states ≡ o
        → HasFound store (elim o as (λ _. WorkItemState × Store) [
          | some old ↦ (old, store)
          | none ↦ (s, record store { states = store.states ++ (s ∷ []) })
        ])
    at_row none e = (
      ground (arith, has_state-append s store.states s.id),
      refl,
      λ k h. ground (arith, has_state-append s store.states k, h),
    )
    at_row (some old) e = (
      ap (has_state store.states) (find_row-key state_key s.id store.states e)
          ∙ has_state-found store.states s.id e,
      refl,
      λ k h. h,
    )

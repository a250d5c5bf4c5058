-- ===== src/WorkQueue/Allocation.antt =====
-- Which item of the work queue is allocated.
use buildbeaver.Base.{
  ◌==◌, Option-cases, some-inj, some-then, All, ℕ, ◌≤◌, ◌≡◌, refl, sym, ap, subst, ◌∙◌, ◌≢◌, inl,
  inr, Bool, true, ◌&&◌, Option, none, some, List, arith,
}
use buildbeaver.Models.{Text}
use buildbeaver.Queue.{
  find_row, put_row, find_row-key, find_row-put_row_own, select, All-select, Next, earliest-Next,
}
use buildbeaver.WorkQueue.{
  WorkItem, WorkItemState, WorkItemRecords, Store, state_key, is_before, is_null, state_available,
  item_waiting, item_available, item_time, join, find_queued_work_item, HandlerRegistration,
  get_handler, list_all_registered_types, allocation_ttl_from_timeout, update_item_row,
  update_state_row, update_both, allocated, allocate_found, allocate_work_item,
}

-- The item that is found, its state, and why it was chosen.
abbrev Found : ℕ → List Text → Store → WorkItemRecords → Type 0
Found now types store r =
    Next item_time (item_available now types store) store.items (some r.item)
    × (find_row state_key r.item.state_id store.states ≡ some r.state)

join-some :
    (store : Store) (i : WorkItem) {r : WorkItemRecords}
    → join store (some i) ≡ some r
    → (r.item ≡ i) × (find_row state_key i.state_id store.states ≡ some r.state)
unfolding join
join-some store i {r} h = ground arith

find_queued_work_item-Found :
    (now : ℕ) (types : List Text) (store : Store) {r : WorkItemRecords}
    → find_queued_work_item now types store ≡ some r
    → Found now types store r
unfolding find_queued_work_item
find_queued_work_item-Found now types store {r} h =
    joined _ (earliest-Next item_time (item_available now types store) store.items) h
  where
    joined :
        (o : Option WorkItem)
        → Next item_time (item_available now types store) store.items o
        → join store o ≡ some r
        → Found now types store r
    joined none n h = cc
    joined (some i) n h =
        subst
          (λ k.
            Next item_time (item_available now types store) store.items (some k)
            × (find_row state_key k.state_id store.states ≡ some r.state))
          (sym (join-some store i h).0) (n, (join-some store i h).1)

item_available-state :
    (now : ℕ) (types : List Text) (store : Store) (i : WorkItem) {s : WorkItemState}
    → find_row state_key i.state_id store.states ≡ some s
    → item_available now types store i ≡ (item_waiting types i && state_available now s)
unfolding item_available
item_available-state now types store i f = rw f refl

and_right : (a b : Bool) → (a && b) ≡ true → b ≡ true
and_right a b h = ground arith

-- The state of the item that is found allows an allocation.
found-state_available :
    (now : ℕ) (types : List Text) (store : Store) {r : WorkItemRecords}
    → find_queued_work_item now types store ≡ some r
    → state_available now r.state ≡ true
unfolding Next
found-state_available now types store {r} h =
    let f = find_queued_work_item-Found now types store h in
    and_right (item_waiting types r.item) _
      (sym (item_available-state now types store r.item f.1) ∙ f.0.1)

-- The items that wait under a state: not completed, and of a type that is asked for.
unfoldable pub waits_under : List Text → ℕ → WorkItem → Bool
waits_under types state i = item_waiting types i && i.state_id == state

waits_under-lem :
    (types : List Text) (state : ℕ) (k : WorkItem)
    → waits_under types state k ≡ true
    → (item_waiting types k ≡ true) × (k.state_id ≡ state)
unfolding waits_under
waits_under-lem types state k h = ground arith

-- The item that is found was created no later than any other that waits under its state: items that
-- share a concurrency key are processed in the order of their creation, also when one of them must
-- wait for its retry.
pub first_of_its_key :
    (now : ℕ) (types : List Text) (store : Store) {r : WorkItemRecords}
    → find_queued_work_item now types store ≡ some r
    → All
        (λ k. r.item.created_at ≤ k.created_at)
        (select (waits_under types r.item.state_id) store.items)
unfolding Next
first_of_its_key now types store {r} h =
    All-select _ (item_available now types store) (waits_under types r.item.state_id) store.items
      (find_queued_work_item-Found now types store h).0.2 available
  where
    available :
        (k : WorkItem)
        → waits_under types r.item.state_id k ≡ true
        → item_available now types store k ≡ true
    available k g =
        item_available-state now types store k (
          ap (λ i. find_row state_key i store.states) (waits_under-lem types r.item.state_id k g).1
          ∙ (find_queued_work_item-Found now types store h).1)
        ∙ rw
            ((waits_under-lem types r.item.state_id k g).0, found-state_available now types store h)
            refl

-- While a state is allocated, no item of it is found.
pub not_while_allocated :
    (now : ℕ) (types : List Text) (store : Store) {r : WorkItemRecords} {s : WorkItemState}
    {until processor : ℕ}
    → find_queued_work_item now types store ≡ some r
    → find_row state_key s.id store.states ≡ some s
    → s.allocated_to ≡ some processor
    → s.allocated_until ≡ some until
    → now ≤ until
    → r.item.state_id ≢ s.id
unfolding state_available is_before is_null
not_while_allocated now types store {r} {s} h f p u l e =
    ground (arith, same, found-state_available now types store h)
  where
    same : some r.state ≡ some s
    same =
        sym (find_queued_work_item-Found now types store h).1
        ∙ ap (λ i. find_row state_key i store.states) e
        ∙ f

-- The row of the state, whose allocation is the given one.
abbrev Written : WorkItemState → Store → Type 0
Written s store =
    (t : WorkItemState) × (find_row state_key t.id store.states ≡ some t)
    × (t.id ≡ s.id)
    × (t.allocated_to ≡ s.allocated_to)
    × (t.allocated_until ≡ s.allocated_until)

update_state_row-Written :
    (s : WorkItemState) (store : Store) {store' : Store}
    → update_state_row s store ≡ some store'
    → Written s store'
unfolding update_state_row
update_state_row-Written s store {store'} h = cases (find_row state_key s.id store.states) refl h
  where
    cases :
        (o : Option WorkItemState)
        → find_row state_key s.id store.states ≡ o
        → elim o as (λ _. Option Store) [
          | some old ↦ some (record store {
            states = put_row state_key (record s { created_at = old.created_at }) store.states;
          })
          | none ↦ none
        ]
          ≡ some store'
        → Written s store'
    cases none e h = cc
    cases (some old) e h = (
      record s { created_at = old.created_at },
      subst
          (λ (o : Option Store). elim o as (λ _. Type 0) [
            | some x ↦
                find_row state_key s.id x.states ≡ some (record s { created_at = old.created_at })
            | none ↦ Unit {0}
          ])
          h
          (find_row-put_row_own state_key s.id (record s { created_at = old.created_at }) old
            store.states refl e),
      refl,
      refl,
      refl,
    )

update_both-Written :
    (r : WorkItemRecords) (store : Store) {store' : Store}
    → update_both r store ≡ some store'
    → Written r.state store'
unfolding update_both
update_both-Written r store {store'} h = elim (Option-cases (update_item_row r.item store)) [
  | inl e ↦ cc
  | inr (store₁, e) ↦
      update_state_row-Written r.state store₁ {store' = store'}
        (sym (some-then (update_state_row r.state) e) ∙ h)
]

allocate_found-Written :
    (processor now : ℕ) (o : Option HandlerRegistration) (r₀ : WorkItemRecords)
    (store store' : Store) {r : WorkItemRecords}
    → allocate_found processor now o r₀ store ≡ some (r, store')
    → find_row state_key r₀.item.state_id store.states ≡ some r₀.state
    → Written r.state store'
      × (r.state.allocated_to ≡ some processor)
      × (r.state.id ≡ r.item.state_id)
unfolding allocate_found allocated
allocate_found-Written processor now none r₀ store store' h f = cc
allocate_found-Written processor now (some g) r₀ store store' {r} h f =
    let a = allocated processor now (allocation_ttl_from_timeout g.timeout) r₀ in
    elim (Option-cases (update_both a store)) [
      | inl e ↦ cc
      | inr (store₁, e) ↦
          let same : (a, store₁) ≡ (r, store') =
            some-inj (sym (some-then (λ x. some (a, x)) e) ∙ h) in
          subst
            (λ (x : WorkItemRecords × Store).
              Written x.0.state x.1
              × (x.0.state.allocated_to ≡ some processor)
              × (x.0.state.id ≡ x.0.item.state_id))
            same (update_both-Written a store e, refl, find_row-key state_key _ store.states f)
    ]

allocate_work_item-Written :
    (rs : List HandlerRegistration) (processor asked now : ℕ) (store store' : Store)
    {r : WorkItemRecords}
    → allocate_work_item rs processor asked now store ≡ some (r, store')
    → Written r.state store'
      × (r.state.allocated_to ≡ some processor)
      × (r.state.id ≡ r.item.state_id)
unfolding allocate_work_item
allocate_work_item-Written rs processor asked now store store' {r} h =
    elim (Option-cases (find_queued_work_item asked (list_all_registered_types rs) store)) [
      | inl e ↦ cc
      | inr (r₀, e) ↦
          allocate_found-Written processor now (get_handler r₀.item.type rs) r₀ store store' {r = r}
            (sym (
                some-then (λ r. allocate_found processor now (get_handler r.item.type rs) r store)
                  e)
              ∙ h)
            (find_queued_work_item-Found asked (list_all_registered_types rs) store e).1
    ]

-- An item that is allocated until a time keeps the items of its state from being found until then:
-- two processors never work at the same time on items that share a concurrency key, unless an
-- allocation has expired.
pub allocation_excludes :
    (rs : List HandlerRegistration) (processor asked now later : ℕ) (types : List Text)
    (store store' : Store) {r r' : WorkItemRecords} {until : ℕ}
    → allocate_work_item rs processor asked now store ≡ some (r, store')
    → r.state.allocated_until ≡ some until
    → later ≤ until
    → find_queued_work_item later types store' ≡ some r'
    → r'.item.state_id ≢ r.item.state_id
allocation_excludes rs processor asked now later types store store' h u l h' e =
    let w = allocate_work_item-Written rs processor asked now store store' h in
    not_while_allocated later types store' h' w.0.1 (w.0.3 ∙ w.1) (w.0.4 ∙ u) l
      (e ∙ sym w.2 ∙ sym w.0.2)

-- ===== src/WorkQueue/Items.antt =====
-- The records of the work queue, and the queries on them:
-- backend/server/store/work_item_states/work_item_states.go.
use buildbeaver.Base.{
  ltb, ◌==◌, length, any, ℕ, Bool, true, false, not, ◌&&◌, ◌||◌, Option, none, some, List, [], ◌∷◌,
  ◌++◌,
}
use buildbeaver.Models.{Text, text_eq, is_empty, is_set}
use buildbeaver.Queue.{find_row, select, earliest}

-- The status message of a work item, with the error it tells.
pub data ItemStatus : Type 0 where
  new processing done : ItemStatus
  failed_permanently awaiting_retry : Text → ItemStatus
  gave_up_after : ℕ → Text → ItemStatus

pub record WorkItem : Type 0 where
  pub id : ℕ
  pub created_at : ℕ
  pub concurrency_key : Text
  pub state_id : ℕ
  pub type : Text
  pub data_text : Text
  pub status : ItemStatus
  pub completed_at : Option ℕ

pub record WorkItemState : Type 0 where
  pub id : ℕ
  pub created_at : ℕ
  pub attempts_so_far : ℕ
  pub not_before : Option ℕ
  pub allocated_at : Option ℕ
  pub allocated_to : Option ℕ
  pub allocated_until : Option ℕ

-- `WorkItemRecords`
pub record WorkItemRecords : Type 0 where
  pub item : WorkItem
  pub state : WorkItemState

-- `WorkItem.Validate`
unfoldable pub work_item_valid : WorkItem → Bool
work_item_valid i = is_set i.id && is_set i.created_at && not (is_empty i.type)

-- The two tables.
pub record Store : Type 0 where
  pub items : List WorkItem
  pub states : List WorkItemState

abbrev pub item_key : WorkItem → ℕ
item_key i = i.id

abbrev pub state_key : WorkItemState → ℕ
state_key s = s.id

-- A comparison in SQL, which null makes false.
unfoldable pub is_before : Option ℕ → ℕ → Bool
is_before none now = false
is_before (some t) now = ltb t now

unfoldable pub is_null {ℓ} : {A : Type ℓ} → Option A → Bool
is_null none = true
is_null (some a) = false

-- The state allows an allocation at the time: it is not allocated or its allocation has expired, and
-- the time before which there must be no attempt is over.
unfoldable pub state_available : ℕ → WorkItemState → Bool
state_available now s =
    (is_null s.allocated_to || (not (is_null s.allocated_to) && is_before s.allocated_until now))
    && (is_null s.not_before || is_before s.not_before now)

unfoldable pub item_waiting : List Text → WorkItem → Bool
item_waiting types i = any (text_eq i.type) types && is_null i.completed_at

-- The `where` clause of `FindQueuedWorkItem`, after the join.
unfoldable pub item_available : ℕ → List Text → Store → WorkItem → Bool
item_available now types store i =
    item_waiting types i && elim (find_row state_key i.state_id store.states) [
      | some s ↦ state_available now s
      | none ↦ false
    ]

-- The time of `order by work_item_created_at`.
abbrev pub item_time : WorkItem → ℕ
item_time i = i.created_at

-- The item with its state.
unfoldable pub join : Store → Option WorkItem → Option WorkItemRecords
join store none = none
join store (some i) = elim (find_row state_key i.state_id store.states) [
  | some s ↦ some (record { item = i; state = s })
  | none ↦ none
]

unfoldable pub find_queued_work_item : ℕ → List Text → Store → Option WorkItemRecords
unfolding join
find_queued_work_item now types store =
    join store (earliest item_time (select (item_available now types store) store.items))

-- `CountWorkItems`
unfoldable pub count_work_items : ℕ → Store → ℕ
count_work_items id store = length (select (λ i. i.state_id == id) store.items)

-- `FindOrCreateAndLockRow`
unfoldable pub find_or_create_state : WorkItemState → Store → WorkItemState × Store
find_or_create_state s store = elim (find_row state_key s.id store.states) [
  | some old ↦ (old, store)
  | none ↦ (s, record store { states = store.states ++ (s ∷ []) })
]

unfoldable pub new_work_item_state : ℕ → ℕ → WorkItemState
new_work_item_state now id = record {
  id = id;
  created_at = now;
  attempts_so_far = 0;
  not_before = none;
  allocated_at = none;
  allocated_to = none;
  allocated_until = none;
}

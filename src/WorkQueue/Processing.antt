-- ===== src/WorkQueue/Processing.antt =====
-- backend/server/services/work_queue/work_queue_service.go: items are added, allocated to a processor,
-- handled, and then retried, kept or deleted.
use buildbeaver.Base.{
  ltb, ◌==◌, if◌then◌else◌, ℕ, zero, suc, ◌+◌, ◌*◌, Bool, true, false, not, ◌&&◌, Option, none,
  some, List, [], ◌∷◌, ◌++◌, map,
}
use buildbeaver.Models.{Text, text_eq, is_set}
use buildbeaver.Queue.{find_row, put_row, select, first}
use buildbeaver.WorkQueue.Backoff.{BackoffAlgorithm, exponential_backoff}
use buildbeaver.WorkQueue.Items.{
  ItemStatus, processing, done, failed_permanently, awaiting_retry, gave_up_after, WorkItem,
  WorkItemState, WorkItemRecords, work_item_valid, Store, item_key, state_key, is_null,
  find_queued_work_item, count_work_items, find_or_create_state, new_work_item_state,
}

-- What a handler returns: no error, or one and whether to retry.
pub data HandlerResult : Type 0 where
  handled : HandlerResult
  handler_failed : (can_retry : Bool) (e : Text) → HandlerResult

pub record HandlerRegistration : Type 0 where
  pub type : Text
  pub handler : WorkItem → HandlerResult
  pub timeout : ℕ
  pub backoff_algorithm : BackoffAlgorithm
  pub keep_failed_work_items : Bool
  pub keep_successful_work_items : Bool

-- `getHandler`; the map of registrations is a list with distinct types.
unfoldable pub get_handler : Text → List HandlerRegistration → Option HandlerRegistration
get_handler type rs = first (λ r. text_eq r.type type) rs

-- `listAllRegisteredTypes`
unfoldable pub list_all_registered_types : List HandlerRegistration → List Text
list_all_registered_types = map (λ r. r.type)

-- What `RegisterHandler` does: it panics, returns an error, or leaves registrations.
pub data Registered : Type 0 where
  zero_timeout already_registered : Registered
  registered : List HandlerRegistration → Registered

-- One second, and one minute, in nanoseconds.
abbrev pub second : ℕ
second = 1000000000

abbrev pub minute : ℕ
minute = 60000000000

-- Without an algorithm there are at most 10 attempts, one second to one minute apart.
unfoldable pub or_default_backoff : Option BackoffAlgorithm → BackoffAlgorithm
or_default_backoff (some backoff) = backoff
or_default_backoff none = exponential_backoff 10 second minute

unfoldable pub registration :
    Text
    → (WorkItem → HandlerResult)
    → ℕ
    → Option BackoffAlgorithm
    → Bool
    → Bool
    → HandlerRegistration
registration type handler timeout backoff keep_failed keep_successful = record {
  type = type;
  handler = handler;
  timeout = timeout;
  backoff_algorithm = or_default_backoff backoff;
  keep_failed_work_items = keep_failed;
  keep_successful_work_items = keep_successful;
}

-- The lookup in the map, and its extension.
unfoldable pub add_registration :
    HandlerRegistration → Option HandlerRegistration → List HandlerRegistration → Registered
add_registration r (some old) rs = already_registered
add_registration r none rs = registered (rs ++ (r ∷ []))

-- `RegisterHandler`
unfoldable pub register_handler :
    Text
    → (WorkItem → HandlerResult)
    → ℕ
    → Option BackoffAlgorithm
    → Bool
    → Bool
    → List HandlerRegistration
    → Registered
unfolding registration add_registration
register_handler type handler timeout backoff keep_failed keep_successful rs =
    if timeout == 0
    then zero_timeout
    else add_registration (registration type handler timeout backoff keep_failed keep_successful)
        (get_handler type rs) rs

-- `AddWorkItem`, where the ID of the state is made from the concurrency key, or is new; nothing if the
-- item is not valid or there is one with its ID.
unfoldable pub add_work_item : ℕ → ℕ → WorkItem → Store → Option Store
add_work_item now state_id item store =
    let found_state = find_or_create_state (new_work_item_state now state_id) store in
    if is_set state_id && work_item_valid item && is_null (find_row item_key item.id store.items)
    then some (record found_state.1 {
      items = found_state.1.items ++ (record item { state_id = found_state.0.id } ∷ []);
    })
    else none

unfoldable pub allocation_ttl_from_timeout : ℕ → ℕ
allocation_ttl_from_timeout timeout = if ltb (2 * timeout) minute then minute else 2 * timeout

-- The updates of the two tables, which keep the time of creation, and fail if there is no row.
unfoldable pub update_item_row : WorkItem → Store → Option Store
update_item_row i store = elim (find_row item_key i.id store.items) [
  | some old ↦ some (record store {
    items = put_row item_key (record i { created_at = old.created_at }) store.items;
  })
  | none ↦ none
]

unfoldable pub update_state_row : WorkItemState → Store → Option Store
update_state_row s store = elim (find_row state_key s.id store.states) [
  | some old ↦ some (record store {
    states = put_row state_key (record s { created_at = old.created_at }) store.states;
  })
  | none ↦ none
]

unfoldable pub update_both : WorkItemRecords → Store → Option Store
update_both records store = elim (update_item_row records.item store) [
  | some store' ↦ update_state_row records.state store'
  | none ↦ none
]

-- The records of an item that is allocated to a processor until the time to live is over.
unfoldable pub allocated : ℕ → ℕ → ℕ → WorkItemRecords → WorkItemRecords
allocated processor now ttl r = record {
  item = record r.item { status = processing };
  state = record r.state {
    attempts_so_far = r.state.attempts_so_far + 1;
    allocated_at = some now;
    allocated_to = some processor;
    allocated_until = some (now + ttl);
  };
}

unfoldable pub allocate_found :
    ℕ → ℕ → Option HandlerRegistration → WorkItemRecords → Store → Option (WorkItemRecords × Store)
allocate_found processor now none r store = none
allocate_found processor now (some h) r store =
    let a = allocated processor now (allocation_ttl_from_timeout h.timeout) r in
    elim (update_both a store) [ some store' ↦ some (a, store') | none ↦ none ]

-- `allocateWorkItem`: the query runs at one time, and the allocation at a later one. Without an item
-- or with an error the store is as it was, and the processor waits.
unfoldable pub allocate_work_item :
    List HandlerRegistration → ℕ → ℕ → ℕ → Store → Option (WorkItemRecords × Store)
allocate_work_item rs processor asked now store =
    elim (find_queued_work_item asked (list_all_registered_types rs) store) [
      | some r ↦ allocate_found processor now (get_handler r.item.type rs) r store
      | none ↦ none
    ]

-- What a transaction does: it fails, and can be retried or not, or is committed.
pub data TxOutcome : Type 0 where
  tx_failed : (can_retry : Bool) → TxOutcome
  committed : Store → TxOutcome

-- `retryTransactionUntilDone`: the attempts that are left, the number of the attempt, and what an
-- attempt does. Without a commit the store is as it was.
unfoldable pub retry_transaction_until_done : ℕ → ℕ → (ℕ → TxOutcome) → Store → Store
retry_transaction_until_done zero attempt fn store = store
retry_transaction_until_done (suc left) attempt fn store =
    let rest = retry_transaction_until_done left (attempt + 1) fn store in
    elim (fn attempt) [
      | tx_failed can_retry ↦ if can_retry then rest else store
      | committed store' ↦ store'
    ]

abbrev pub work_item_update_retry_attempts : ℕ
work_item_update_retry_attempts = 60

-- The failures of the database itself: an attempt fails, and can be retried or not.
abbrev pub Faults : Type 0
Faults = ℕ → Option Bool

unfoldable pub with_faults : Faults → TxOutcome → ℕ → TxOutcome
with_faults faults outcome attempt = elim (faults attempt) [
  | some can_retry ↦ tx_failed can_retry
  | none ↦ outcome
]

-- A missing row is not retried. The rows are valid, as their updates leave alone what is validated.
unfoldable pub outcome_of : Option Store → TxOutcome
outcome_of (some store) = committed store
outcome_of none = tx_failed false

-- `updateWorkItem`
unfoldable pub update_work_item : Faults → WorkItemRecords → Store → Store
unfolding with_faults outcome_of
update_work_item faults r store =
    retry_transaction_until_done work_item_update_retry_attempts 1
      (with_faults faults (outcome_of (update_both r store))) store

-- The transaction of `deleteWorkItemAndUpdateOrDeleteState`: a state that no other item has is
-- deleted with the item.
unfoldable pub delete_item : WorkItemRecords → Store → Store
delete_item r store = record store { items = select (λ i. not (i.id == r.item.id)) store.items }

unfoldable pub delete_and_update : WorkItemRecords → Store → Option Store
unfolding delete_item
delete_and_update r store =
    if is_null (find_row state_key r.state.id store.states)
    then none
    else if count_work_items r.state.id (delete_item r store) == 0
    then some (record (delete_item r store) {
      states = select (λ s. not (s.id == r.state.id)) store.states;
    })
    else update_state_row r.state (delete_item r store)

unfoldable pub delete_work_item_and_update_or_delete_state :
    Faults → WorkItemRecords → Store → Store
unfolding with_faults outcome_of
delete_work_item_and_update_or_delete_state faults r store =
    retry_transaction_until_done work_item_update_retry_attempts 1
      (with_faults faults (outcome_of (delete_and_update r store))) store

-- The state, ready for the next item that has it.
unfoldable pub reset_state : WorkItemState → WorkItemState
reset_state s = record s {
  attempts_so_far = 0;
  not_before = none;
  allocated_at = none;
  allocated_to = none;
  allocated_until = none;
}

-- The end of `workItemFailedPermanently` and `workItemDone`.
unfoldable pub finish_item : Faults → ItemStatus → ℕ → WorkItemRecords → Bool → Store → Store
unfolding update_work_item delete_work_item_and_update_or_delete_state
finish_item faults status now r true store =
    update_work_item faults
      (record {
        item = record r.item { status = status; completed_at = some now };
        state = reset_state r.state;
      })
      store
finish_item faults status now r false store =
    delete_work_item_and_update_or_delete_state faults
      (record { item = r.item; state = reset_state r.state }) store

-- The records of an item that waits for its next attempt.
unfoldable pub awaiting : Text → ℕ → WorkItemRecords → WorkItemRecords
awaiting e not_before r = record {
  item = record r.item { status = awaiting_retry e };
  state = record r.state {
    allocated_to = none;
    allocated_until = none;
    not_before = some not_before;
  };
}

-- `workItemFailed`
unfoldable pub work_item_failed :
    Faults → Text → ℕ → WorkItemRecords → HandlerRegistration → Store → Store
work_item_failed faults e now r h store = elim (h.backoff_algorithm r.state.attempts_so_far now) [
  | none ↦
      finish_item faults (gave_up_after r.state.attempts_so_far e) now r h.keep_failed_work_items
        store
  | some not_before ↦ update_work_item faults (awaiting e not_before r) store
]

-- `processWorkItem`, at the time when the handler returns.
unfoldable pub after_handler :
    Faults → ℕ → WorkItemRecords → HandlerRegistration → HandlerResult → Store → Store
after_handler faults now r h handled store =
    finish_item faults done now r h.keep_successful_work_items store
after_handler faults now r h (handler_failed true e) store = work_item_failed faults e now r h store
after_handler faults now r h (handler_failed false e) store =
    finish_item faults (failed_permanently e) now r h.keep_failed_work_items store

unfoldable pub process_work_item :
    Faults → ℕ → List HandlerRegistration → WorkItemRecords → Store → Store
process_work_item faults now rs r store = elim (get_handler r.item.type rs) [
  | none ↦ store
  | some h ↦ after_handler faults now r h (h.handler r.item) store
]

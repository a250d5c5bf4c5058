-- ===== src/WorkQueue/Tests.antt =====
-- The theorems about the work queue at concrete inputs.
use buildbeaver.Base.{
  ℕ, zero, suc, ◌+◌, ◌≤◌, ◌<◌, ◌≡◌, refl, ◌≢◌, true, false, none, some, [], ◌∷◌, arith,
}
use buildbeaver.Models.{codes, text_eq, is_empty}
use buildbeaver.Queue.{find_row, put_row, select, first, earlier, earliest}
use buildbeaver.WorkQueue.{
  doubling_count, exponential_interval, exponential_backoff, no_retry, new, WorkItem, WorkItemState,
  WorkItemRecords, work_item_valid, Store, is_before, is_null, state_available, item_waiting,
  item_available, join, find_queued_work_item, find_or_create_state, new_work_item_state, handled,
  HandlerRegistration, get_handler, list_all_registered_types, minute, add_work_item,
  allocation_ttl_from_timeout, update_item_row, update_state_row, update_both, allocated,
  allocate_found, allocate_work_item, TxOutcome, tx_failed, committed, retry_transaction_until_done,
  Faults, process_work_item,
}
use buildbeaver.WorkQueue.Allocation.{waits_under, first_of_its_key, allocation_excludes}
use buildbeaver.WorkQueue.Links.{has_state, linked}
use buildbeaver.WorkQueue.Integrity.{process_work_item-linked}
use buildbeaver.WorkQueue.Retries.{exponential_backoff-bounds, retry-commits}

abbrev item : ℕ → ℕ → ℕ → WorkItem
item id created_at state = record {
  id = id;
  created_at = created_at;
  concurrency_key = codes "repo";
  state_id = state;
  type = codes "sync";
  data_text = [];
  status = new;
  completed_at = none;
}

abbrev free : WorkItemState
free = new_work_item_state 1 7

abbrev two_items : Store
two_items = record { items = item 1 20 7 ∷ item 2 10 7 ∷ []; states = free ∷ [] }

abbrev sync : HandlerRegistration
sync = record {
  type = codes "sync";
  handler = λ i. handled;
  timeout = 5;
  backoff_algorithm = no_retry;
  keep_failed_work_items = false;
  keep_successful_work_items = false;
}

first_of_its_key_example : (10 ≤ 20) × ((10 ≤ 10) × Unit {0})
unfolding find_queued_work_item item_available item_waiting state_available is_null find_row select
    earliest earlier text_eq join new_work_item_state waits_under
first_of_its_key_example =
    first_of_its_key 30 (codes "sync" ∷ []) two_items
      {r = record { item = item 2 10 7; state = free }} refl

-- Another item, of another concurrency key.
abbrev unrelated : WorkItemState
unrelated = new_work_item_state 1 8

abbrev three_items : Store
three_items = record {
  items = item 1 20 7 ∷ item 2 10 7 ∷ item 3 30 8 ∷ [];
  states = free ∷ unrelated ∷ [];
}

abbrev sync_allocated : WorkItemRecords
sync_allocated = allocated 3 35 minute (record { item = item 2 10 7; state = free })

abbrev after_allocation : Store
after_allocation = record {
  items = item 1 20 7 ∷ sync_allocated.item ∷ item 3 30 8 ∷ [];
  states = sync_allocated.state ∷ unrelated ∷ [];
}

abbrev next_found : WorkItemRecords
next_found = record { item = item 3 30 8; state = unrelated }

finds_next : find_queued_work_item 36 (codes "sync" ∷ []) after_allocation ≡ some next_found
unfolding find_queued_work_item item_available item_waiting state_available is_null is_before
    find_row select earliest earlier text_eq join new_work_item_state allocated
finds_next = refl

allocates :
    allocate_work_item (sync ∷ []) 3 34 35 three_items ≡ some (sync_allocated, after_allocation)
unfolding allocate_work_item allocate_found allocation_ttl_from_timeout get_handler first
    list_all_registered_types update_both update_item_row update_state_row put_row
    find_queued_work_item item_available item_waiting state_available is_null is_before find_row
    select earliest earlier text_eq join new_work_item_state allocated
allocates = refl

allocation_excludes_example : next_found.item.state_id ≢ sync_allocated.item.state_id
unfolding allocated
allocation_excludes_example =
    allocation_excludes (sync ∷ []) 3 34 35 36 (codes "sync" ∷ []) three_items after_allocation
      allocates refl (omega arith) finds_next

exponential_backoff-bounds_example : (3 < 10) × (100 + 1 ≤ 104) × (104 ≤ 100 + 60)
unfolding exponential_backoff exponential_interval doubling_count
exponential_backoff-bounds_example = exponential_backoff-bounds 10 1 60 2 100 (omega arith) refl

-- The second attempt commits.
abbrev second_commits : ℕ → TxOutcome
second_commits (suc zero) = tx_failed true
second_commits _ = committed three_items

no_more : {i : ℕ} → suc i < 1 → ⊥
no_more l = omega arith

retry-commits_example : retry_transaction_until_done 60 1 second_commits two_items ≡ three_items
retry-commits_example =
    retry-commits 1 60 1 second_commits two_items three_items (omega arith) first_fails refl
  where
    first_fails : (i : ℕ) → i < 1 → second_commits (1 + i) ≡ tx_failed true
    first_fails zero l = refl
    first_fails (suc i) l = elim (no_more l) [ ]

-- The first attempt to delete the item fails.
abbrev first_fault : Faults
first_fault (suc zero) = some true
first_fault _ = none

process_work_item-linked_example :
    linked (process_work_item first_fault 40 (sync ∷ []) sync_allocated after_allocation) ≡ true
unfolding linked has_state find_row is_null allocated new_work_item_state
process_work_item-linked_example =
    process_work_item-linked first_fault 40 (sync ∷ []) sync_allocated after_allocation refl refl

abbrev added : Store
added = record { items = item 4 40 9 ∷ []; states = new_work_item_state 40 9 ∷ [] }

adds : add_work_item 40 9 (item 4 40 0) (record { items = []; states = [] }) ≡ some added
unfolding add_work_item find_or_create_state find_row is_null work_item_valid is_empty
    new_work_item_state
adds = refl

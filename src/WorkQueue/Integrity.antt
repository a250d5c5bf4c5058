-- ===== src/WorkQueue/Integrity.antt =====
-- The references of work items to their states, through the operations of the work queue.
use buildbeaver.Base.{
  if◌then◌else◌, OnSome, OnSome-some, ℕ, zero, suc, ◌+◌, ◌≡◌, refl, ap, ◌∙◌, Bool, true, false,
  Option, none, some, List, [], ◌∷◌, ◌++◌, arith,
}
use buildbeaver.WorkQueue.{
  ItemStatus, done, gave_up_after, WorkItem, WorkItemState, WorkItemRecords, Store,
  find_or_create_state, new_work_item_state, HandlerResult, handled, handler_failed,
  HandlerRegistration, get_handler, add_work_item, update_both, TxOutcome, tx_failed, committed,
  retry_transaction_until_done, work_item_update_retry_attempts, Faults, with_faults, outcome_of,
  update_work_item, delete_and_update, delete_work_item_and_update_or_delete_state, reset_state,
  finish_item, awaiting, work_item_failed, after_handler, process_work_item,
}
pub mod Rows
use buildbeaver.WorkQueue.Integrity.Rows.{
  update_both-linked, delete_and_update-linked, HasFound, find_or_create_state-HasFound,
}
use buildbeaver.WorkQueue.Links.{linked, links, links_mono, links-append}

retry-invariant :
    (P : Store → Type 0) (left attempt : ℕ) (fn : ℕ → TxOutcome) (store : Store)
    → P store
    → ((n : ℕ) (s : Store) → fn n ≡ committed s → P s)
    → P (retry_transaction_until_done left attempt fn store)
unfolding retry_transaction_until_done
retry-invariant P zero attempt fn store p f = p
retry-invariant P (suc left) attempt fn store p f =
    at_outcome (fn attempt) refl (retry-invariant P left (attempt + 1) fn store p f)
  where
    at_outcome :
        (o : TxOutcome)
        → fn attempt ≡ o
        → P (retry_transaction_until_done left (attempt + 1) fn store)
        → P (elim o as (λ _. Store) [
          | tx_failed can_retry ↦
              if can_retry then retry_transaction_until_done left (attempt + 1) fn store else store
          | committed store' ↦ store'
        ])
    at_outcome (tx_failed true) e q = q
    at_outcome (tx_failed false) e q = p
    at_outcome (committed s) e q = f attempt s e

-- If every item refers to a state, it still does once an item was added.
pub add_work_item-linked :
    (now state_id : ℕ) (item : WorkItem) (store : Store) {store' : Store}
    → add_work_item now state_id item store ≡ some store'
    → linked store ≡ true
    → linked store' ≡ true
unfolding add_work_item linked
add_work_item-linked now state_id item store {store'} h l =
    OnSome-some (λ s. linked s ≡ true) h
      (at_guard _ (find_or_create_state (new_work_item_state now state_id) store)
        (find_or_create_state-HasFound _ store))
  where
    at_guard :
        (b : Bool) (p : WorkItemState × Store)
        → HasFound store p
        → OnSome
            (if b
              then some
                  (record p.1 { items = p.1.items ++ (record item { state_id = p.0.id } ∷ []) })
              else none)
            λ s. linked s ≡ true
    at_guard true p f =
        links-append p.1.states p.1.items (record item { state_id = p.0.id }) f.0
          (ap (links p.1.states) f.1 ∙ links_mono store.states p.1.states store.items f.2 l)
    at_guard false p f = tt

attempted-linked :
    (faults : Faults) (o : Option Store)
    → (OnSome o λ s. linked s ≡ true)
    → (n : ℕ) (s : Store) → with_faults faults (outcome_of o) n ≡ committed s
    → linked s ≡ true
unfolding with_faults outcome_of
attempted-linked faults none h n s e = ground (arith, e)
attempted-linked faults (some store) h n s e = ground (arith, h, e)

update_work_item-linked :
    (faults : Faults) (r : WorkItemRecords) (store : Store)
    → r.item.state_id ≡ r.state.id
    → linked store ≡ true
    → linked (update_work_item faults r store) ≡ true
unfolding update_work_item
update_work_item-linked faults r store e l =
    retry-invariant (λ s. linked s ≡ true) work_item_update_retry_attempts 1 _ store l
      (attempted-linked faults (update_both r store) (update_both-linked r store e l))

delete_work_item-linked :
    (faults : Faults) (r : WorkItemRecords) (store : Store)
    → linked store ≡ true
    → linked (delete_work_item_and_update_or_delete_state faults r store) ≡ true
unfolding delete_work_item_and_update_or_delete_state
delete_work_item-linked faults r store l =
    retry-invariant (λ s. linked s ≡ true) work_item_update_retry_attempts 1 _ store l
      (attempted-linked faults (delete_and_update r store) (delete_and_update-linked r store l))

finish_item-linked :
    (faults : Faults) (status : ItemStatus) (now : ℕ) (r : WorkItemRecords) (keep : Bool)
    (store : Store)
    → r.item.state_id ≡ r.state.id
    → linked store ≡ true
    → linked (finish_item faults status now r keep store) ≡ true
unfolding finish_item reset_state
finish_item-linked faults status now r true store e l = update_work_item-linked faults _ store e l
finish_item-linked faults status now r false store e l = delete_work_item-linked faults _ store l

after_handler-linked :
    (faults : Faults) (now : ℕ) (r : WorkItemRecords) (h : HandlerRegistration)
    (result : HandlerResult) (store : Store)
    → r.item.state_id ≡ r.state.id
    → linked store ≡ true
    → linked (after_handler faults now r h result store) ≡ true
unfolding after_handler work_item_failed awaiting
after_handler-linked faults now r h handled store e l =
    finish_item-linked faults done now r _ store e l
after_handler-linked faults now r h (handler_failed true t) store e l =
    at_backoff (h.backoff_algorithm r.state.attempts_so_far now)
  where
    at_backoff :
        (o : Option ℕ)
        → linked (elim o as (λ _. Store) [
          | none ↦
              finish_item faults
                (gave_up_after r.state.attempts_so_far t)
                now
                r
                h.keep_failed_work_items
                store
          | some not_before ↦ update_work_item faults (awaiting t not_before r) store
        ])
          ≡ true
    at_backoff none = finish_item-linked faults _ now r _ store e l
    at_backoff (some n) = update_work_item-linked faults _ store e l
after_handler-linked faults now r h (handler_failed false t) store e l =
    finish_item-linked faults _ now r _ store e l

-- If every item refers to a state, it still does once an item was processed with the state that it
-- refers to, whatever its handler returns and however the database fails: a state is deleted only
-- with the last item that has it.
pub process_work_item-linked :
    (faults : Faults) (now : ℕ) (rs : List HandlerRegistration) (r : WorkItemRecords)
    (store : Store)
    → r.item.state_id ≡ r.state.id
    → linked store ≡ true
    → linked (process_work_item faults now rs r store) ≡ true
unfolding process_work_item
process_work_item-linked faults now rs r store e l = at_handler (get_handler r.item.type rs)
  where
    at_handler :
        (o : Option HandlerRegistration)
        → linked (elim o as (λ _. Store) [
          | none ↦ store
          | some h ↦ after_handler faults now r h (h.handler r.item) store
        ])
          ≡ true
    at_handler none = l
    at_handler (some h) = after_handler-linked faults now r h (h.handler r.item) store e l

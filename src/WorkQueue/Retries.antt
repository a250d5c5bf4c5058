-- ===== src/WorkQueue/Retries.antt =====
-- When a work item is tried again, and how often its update is.
use buildbeaver.Base.{
  ℕ, zero, suc, ◌+◌, ◌*◌, ◌^◌, ◌≤◌, ◌<◌, ◌≡◌, refl, sym, ap, ◌∙◌, ◌⊎◌, inl, inr, true, some, arith,
}
use buildbeaver.WorkQueue.{
  doubling_count, exponential_interval, exponential_backoff, Store, TxOutcome, tx_failed, committed,
  retry_transaction_until_done,
}

mul_pow_step : (x n : ℕ) → x * 2 ^ suc n ≡ 2 * (x * 2 ^ n)
mul_pow_step x n = grind arith

mul_pow_ge : (x n : ℕ) → x ≤ x * 2 ^ n
mul_pow_ge x zero = omega arith
mul_pow_ge x (suc n) = omega (arith, mul_pow_step x n, mul_pow_ge x n)

-- If the initial interval is at most the maximal one, and a retry is allowed after some attempts, at
-- least one, then the attempts are fewer than the maximal number, and the wait from the last attempt
-- is at least the initial and at most the maximal interval.
pub exponential_backoff-bounds :
    (max_attempts initial max n last : ℕ) {t : ℕ}
    → initial ≤ max
    → exponential_backoff max_attempts initial max (suc n) last ≡ some t
    → (suc n < max_attempts) × (last + initial ≤ t) × (t ≤ last + max)
unfolding exponential_backoff exponential_interval
exponential_backoff-bounds max_attempts initial max n last h e =
    ground (arith, mul_pow_ge initial (doubling_count (suc n)))

doubling_count-step :
    (n : ℕ)
    → (doubling_count (suc (suc n)) ≡ doubling_count (suc n))
      ⊎ (doubling_count (suc (suc n)) ≡ suc (doubling_count (suc n)))
unfolding doubling_count
doubling_count-step n = ground arith

-- The waits do not get shorter from one attempt to the next.
pub exponential_interval_mono :
    (initial max n : ℕ)
    → exponential_interval (suc n) initial max ≤ exponential_interval (suc (suc n)) initial max
unfolding exponential_interval
exponential_interval_mono initial max n = elim (doubling_count-step n) [
  | inl e ↦ rw e (omega arith)
  | inr e ↦ rw e (ground (arith, mul_pow_step initial (doubling_count (suc n))))
]

at_attempt : (fn : ℕ → TxOutcome) (a b : ℕ) {o : TxOutcome} → a ≡ b → fn a ≡ o → fn b ≡ o
at_attempt fn a b e h = ap fn (sym e) ∙ h

none_left : {k : ℕ} → k < 0 → ⊥
none_left l = omega arith

-- If attempts fail in a way that can be retried, and the next one, which is still allowed, commits,
-- then what it commits is the result.
pub retry-commits :
    (k left attempt : ℕ) (fn : ℕ → TxOutcome) (store store' : Store)
    → k < left
    → ((i : ℕ) → i < k → fn (attempt + i) ≡ tx_failed true)
    → fn (attempt + k) ≡ committed store'
    → retry_transaction_until_done left attempt fn store ≡ store'
unfolding retry_transaction_until_done
retry-commits k zero attempt fn store store' l f c = elim (none_left l) [ ]
retry-commits zero (suc left) attempt fn store store' l f c =
    rw (retry_transaction_until_done, at_attempt fn (attempt + 0) attempt (omega arith) c) refl
retry-commits (suc k) (suc left) attempt fn store store' l f c =
    rw
      (
        retry_transaction_until_done,
        at_attempt fn (attempt + 0) attempt (omega arith) (f 0 (omega arith)),
      )
      (retry-commits k left (attempt + 1) fn store store' (omega arith)
        (λ i g.
          at_attempt fn (attempt + suc i) (attempt + 1 + i) (omega arith) (f (suc i) (omega arith)))
        (at_attempt fn (attempt + suc k) (attempt + 1 + k) (omega arith) c))

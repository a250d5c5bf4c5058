-- ===== src/Queue/Enqueue/Compatible.antt =====
-- The test for a compatible runner against the query by which a runner finds its jobs.
use buildbeaver.Base.{
  ◌==◌, if◌then◌else◌, Bool-cases, length, any, all, ◌+◌, ◌≤◌, ◌≡◌, refl, sym, ap, ◌∙◌, inl, inr,
  Bool, not, true, none, false, ◌&&◌, List, [], ◌∷◌, arith,
}
use mathlib.Core.List.{Memᴰ}
use mathlib.Core.List.Memᴰ
use buildbeaver.Models.{Text, text_eq, distinct}
use buildbeaver.Graph.{JobGraph}
use buildbeaver.Queue.{select, Runner, Db}
use buildbeaver.Models.Laws.{text_eq_iff}
use buildbeaver.Queue.Selection.{labels_suffice, same_owner, ready_for}
use buildbeaver.Queue.Enqueue.{
  has_labels, is_deleted, runner_compatible_with_job, fail_if_incompatible,
}

abbrev among : List Text → Text → Bool
among ts t = any (text_eq t) ts

among-text_eq : (s t : Text) (ts : List Text) → text_eq s t ≡ true → among ts s ≡ among ts t
among-text_eq s t ts e = ap (among ts) ((text_eq_iff s t).0 e)

text_eq-flip : (s t : Text) → text_eq s t ≡ true → text_eq t s ≡ true
text_eq-flip s t e = (text_eq_iff t s).1 (sym ((text_eq_iff s t).0 e))

-- One more text to look for, in texts that differ from each other, is one more hit if it is there.
select-among_cons :
    (l : Text) (ls rs : List Text)
    → distinct rs ≡ true
    → among ls l ≡ false
    → length (select (among (l ∷ ls)) rs)
      ≡ length (select (among ls) rs) + (if among rs l then 1 else 0)
unfolding distinct select
select-among_cons l ls [] d h = refl
select-among_cons l ls (r ∷ rs) d h = elim (Bool-cases (text_eq r l)) [
  | inl e ↦ ground (
    arith,
    e,
    among-text_eq r l ls e,
    among-text_eq r l rs e,
    text_eq-flip r l e,
    select-among_cons l ls rs,
  )
  | inr e ↦ ground (arith, e, text_eq-flip l r, select-among_cons l ls rs)
]

select-none_among : (rs : List Text) → select (among []) rs ≡ []
unfolding select
select-none_among [] = refl
select-none_among (r ∷ rs) = select-none_among rs

-- Of two lists of different texts, as many of the first are in the second as the other way round.
select-among_comm :
    (ls rs : List Text)
    → distinct ls ≡ true
    → distinct rs ≡ true
    → length (select (among ls) rs) ≡ length (select (among rs) ls)
unfolding distinct select
select-among_comm [] rs d e = rw (select-none_among rs) refl
select-among_comm (l ∷ ls) rs d e =
    ground (arith, select-among_cons l ls rs, select-among_comm ls rs)

length-select_le : (p : Text → Bool) (ts : List Text) → length (select p ts) ≤ length ts
unfolding select
length-select_le p [] = omega arith
length-select_le p (t ∷ ts) = ground (arith, length-select_le p ts)

length-select-all :
    (p : Text → Bool) (ts : List Text) → (length (select p ts) == length ts) ≡ all p ts
unfolding select
length-select-all p [] = refl
length-select-all p (t ∷ ts) = ground (arith, length-select_le p ts, length-select-all p ts)

-- Of different labels, the test for a compatible runner accepts a runner's exactly when the query for
-- the next job does.
has_labels-labels_suffice :
    (ls rs : List Text)
    → distinct ls ≡ true
    → distinct rs ≡ true
    → has_labels ls rs ≡ labels_suffice ls rs
unfolding has_labels labels_suffice select
has_labels-labels_suffice [] rs d e = refl
has_labels-labels_suffice (l ∷ ls) [] d e = ground arith
has_labels-labels_suffice (l ∷ ls) (r ∷ rs) d e =
    ap (λ n. n == length (l ∷ ls)) (select-among_comm (l ∷ ls) (r ∷ rs) d e)
    ∙ length-select-all (among (r ∷ rs)) (l ∷ ls)

any-Memᴰ {ℓ} :
    {A : Type ℓ} (p : A → Bool) (x : A) (xs : List A) → Memᴰ x xs → p x ≡ true → any p xs ≡ true
any-Memᴰ p x [] m h = absurd (Memᴰ.not-nil m)
any-Memᴰ p x (y ∷ ys) m h = elim (Memᴰ.cases_cons m) [
  | inl e ↦ ground (arith, ap p e, h)
  | inr n ↦ ground (arith, any-Memᴰ p x ys n h)
]

-- A job that is ready for some runner that is not deleted is not failed for want of a compatible
-- runner, if the job names no label twice and the labels of the runner differ.
pub ready_for-fail_if_incompatible :
    (db : Db) (runner : Runner) (g : JobGraph)
    → Memᴰ runner db.runners
    → runner.deleted_at ≡ none
    → ready_for db runner g.job ≡ true
    → distinct g.job.runs_on ≡ true
    → distinct runner.labels ≡ true
    → fail_if_incompatible db g ≡ g
unfolding ready_for fail_if_incompatible runner_compatible_with_job
ready_for-fail_if_incompatible db runner g m u h d e = ground (
  arith,
  h,
  any-Memᴰ (λ r. same_owner db r g.job && not (is_deleted r) && has_labels g.job.runs_on r.labels)
      runner db.runners m
      (ground (arith, u, h, has_labels-labels_suffice g.job.runs_on runner.labels d e)),
)

-- ===== src/Runner/Fingerprints/Order.antt =====
-- The order in which the server lists the jobs that a job depends on.
use buildbeaver.Base.{any, ◌≡◌, refl, sym, ap, subst, ◌∙◌, true, false, List, [], ◌∷◌, map, arith}
use buildbeaver.Models.{Text, codes, text_eq, distinct}
use mathlib.Core.List.{Permᴰ}
use buildbeaver.Runner.Fingerprints.{
  new_hasher, write, write_all, DependencyJob, text_lt, insert, sort, prepare, finalize,
  append_jobs, job_fingerprint,
}
use buildbeaver.Models.Laws.{text_eq_iff}

text_lt_trans : (a b c : Text) → text_lt a b ≡ true → text_lt b c ≡ true → text_lt a c ≡ true
unfolding text_lt
text_lt_trans a b [] h k = ground arith
text_lt_trans a [] (z ∷ c) h k = ground arith
text_lt_trans [] (y ∷ b) (z ∷ c) h k = refl
text_lt_trans (x ∷ a) (y ∷ b) (z ∷ c) h k = ground (arith, text_lt_trans a b c)

text_lt_asym : (a b : Text) → text_lt a b ≡ true → text_lt b a ≡ false
unfolding text_lt
text_lt_asym a [] h = ground arith
text_lt_asym [] (y ∷ b) h = refl
text_lt_asym (x ∷ a) (y ∷ b) h = ground (arith, text_lt_asym a b)

text_lt_total : (a b : Text) → text_lt a b ≡ false → text_lt b a ≡ false → text_eq a b ≡ true
unfolding text_lt text_eq
text_lt_total [] [] h k = refl
text_lt_total [] (y ∷ b) h k = cc
text_lt_total (x ∷ a) [] h k = cc
text_lt_total (x ∷ a) (y ∷ b) h k = ground (arith, text_lt_total a b)

-- Jobs of different names can be inserted in either order.
insert-insert :
    (x y : DependencyJob) (js : List DependencyJob)
    → text_eq x.name y.name ≡ false
    → insert x (insert y js) ≡ insert y (insert x js)
unfolding insert
insert-insert x y [] d =
    ground
      (arith, text_lt_asym x.name y.name, text_lt_asym y.name x.name, text_lt_total x.name y.name)
insert-insert x y (j ∷ js) d = ground (
  arith,
  text_lt_asym x.name y.name,
  text_lt_asym y.name x.name,
  text_lt_total x.name y.name,
  text_lt_trans j.name x.name y.name,
  text_lt_trans j.name y.name x.name,
  insert-insert x y js d,
)

abbrev names : List DependencyJob → List Text
names = map λ (j : DependencyJob). j.name

named-Permᴰ :
    (n : Text) {xs ys : List DependencyJob}
    → Permᴰ xs ys
    → any (text_eq n) (names xs) ≡ any (text_eq n) (names ys)
named-Permᴰ n Permᴰ.nil = refl
named-Permᴰ n (Permᴰ.cons e p) =
    ground (arith, ap (λ (j : DependencyJob). j.name) e, named-Permᴰ n p)
named-Permᴰ n (Permᴰ.swap e f) =
    ground (arith, ap (λ (j : DependencyJob). j.name) e, ap (λ (j : DependencyJob). j.name) f)
named-Permᴰ n (Permᴰ.trans p q) = named-Permᴰ n p ∙ named-Permᴰ n q

text_eq-sym : (s t : Text) → text_eq s t ≡ true → text_eq t s ≡ true
text_eq-sym s t h = (text_eq_iff t s).1 (sym ((text_eq_iff s t).0 h))

distinct-swap :
    (a b : Text) (ts : List Text) → distinct (a ∷ b ∷ ts) ≡ true → distinct (b ∷ a ∷ ts) ≡ true
unfolding distinct
distinct-swap a b ts h = ground (arith, h, text_eq-sym b a)

distinct-Permᴰ :
    {xs ys : List DependencyJob}
    → Permᴰ xs ys
    → distinct (names xs) ≡ true
    → distinct (names ys) ≡ true
unfolding distinct
distinct-Permᴰ Permᴰ.nil h = h
distinct-Permᴰ (Permᴰ.cons {a} {b} e p) h =
    ground (arith, ap (λ (j : DependencyJob). j.name) e, named-Permᴰ a.name p, distinct-Permᴰ p)
distinct-Permᴰ (Permᴰ.swap {a} {b} {a'} {b'} {l} e f) h =
    subst (λ (j : DependencyJob). distinct (a'.name ∷ j.name ∷ names l) ≡ true) e
      (subst (λ (j : DependencyJob). distinct (j.name ∷ a.name ∷ names l) ≡ true) f
        (distinct-swap a.name b.name (names l) h))
distinct-Permᴰ (Permᴰ.trans p q) h = distinct-Permᴰ q (distinct-Permᴰ p h)

sort-Permᴰ :
    {xs ys : List DependencyJob} → Permᴰ xs ys → distinct (names xs) ≡ true → sort xs ≡ sort ys
unfolding sort distinct
sort-Permᴰ Permᴰ.nil h = refl
sort-Permᴰ (Permᴰ.cons {a} {b} {l₁} {l₂} e p) h =
    ap (λ j. insert j (sort l₁)) e ∙ ap (insert b) (sort-Permᴰ p (ground (arith, h)))
sort-Permᴰ (Permᴰ.swap {a} {b} {a'} {b'} {l} e f) h =
    insert-insert a b (sort l) (ground (arith, h))
    ∙ ap (λ j. insert j (insert a (sort l))) f
    ∙ ap (λ j. insert a' (insert j (sort l))) e
sort-Permᴰ (Permᴰ.trans p q) h = sort-Permᴰ p h ∙ sort-Permᴰ q (distinct-Permᴰ p h)

-- The fingerprint of a job does not depend on the order in which the server lists the jobs that it
-- depends on, if no two of these have the same name.
pub job_fingerprint-Permᴰ :
    (digest : Text → Text) (definition : Text) (out : List Text) {xs ys : List DependencyJob}
    → Permᴰ xs ys
    → distinct (names xs) ≡ true
    → job_fingerprint digest definition xs out ≡ job_fingerprint digest definition ys out
unfolding job_fingerprint
job_fingerprint-Permᴰ digest definition out p h =
    ap
      (λ js. finalize digest (
        write_all out (
          prepare digest (codes "Command(s) stdout") (
            append_jobs digest js
              (write definition (prepare digest (codes "Job configuration") new_hasher))))))
      (sort-Permᴰ p h)

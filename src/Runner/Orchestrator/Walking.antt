-- ===== src/Runner/Orchestrator/Walking.antt =====
-- The order of the steps of a job.
use buildbeaver.Base.{
  Bool-cases, some-inj, All, All-map, ◌≡◌, refl, sym, ap, subst, ◌∙◌, ◌≢◌, inl, inr, false, Option,
  none, some, List, [], ◌∷◌, arith,
}
use buildbeaver.Models.{Text, text_eq, running, succeeded, ETag, ErrorInfo}
use buildbeaver.Models.Laws.{text_eq_iff, text_eq_refl, status_eq_iff}
use buildbeaver.Runner.Orchestrator.{
  StepDoc, error_valid, Phase, waiting, returned, started, ran, WalkState, put, updated, start_step,
  passes, check_dependency, check_dependencies, Outcome, execute_step, step_error, run_step,
  status_of_error, finish_step, Returned, WalkStep, starts, runs, finishes, Walked, begin, next,
}

-- The step of this name was attempted and succeeded.
unfoldable pub Succeeded : (Text → Option StepDoc) → Text → Type 0
Succeeded attempted n =
    (e : StepDoc) × (attempted n ≡ some e) × (e.status ≡ succeeded) × (error_valid e.error ≡ false)

check_dependency-Succeeded :
    (attempted : Text → Option StepDoc) (n : Text)
    → check_dependency (attempted n) ≡ passes
    → Succeeded attempted n
unfolding Succeeded
check_dependency-Succeeded attempted n h = at_step (attempted n) refl h
  where
    at_step :
        (o : Option StepDoc)
        → attempted n ≡ o
        → check_dependency o ≡ passes
        → (e : StepDoc) × (attempted n ≡ some e)
          × (e.status ≡ succeeded)
          × (error_valid e.error ≡ false)
    at_step none e h = unfold check_dependency in cc
    at_step (some d) e h =
        unfold check_dependency in
        (d, e, ground (arith, h, status_eq_iff d.status succeeded), ground (arith, h))

check_dependencies-Succeeded :
    (attempted : Text → Option StepDoc) (ds : List Text)
    → check_dependencies attempted ds ≡ passes
    → All (Succeeded attempted) ds
unfolding check_dependencies
check_dependencies-Succeeded attempted [] h = tt
check_dependencies-Succeeded attempted (d ∷ ds) h = (
  check_dependency-Succeeded attempted d (ground (arith, h)),
  check_dependencies-Succeeded attempted ds (ground (arith, h)),
)

put-own {ℓ} : {A : Type ℓ} (n : Text) (a : A) (f : Text → A) → put n a f n ≡ a
unfolding put
put-own n a f = rw (text_eq_refl n) refl

put-ne {ℓ} :
    {A : Type ℓ} (n m : Text) (a : A) (f : Text → A) → text_eq m n ≡ false → put n a f m ≡ f m
unfolding put
put-ne n m a f h = rw h refl

-- A step that succeeded has returned, with dependencies that succeeded; so have the dependencies of a
-- step that was executed without an error.
record Sound (st : WalkState) : Type 0 where
  attempted_sound :
      (n : Text) (e : StepDoc)
      → st.attempted n ≡ some e
      → e.status ≡ succeeded
      → Returned st n × All (Succeeded st.attempted) e.depends
  ran_sound :
      (n : Text) (doc : StepDoc)
      → st.phase n ≡ ran doc
      → (doc.name ≡ n) × (doc.error ≡ none → All (Succeeded st.attempted) doc.depends)
  started_sound : (n : Text) (doc : StepDoc) → st.phase n ≡ started doc → doc.name ≡ n

-- The rest of the state when something changes for one step that has not returned.
module _ (st : WalkState) (sound : Sound st) (n : Text) (busy : st.phase n ≢ returned)
    (attempted : Text → Option StepDoc)
    (same : (m : Text) → text_eq m n ≡ false → attempted m ≡ st.attempted m) where
  Succeeded-kept : (d : Text) → Succeeded st.attempted d → Succeeded attempted d
  unfolding Succeeded Returned
  Succeeded-kept d (e, h, s, v) = elim (Bool-cases (text_eq d n)) [
    | inl t ↦
        absurd
          (busy (ap st.phase (sym ((text_eq_iff d n).0 t)) ∙ (sound.attempted_sound d e h s).0))
    | inr f ↦ (e, same d f ∙ h, s, v)
  ]

  All-kept : (ds : List Text) → All (Succeeded st.attempted) ds → All (Succeeded attempted) ds
  All-kept ds h = All-map ds h Succeeded-kept

  Sound-put :
      (p : Phase)
      → ((e : StepDoc)
          → attempted n ≡ some e
          → e.status ≡ succeeded
          → (p ≡ returned) × All (Succeeded attempted) e.depends)
      → ((doc : StepDoc)
          → p ≡ ran doc
          → (doc.name ≡ n) × (doc.error ≡ none → All (Succeeded attempted) doc.depends))
      → ((doc : StepDoc) → p ≡ started doc → doc.name ≡ n)
      → Sound (record { attempted = attempted; phase = put n p st.phase })
  unfolding Returned
  Sound-put p own own_ran own_started = record {
    attempted_sound = λ m e h s. elim (Bool-cases (text_eq m n)) [
      | inl t ↦
          let i = (text_eq_iff m n).0 t in
          let (q, good) = own e (ap attempted (sym i) ∙ h) s in
          (ap (put n p st.phase) i ∙ put-own n p st.phase ∙ q, good)
      | inr f ↦
          let (q, good) = sound.attempted_sound m e (sym (same m f) ∙ h) s in
          (put-ne n m p st.phase f ∙ q, All-kept e.depends good)
    ];
    ran_sound = λ m doc h. elim (Bool-cases (text_eq m n)) [
      | inl t ↦
          let i = (text_eq_iff m n).0 t in
          let (q, good) =
            own_ran doc (sym (put-own n p st.phase) ∙ ap (put n p st.phase) (sym i) ∙ h) in
          (q ∙ sym i, good)
      | inr f ↦
          let (q, good) = sound.ran_sound m doc (sym (put-ne n m p st.phase f) ∙ h) in
          (q, λ z. All-kept doc.depends (good z))
    ];
    started_sound = λ m doc h. elim (Bool-cases (text_eq m n)) [
      | inl t ↦
          let i = (text_eq_iff m n).0 t in
          own_started doc (sym (put-own n p st.phase) ∙ ap (put n p st.phase) (sym i) ∙ h) ∙ sym i
      | inr f ↦ sound.started_sound m doc (sym (put-ne n m p st.phase f) ∙ h)
    ];
  }

waiting_busy : (p : Phase) → p ≡ waiting → p ≢ returned
waiting_busy p h r = cc

started_busy : (p : Phase) {doc : StepDoc} → p ≡ started doc → p ≢ returned
started_busy p h r = cc

ran_busy : (p : Phase) {doc : StepDoc} → p ≡ ran doc → p ≢ returned
ran_busy p h r = cc

-- The callback ends early: the step is not attempted, or keeps its last document.
Sound-returned :
    (st : WalkState) (n : Text)
    → Sound st
    → st.phase n ≢ returned
    → Sound (record st { phase = put n returned st.phase })
Sound-returned st n sound busy =
    Sound-put st sound n busy st.attempted (λ m f. refl) returned
      (λ e h s. (refl, (sound.attempted_sound n e h s).1)) (λ doc h. cc) (λ doc h. cc)

Sound-start :
    (st : WalkState) (s : StepDoc) (answer : Option ETag)
    → Sound st
    → st.phase s.name ≡ waiting
    → Sound (start_step answer s st)
unfolding start_step updated
Sound-start st s none sound w = Sound-returned st s.name sound (waiting_busy (st.phase s.name) w)
Sound-start st s (some etag) sound w =
    Sound-put st sound s.name (waiting_busy (st.phase s.name) w)
      (put s.name (some doc) st.attempted) (λ m f. put-ne s.name m (some doc) st.attempted f)
      (started doc)
      (λ e h z.
        let i : some doc ≡ some e = sym (put-own s.name (some doc) st.attempted) ∙ h in
        absurd (not_succeeded (ap (λ d. d.status) (some-inj i) ∙ z)))
      (λ d h. cc) λ d h. sym (ap started_name h)
  where
    doc : StepDoc
    doc = record s { status = running; error = none; etag = etag }

    not_succeeded : running ≢ succeeded
    not_succeeded c = cc

    started_name : Phase → Text
    started_name (started d) = d.name
    started_name p = s.name

step_error-passes :
    (before : Option ErrorInfo) (attempted : Text → Option StepDoc) (o : Outcome) (s : StepDoc)
    → step_error before attempted o s ≡ some none
    → check_dependencies attempted s.depends ≡ passes
unfolding step_error execute_step
step_error-passes (some e) attempted o s h = cc
step_error-passes none attempted o s h = ground (arith, h)

Sound-run :
    (st : WalkState) (before : Option ErrorInfo) (doc : StepDoc) (o : Outcome)
    (error : Option ErrorInfo)
    → Sound st
    → st.phase doc.name ≡ started doc
    → step_error before st.attempted o doc ≡ some error
    → Sound (run_step error doc st)
unfolding run_step Returned
Sound-run st before doc o error sound w e =
    Sound-put st sound doc.name (started_busy (st.phase doc.name) w) st.attempted (λ m f. refl)
      (ran (record doc { error = error }))
      (λ d h s.
        absurd (started_busy (st.phase doc.name) w (sound.attempted_sound doc.name d h s).0))
      (λ d h. (
        ap (λ p. (ran_doc p).name) (sym h),
        λ z.
            subst (λ ds. All (Succeeded st.attempted) ds) (ap (λ p. (ran_doc p).depends) h)
              (check_dependencies-Succeeded st.attempted doc.depends (
                step_error-passes before st.attempted o doc
                  (e ∙ ap some (ap (λ p. (ran_doc p).error) h ∙ z)))),
      ))
      λ d h. cc
  where
    ran_doc : Phase → StepDoc
    ran_doc (ran d) = d
    ran_doc p = doc

Sound-finish :
    (st : WalkState) (doc : StepDoc) (answer : Option ETag)
    → Sound st
    → st.phase doc.name ≡ ran doc
    → Sound (finish_step answer doc st)
unfolding finish_step updated
Sound-finish st doc none sound w = Sound-returned st doc.name sound (ran_busy (st.phase doc.name) w)
Sound-finish st doc (some etag) sound w =
    Sound-put st sound doc.name (ran_busy (st.phase doc.name) w)
      (put doc.name (some doc') st.attempted) (λ m f. put-ne doc.name m (some doc') st.attempted f)
      returned
      (λ e h z.
        let i : some doc' ≡ some e = sym (put-own doc.name (some doc') st.attempted) ∙ h in
        let k : doc' ≡ e = some-inj i in
        (
          refl,
          subst (λ (d : StepDoc). All (Succeeded (put doc.name (some doc') st.attempted)) d.depends)
              k
              (All-kept st sound doc.name (ran_busy (st.phase doc.name) w)
                (put doc.name (some doc') st.attempted)
                (λ m f. put-ne doc.name m (some doc') st.attempted f) doc.depends
                ((sound.ran_sound doc.name doc w).1
                  (no_error doc.error (ap (λ d. d.status) k ∙ z)))),
        ))
      (λ d h. cc) λ d h. cc
  where
    doc' : StepDoc
    doc' = record doc { status = status_of_error doc.error; error = doc.error; etag = etag }

    no_error : (e : Option ErrorInfo) → status_of_error e ≡ succeeded → e ≡ none
    no_error none h = refl
    no_error (some e) h = unfold status_of_error in cc

module _ (steps : List StepDoc) (before : Option ErrorInfo) where
  WalkStep-Sound : {st st' : WalkState} → WalkStep steps before st st' → Sound st → Sound st'
  WalkStep-Sound (starts s answer m w r) sound = Sound-start _ s answer sound w
  WalkStep-Sound (runs doc o error w e) sound = Sound-run _ before doc o error sound w e
  WalkStep-Sound (finishes doc answer w) sound = Sound-finish _ doc answer sound w

  Walked-Sound : {st : WalkState} → Walked steps before st → Sound st
  Walked-Sound begin = record {
    attempted_sound = λ n e h s. cc;
    ran_sound = λ n doc h. cc;
    started_sound = λ n doc h. cc;
  }
  Walked-Sound (next w s) = WalkStep-Sound s (Walked-Sound w)

  -- In every state that the walk comes to, a step that succeeded depends only on steps that were
  -- attempted and succeeded without an error, whatever the server and the executor answer, and however
  -- the callbacks of the steps interleave.
  pub Walked-Succeeded :
      {st : WalkState} (n : Text) (e : StepDoc)
      → Walked steps before st
      → st.attempted n ≡ some e
      → e.status ≡ succeeded
      → All (Succeeded st.attempted) e.depends
  Walked-Succeeded n e w h s = ((Walked-Sound w).attempted_sound n e h s).1

-- ===== src/Parser/Sequences.antt =====
-- The steps of a parsed job, and its dependencies.
use buildbeaver.Base.{
  OnSome, length, ℕ, ◌≤◌, ◌<◌, ◌≡◌, refl, ◌∙◌, true, Option, List, [], ◌∷◌, ◌++◌, arith,
}
use buildbeaver.Base.Options.{OnSome->>=, OnSome-any}
use buildbeaver.Models.{Text, codes}
use buildbeaver.Parser.Raw.{Raw, Object, as_text, as_array, as_object, field, if_set}
use buildbeaver.Parser.Fields.{JobEnvVar, parse_environment, parse_step_commands}
use buildbeaver.Parser.Jobs.{
  StepExecution, sequential, parallel, StepData, last_name, step_depends, dependencies_by,
  parse_step_dependencies, parse_step, within_limit, parse_steps, parse_steps_field,
}
use buildbeaver.Parser.Version2.{parse_step_02, parse_steps_02, no_steps, parse_steps_field_02}
use buildbeaver.Parser.Outcomes.{OnSome-require, OnSome-if_set}

-- Each step depends on the one before it, and on nothing else.
pub Chained : List Text → List StepData → Type 0
Chained before [] = Unit
Chained before (s ∷ ss) = (s.depends ≡ before) × Chained (s.name ∷ []) ss

abbrev pub StepsOf : StepExecution → List StepData → Type 0
StepsOf sequential steps = Chained [] steps
StepsOf parallel steps = Unit

abbrev pub Limited : ℕ → List StepData → Type 0
Limited limit steps = 0 < limit → length steps ≤ limit

-- The name of the last step, or what stands before the first.
last_or : List Text → List StepData → List Text
last_or before [] = before
last_or before (s ∷ ss) = last_or (s.name ∷ []) ss

last_name-last_or : (steps : List StepData) → last_name steps ≡ last_or [] steps
unfolding last_or last_name
last_name-last_or [] = refl
last_name-last_or (s ∷ []) = refl
last_name-last_or (s ∷ t ∷ ss) = last_name-last_or (t ∷ ss)

Chained-append :
    (before : List Text) (steps : List StepData) (s : StepData)
    → Chained before steps
    → s.depends ≡ last_or before steps
    → Chained before (steps ++ (s ∷ []))
unfolding Chained last_or
Chained-append before [] s h e = (e, tt)
Chained-append before (t ∷ ts) s h e = (h.0, Chained-append (t.name ∷ []) ts s h.1 e)

dependencies_by-last_name :
    (steps : List StepData) (raws : List Raw)
    → OnSome (dependencies_by sequential steps raws) λ ds. ds ≡ last_name steps
unfolding dependencies_by
dependencies_by-last_name steps [] = refl
dependencies_by-last_name steps (r ∷ rs) = tt

parse_step_dependencies-last_name :
    (steps : List StepData) (raw : Object)
    → OnSome (parse_step_dependencies sequential steps raw) λ ds. ds ≡ last_name steps
unfolding parse_step_dependencies
parse_step_dependencies-last_name steps raw =
    OnSome->>= _ (step_depends raw) _ (OnSome-any _) λ raws _. dependencies_by-last_name steps raws

-- A step that is added to those of a job.
abbrev Added : StepExecution → List StepData → StepData → Type 0
Added sequential steps s = s.depends ≡ last_name steps
Added parallel steps s = Unit

parse_step_dependencies-Added :
    (execution : StepExecution) (steps : List StepData) (raw : Object) (name description : Text)
    (commands : List Text)
    → OnSome (parse_step_dependencies execution steps raw) λ ds.
      Added execution steps
        (record { name = name; description = description; commands = commands; depends = ds })
parse_step_dependencies-Added sequential steps raw name description commands =
    parse_step_dependencies-last_name steps raw
parse_step_dependencies-Added parallel steps raw name description commands = OnSome-any _

parse_step-Added :
    (execution : StepExecution) (steps : List StepData) (raw : Object)
    → OnSome (parse_step execution steps raw) (Added execution steps)
unfolding parse_step
parse_step-Added execution steps raw =
    OnSome->>= _ (if_set (field (codes "name") raw) [] as_text) _ (OnSome-any _) λ name _.
      OnSome->>= _ (if_set (field (codes "description") raw) [] as_text) _ (OnSome-any _)
        λ description _.
          OnSome->>= _ (if_set (field (codes "commands") raw) [] parse_step_commands) _
            (OnSome-any _)
            λ commands _.
              OnSome->>= _ (parse_step_dependencies execution steps raw) _
                (parse_step_dependencies-Added execution steps raw name description commands)
                λ ds h. h

StepsOf-append :
    (execution : StepExecution) (steps : List StepData) (s : StepData)
    → StepsOf execution steps
    → Added execution steps s
    → StepsOf execution (steps ++ (s ∷ []))
StepsOf-append sequential steps s h e = Chained-append [] steps s h (e ∙ last_name-last_or steps)
StepsOf-append parallel steps s h e = tt

Limited-within_limit :
    (limit : ℕ) (steps : List StepData)
    → within_limit limit (length steps) ≡ true
    → Limited limit steps
unfolding within_limit
Limited-within_limit limit steps e h = ground arith

-- What the loop over the steps keeps.
abbrev pub Sequenced : ℕ → StepExecution → List StepData → Type 0
Sequenced limit execution steps = StepsOf execution steps × Limited limit steps

parse_steps-Sequenced :
    (limit : ℕ) (execution : StepExecution) (steps : List StepData) (rs : List Raw)
    → Sequenced limit execution steps
    → OnSome (parse_steps limit execution steps rs) (Sequenced limit execution)
unfolding parse_steps
parse_steps-Sequenced limit execution steps [] h = h
parse_steps-Sequenced limit execution steps (r ∷ rs) h =
    OnSome->>= _ (as_object r) _ (OnSome-any _) λ element _.
      OnSome->>= _ (parse_step execution steps element) _ (parse_step-Added execution steps element)
        λ s a. OnSome-require _ (within_limit limit (length (steps ++ (s ∷ [])))) _ λ e.
          parse_steps-Sequenced limit execution (steps ++ (s ∷ [])) rs
            (StepsOf-append execution steps s h.0 a, Limited-within_limit limit _ e)

none-Sequenced : (limit : ℕ) (execution : StepExecution) → Sequenced limit execution []
unfolding Chained
none-Sequenced limit sequential = (tt, λ h. omega arith)
none-Sequenced limit parallel = (tt, λ h. omega arith)

pub steps_field-Sequenced :
    (limit : ℕ) (execution : StepExecution) (o : Option Raw)
    → OnSome (if_set o [] (parse_steps_field limit execution)) (Sequenced limit execution)
unfolding parse_steps_field
steps_field-Sequenced limit execution o =
    OnSome-if_set _ o [] _ (none-Sequenced limit execution) λ raw.
      OnSome->>= _ (as_array raw) _ (OnSome-any _)
        λ values _. parse_steps-Sequenced limit execution [] values (none-Sequenced limit execution)

-- The same of version 0.2.
parse_step_02-Added :
    (execution : StepExecution) (steps : List StepData) (env : List JobEnvVar) (raw : Object)
    → OnSome (parse_step_02 execution steps env raw) λ p. Added execution steps p.0
unfolding parse_step_02
parse_step_02-Added execution steps env raw =
    OnSome->>= _ (if_set (field (codes "name") raw) [] as_text) _ (OnSome-any _) λ name _.
      OnSome->>= _ (if_set (field (codes "description") raw) [] as_text) _ (OnSome-any _)
        λ description _.
          OnSome->>= _ (if_set (field (codes "commands") raw) [] parse_step_commands) _
            (OnSome-any _)
            λ commands _.
              OnSome->>= _ (parse_step_dependencies execution steps raw) _
                (parse_step_dependencies-Added execution steps raw name description commands)
                λ ds h.
                  OnSome->>= _ (if_set (field (codes "environment") raw) [] parse_environment) _
                    (OnSome-any _) λ vars _. h

parse_steps_02-Sequenced :
    (limit : ℕ) (execution : StepExecution) (steps : List StepData) (env : List JobEnvVar)
    (rs : List Raw)
    → Sequenced limit execution steps
    → OnSome (parse_steps_02 limit execution steps env rs) λ p. Sequenced limit execution p.0
unfolding parse_steps_02
parse_steps_02-Sequenced limit execution steps env [] h = h
parse_steps_02-Sequenced limit execution steps env (r ∷ rs) h =
    OnSome->>= _ (as_object r) _ (OnSome-any _) λ element _.
      OnSome->>= _ (parse_step_02 execution steps env element) _
        (parse_step_02-Added execution steps env element)
        λ p a. OnSome-require _ (within_limit limit (length (steps ++ (p.0 ∷ [])))) _ λ e.
          parse_steps_02-Sequenced limit execution (steps ++ (p.0 ∷ [])) p.1 rs
            (StepsOf-append execution steps p.0 h.0 a, Limited-within_limit limit _ e)

pub steps_field_02-Sequenced :
    (limit : ℕ) (execution : StepExecution) (o : Option Raw)
    → OnSome
        (if_set o no_steps (parse_steps_field_02 limit execution))
        λ p. Sequenced limit execution p.0
unfolding parse_steps_field_02
steps_field_02-Sequenced limit execution o =
    OnSome-if_set _ o no_steps _ (none-Sequenced limit execution) λ raw.
      OnSome->>= _ (as_array raw) _ (OnSome-any _) λ values _.
        parse_steps_02-Sequenced limit execution [] [] values (none-Sequenced limit execution)

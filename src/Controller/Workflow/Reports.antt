-- ===== src/Controller/Workflow/Reports.antt =====
-- The status that WorkflowReconciler.Reconcile writes.
use mathop_operator.Base.{
  absurd_bool, if◌then◌else◌, ◌≡◌, refl, true, false, List, [], String, map, Bool, ◌↔◌, any, sym,
  ne_of_eq-false, ◌∙◌,
}
use mathop_operator.Controller.Workflow.{
  Environment, LoopState, overall_phase, apply_steps, fresh_loop, Trace, reconcile, after_get,
  with_ids, WorkflowStatus, Workflow, Fetch, NamespacedName, WorkflowTaskStatus, WorkflowTaskSpec,
  ok, Result, failed, err, found, with_outcome,
}
use mathop_operator.Controller.Platform.{Fetch, found, not_found, failed}
use mathop_operator.Api.{WorkflowSpec}
use mathop_operator.Base.{String}
use mathop_operator.Controller.Workflow.Steps.{
  is_failed, is_open, Follows, OnOk, apply_steps-Follows,
}
use mathop_operator.Controller.Workflow.Written.{
  AllWritten, Echoes, apply_steps-AllWritten, after_steps-AllWritten,
}

-- What the phase of a status says of its steps, and that the steps are those of the spec.
abbrev pub Reported : List String → WorkflowStatus → Type 0
Reported names st =
    (map (λ (t : WorkflowTaskStatus). t.name) st.tasks ≡ names)
    × ((st.phase ≡ "Failed") ↔ (any is_failed st.tasks ≡ true))
    × ((st.phase ≡ "Succeeded") ↔ (any is_failed st.tasks ≡ false) × (any is_open st.tasks ≡ false))

abbrev phase_of : Bool → Bool → String
phase_of f p = if f then "Failed" else if p then "Running" else "Succeeded"

Follows-Reported :
    (names : List String) (s : LoopState) (st : WorkflowStatus)
    → Follows names s
    → Reported names (record st { tasks = s.statuses; phase = overall_phase s })
unfolding overall_phase
Follows-Reported names s st (n, f, p) =
    (n, failed_iff s.has_failed s.has_pending _ f, succeeded_iff s.has_failed s.has_pending _ _ f p)
  where
    failed_iff : (f p a : Bool) → f ≡ a → (phase_of f p ≡ "Failed") ↔ (a ≡ true)
    failed_iff true p a e = (λ _. sym e, λ _. refl)
    failed_iff false true a e =
        (λ h. absurd (ne_of_eq-false "Running" "Failed" refl h), λ h. absurd (absurd_bool (e ∙ h)))
    failed_iff false false a e = (
      λ h. absurd (ne_of_eq-false "Succeeded" "Failed" refl h),
      λ h. absurd (absurd_bool (e ∙ h)),
    )

    succeeded_iff :
        (f p a b : Bool)
        → f ≡ a
        → p ≡ b
        → (phase_of f p ≡ "Succeeded") ↔ ((a ≡ false) × (b ≡ false))
    succeeded_iff true p a b e e' = (
      λ h. absurd (ne_of_eq-false "Failed" "Succeeded" refl h),
      λ h. absurd (absurd_bool (sym (e ∙ h.0))),
    )
    succeeded_iff false true a b e e' = (
      λ h. absurd (ne_of_eq-false "Running" "Succeeded" refl h),
      λ h. absurd (absurd_bool (sym (e' ∙ h.1))),
    )
    succeeded_iff false false a b e e' = (λ _. (sym e, sym e'), λ _. refl)

-- The status is that of the steps of its spec.
abbrev pub ReportsSteps : WorkflowSpec → WorkflowStatus → Type 0
ReportsSteps sp st = Reported (map (λ (t : WorkflowTaskSpec). t.name) sp.tasks) st

module _ (env : Environment) (url : String) where
  OnOk-ReportsSteps :
      (wf : Workflow) (r : Result LoopState)
      → OnOk (Follows (map (λ (t : WorkflowTaskSpec). t.name) wf.spec.tasks)) r
      → OnOk (λ s. ReportsSteps wf.spec (with_outcome env url wf s).status) r
  OnOk-ReportsSteps wf (err e) h = h
  OnOk-ReportsSteps wf (ok s) h = Follows-Reported _ s wf.status h

  after_get_reports :
      (f : Fetch Workflow) (tr : Trace)
      → Echoes env
      → AllWritten ReportsSteps tr
      → AllWritten ReportsSteps (after_get env url f tr).1
  unfolding after_get with_ids
  after_get_reports not_found tr echo hs = hs
  after_get_reports (failed e) tr echo hs = hs
  after_get_reports (found wf) tr echo hs =
      let wf' = with_ids url wf in
      let outcome = apply_steps env url wf' wf'.spec.tasks (fresh_loop env url) tr in
      after_steps-AllWritten env url ReportsSteps (λ sp st phase h. h) wf' outcome.0 outcome.1 echo
        (OnOk-ReportsSteps wf' outcome.0 (
          apply_steps-Follows env url wf' [] wf'.spec.tasks (fresh_loop env url) tr
            (refl, refl, refl)))
        (apply_steps-AllWritten env url ReportsSteps (λ sp st phase h. h) wf' wf'.spec.tasks
          (fresh_loop env url) tr hs)

  -- Every status that a reconcile writes has one entry for each step of the spec, by name and in the
  -- order of the spec; its phase is Failed exactly if a step is, and Succeeded exactly if no step
  -- failed, waits or runs. The server is taken to answer an update with what was written.
  pub reconcile_reports :
      (key : NamespacedName) (tr : Trace)
      → Echoes env
      → AllWritten ReportsSteps tr
      → AllWritten ReportsSteps (reconcile env url key tr).1
  unfolding reconcile
  reconcile_reports key tr echo hs = after_get_reports (env.get tr key) tr echo hs

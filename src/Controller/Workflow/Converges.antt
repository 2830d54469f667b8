-- ===== src/Controller/Workflow/Converges.antt =====
-- WorkflowReconciler.Reconcile of internal/controller/workflow_controller.go again and again, while the
-- children stand still.
use mathop_operator.Base.{
  ℕ, zero, suc, ◌≤◌, String, ◌≡◌, ap, ◌∙◌, [], refl, Bool-cases, inl, inr, arith, sym,
}
use mathop_operator.Base.Result.{ok, err, Result, Result-cases}
use mathop_operator.Api.{HttpTask, Workflow, WorkflowSpec}
use mathop_operator.Controller.Platform.{NamespacedName}
use mathop_operator.Controller.Workflow.{
  Environment, LoopState, Trace, apply_steps, fresh_loop, with_ids, reconcile,
}
use mathop_operator.Controller.Workflow.Sends.{sends}
use mathop_operator.Controller.Workflow.Stable.{next, notifies, next-Steady}
use mathop_operator.Controller.Workflow.Standing.{
  current, Serves, same_outcome, reconcile-Leaves, reconcile_fails,
}

module _ (env : Environment) (url : String) where
  -- The trace after a number of reconciles.
  abbrev pub repeated : NamespacedName → ℕ → Trace → Trace
  repeated key zero tr = tr
  repeated key (suc n) tr = repeated key n (reconcile env url key tr).1

  module _ (key : NamespacedName) (initial : Workflow) (children : NamespacedName → Result HttpTask)
      (serves : Serves env key initial children) where
    -- A workflow that every reconcile leaves as it is, without a notification.
    abbrev Settled : Workflow → Type 0
    Settled wf =
        (tr : Trace)
        → current initial tr ≡ wf
        → (current initial (reconcile env url key tr).1 ≡ wf)
          × (sends (reconcile env url key tr).1 ≡ sends tr)

    repeated-Settled :
        (wf : Workflow)
        → Settled wf
        → (n : ℕ) (tr : Trace) → current initial tr ≡ wf
        → (current initial (repeated key n tr) ≡ wf) × (sends (repeated key n tr) ≡ sends tr)
    repeated-Settled wf settled zero tr held = (held, refl)
    repeated-Settled wf settled (suc n) tr held =
        let first = settled tr held in
        let rest = repeated-Settled wf settled n (reconcile env url key tr).1 first.0 in
        (rest.0, rest.1 ∙ first.1)

    -- What the loop of every reconcile gives.
    abbrev outcome : Result LoopState
    outcome =
        (apply_steps env url (with_ids url initial) initial.spec.tasks (fresh_loop env url) []).0

    loop_outcome :
        (wf : Workflow) (tr : Trace)
        → wf.meta ≡ initial.meta
        → wf.spec ≡ initial.spec
        → (apply_steps env url (with_ids url wf) wf.spec.tasks (fresh_loop env url) tr).0 ≡ outcome
    unfolding with_ids
    loop_outcome wf tr meta spec =
        same_outcome env url key initial children serves (with_ids url wf) (with_ids url initial)
          wf.spec.tasks (fresh_loop env url) tr [] meta
        ∙ ap
            (λ (sp : WorkflowSpec).
              (apply_steps env url (with_ids url initial) sp.tasks (fresh_loop env url) []).0)
            spec

    next-same :
        (wf : Workflow) (s : LoopState)
        → ((next env url wf s).meta ≡ wf.meta) × ((next env url wf s).spec ≡ wf.spec)
    unfolding with_ids
    next-same wf s = elim (Bool-cases (notifies env url wf s)) [
      | inl e ↦ rw e (refl, refl)
      | inr e ↦ rw e (refl, refl)
    ]

    next_stands : (s : LoopState) → outcome ≡ ok s → Settled (next env url initial s)
    next_stands s ends tr held =
        let kept = next-same initial s in
        let left =
          reconcile-Leaves env url key initial children serves tr (next env url initial s) s held
            (loop_outcome (next env url initial s) tr kept.0 kept.1 ∙ ends) in
        let steady = next-Steady env url initial s in (left.0 ∙ steady.1, left.1 ∙ rw steady.0 refl)

    failure_stands : (m : String) → outcome ≡ err m → Settled initial
    failure_stands m ends tr held =
        reconcile_fails env url key initial children serves tr initial m held
          (loop_outcome initial tr refl refl ∙ ends)

    -- However often a workflow is reconciled, its children standing still, so that CreateOrUpdate
    -- answers with each child as it is whatever it is asked to write, the server accepting each status
    -- and holding what was written, each notification being built and the endpoint accepting it, every
    -- reconcile after the first leaves the workflow as the first left it, and all of them together
    -- notify once at most.
    pub repeated-tells_once :
        (n : ℕ)
        → (current initial (repeated key (suc n) []) ≡ current initial (reconcile env url key []).1)
          × (sends (repeated key (suc n) []) ≤ 1)
    repeated-tells_once n = elim (Result-cases outcome) [
      | inl (s, ends) ↦
          let first = reconcile-Leaves env url key initial children serves [] initial s refl ends in
          let rest =
            repeated-Settled (next env url initial s) (next_stands s ends) n
              (reconcile env url key []).1 first.0 in
          (rest.0 ∙ sym first.0, ground (arith, rest.1, first.1))
      | inr (m, ends) ↦
          let first = failure_stands m ends [] refl in
          let rest =
            repeated-Settled initial (failure_stands m ends) n (reconcile env url key []).1
              first.0 in
          (rest.0 ∙ sym first.0, omega (arith, rest.1, first.1))
    ]

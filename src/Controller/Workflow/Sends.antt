-- ===== src/Controller/Workflow/Sends.antt =====
-- The calls of the notification endpoint that a WorkflowReconciler.Reconcile of
-- internal/controller/workflow_controller.go makes.
use mathop_operator.Base.{
  ◌≡◌, refl, true, List, [], ◌∷◌, ◌≢◌, ◌↔◌, ◌⊎◌, inl, inr, Option, none, some, String, ℕ, suc, ◌≤◌,
  arith, Bool-cases, eq_iff,
}
use mathop_operator.Controller.Platform.{Fetch, found, not_found, failed, NamespacedName}
use mathop_operator.Controller.Workflow.{
  Environment, LoopState, overall_phase, apply_steps, fresh_loop, Trace, child_applied,
  status_updated, sent, reconcile, after_get, after_steps, after_status, notify, after_notify,
  with_ids, Workflow, send_checked, send_marshalled, Result, is_terminal, WorkflowTaskSpec, err,
  should_notify, ok, with_outcome,
}
use mathop_operator.Controller.Workflow.Steps.{apply_steps_ind}

-- The number of calls in a trace.
abbrev pub sends : Trace → ℕ
sends [] = 0
sends (sent r ∷ tr) = suc (sends tr)
sends (child_applied c ∷ tr) = sends tr
sends (status_updated w ∷ tr) = sends tr

module _ (env : Environment) (url : String) where
  pub sends-apply_steps :
      (wf : Workflow) (steps : List WorkflowTaskSpec) (s : LoopState) (tr : Trace)
      → sends (apply_steps env url wf steps s tr).1 ≡ sends tr
  sends-apply_steps wf =
      apply_steps_ind env url (λ steps s tr r. sends r.1 ≡ sends tr) wf (λ s tr. refl)
        (λ step steps s tr child r ih. ih) (λ step steps s tr m. refl)

  sends-send_checked :
      (wf : Workflow) (body : String) (o : Option String) (tr : Trace)
      → sends (send_checked env url wf body o tr).1 ≤ suc (sends tr)
  unfolding send_checked
  sends-send_checked wf body (some e) tr = omega arith
  sends-send_checked wf body none tr = omega arith

  sends-send_marshalled :
      (wf : Workflow) (r : Result String) (tr : Trace)
      → sends (send_marshalled env url wf r tr).1 ≤ suc (sends tr)
  unfolding send_marshalled
  sends-send_marshalled wf (err e) tr = omega arith
  sends-send_marshalled wf (ok body) tr = sends-send_checked wf body _ tr

  pub sends-after_notify :
      (w : Workflow) (phase : String) (o : Option String) (tr : Trace)
      → sends (after_notify env url w phase (o, tr)).1 ≡ sends tr
  unfolding after_notify
  sends-after_notify w phase (some e) tr = refl
  sends-after_notify w phase none tr = refl

  sends-after_status :
      (phase : String) (r : Result Workflow) (tr : Trace)
      → sends (after_status env url phase r tr).1 ≤ suc (sends tr)
  unfolding after_status notify
  sends-after_status phase (err e) tr = omega arith
  sends-after_status phase (ok w) tr = elim (Bool-cases (should_notify env url w phase)) [
    | inl e ↦
        rw (e, sends-after_notify w phase (notify env url w tr).0 (notify env url w tr).1)
          (sends-send_marshalled w _ tr)
    | inr e ↦ rw e (omega arith)
  ]

  sends-after_steps :
      (wf : Workflow) (r : Result LoopState) (tr : Trace)
      → sends (after_steps env url wf (r, tr)).1 ≤ suc (sends tr)
  unfolding after_steps
  sends-after_steps wf (err e) tr = omega arith
  sends-after_steps wf (ok s) tr =
      sends-after_status (overall_phase s) (env.update_status tr (with_outcome env url wf s))
        (status_updated (with_outcome env url wf s) ∷ tr)

  sends-after_get :
      (f : Fetch Workflow) (tr : Trace) → sends (after_get env url f tr).1 ≤ suc (sends tr)
  unfolding after_get
  sends-after_get not_found tr = omega arith
  sends-after_get (failed e) tr = omega arith
  sends-after_get (found wf) tr =
      let wf' = with_ids url wf in
      let r = apply_steps env url wf' wf'.spec.tasks (fresh_loop env url) tr in
      omega (
        arith,
        sends-after_steps wf' r.0 r.1,
        sends-apply_steps wf' wf'.spec.tasks (fresh_loop env url) tr,
      )

  -- A reconcile calls the notification endpoint at most once, whatever the server answers.
  pub sends-reconcile :
      (key : NamespacedName) (tr : Trace) → sends (reconcile env url key tr).1 ≤ suc (sends tr)
  unfolding reconcile
  sends-reconcile key tr = sends-after_get (env.get tr key) tr

  pub should_notify_iff :
      (w : Workflow) (phase : String)
      → (should_notify env url w phase ≡ true) ↔ (
          ((phase ≡ "Succeeded") ⊎ (phase ≡ "Failed"))
          × (w.spec.notify_url ≢ "")
          × (w.status.notified_phase ≢ phase))
  unfolding is_terminal
  should_notify_iff w phase = ground (
    arith,
    eq_iff phase "Succeeded",
    eq_iff phase "Failed",
    eq_iff w.spec.notify_url "",
    eq_iff w.status.notified_phase phase,
  )

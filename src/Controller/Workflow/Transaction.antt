-- ===== src/Controller/Workflow/Transaction.antt =====
-- The transaction that WorkflowReconciler.Reconcile gives to a workflow, and the address of its page.
use mathop_operator.Base.{◌≡◌, refl, [], String, ◌==◌, if◌then◌else◌}
use mathop_operator.Base.Text.{◌<>◌}
use mathop_operator.Base.Result.{Result, ok, err}
use mathop_operator.Api.{WorkflowSpec, WorkflowStatus, Workflow}
use mathop_operator.Controller.Platform.{NamespacedName, found}
use mathop_operator.Controller.Workflow.{
  Environment, LoopState, apply_steps, fresh_loop, with_ids, with_outcome, after_get, reconcile,
}
use mathop_operator.Controller.Workflow.Steps.{OnOk}
use mathop_operator.Controller.Workflow.Written.{
  AllWritten, Echoes, apply_steps-AllWritten, after_steps-AllWritten,
}

-- The transaction of a workflow: the one it has, or its uid.
abbrev pub transaction_of : Workflow → String
transaction_of wf = if wf.status.transaction_id == "" then wf.meta.uid else wf.status.transaction_id

-- A status with a transaction and the address of its page.
abbrev pub Identifies : String → String → WorkflowSpec → WorkflowStatus → Type 0
Identifies url tx sp st = (st.transaction_id ≡ tx) × (st.dashboard_url ≡ url <> "/workflows/" <> tx)

module _ (env : Environment) (url : String) where
  OnOk-Identifies :
      (tx : String) (wf : Workflow) (r : Result LoopState)
      → Identifies url tx wf.spec wf.status
      → OnOk (λ s. Identifies url tx wf.spec (with_outcome env url wf s).status) r
  OnOk-Identifies tx wf (err e) h = tt
  OnOk-Identifies tx wf (ok s) h = h

  -- Every status that a reconcile of a workflow writes has the transaction that the workflow had, or its
  -- uid where it had none, and the address of the page of that transaction. The server is taken to
  -- answer an update with what was written.
  pub reconcile-Identifies :
      (key : NamespacedName) (wf : Workflow)
      → env.get [] key ≡ found wf
      → Echoes env
      → AllWritten (Identifies url (transaction_of wf)) (reconcile env url key []).1
  unfolding reconcile after_get with_ids
  reconcile-Identifies key wf read echo =
      let Q = Identifies url (transaction_of wf) in
      let wf' = with_ids url wf in
      let outcome = apply_steps env url wf' wf'.spec.tasks (fresh_loop env url) [] in
      rw (read, after_get)
        (after_steps-AllWritten env url Q (λ sp st phase h. h) wf' outcome.0 outcome.1 echo
          (OnOk-Identifies (transaction_of wf) wf' outcome.0 (refl, refl))
          (apply_steps-AllWritten env url Q (λ sp st phase h. h) wf' wf'.spec.tasks
            (fresh_loop env url) [] tt))

-- ===== src/Controller/Workflow/Written.antt =====
-- What holds of every status that WorkflowReconciler.Reconcile writes.
use mathop_operator.Base.{
  ◌≡◌, refl, List, [], ◌∷◌, String, Option, none, some, sym, subst, Bool-cases, inl, inr,
}
use mathop_operator.Base.Result.{Result, ok, err}
use mathop_operator.Api.{WorkflowSpec, WorkflowStatus, Workflow, WorkflowTaskSpec}
use mathop_operator.Controller.Workflow.{
  Environment, LoopState, overall_phase, apply_steps, Trace, child_applied, status_updated, sent,
  after_steps, after_status, notify, after_notify, send_checked, send_marshalled, with_outcome,
  should_notify,
}
use mathop_operator.Controller.Workflow.Steps.{apply_steps_ind, OnOk}

-- Every status that a trace writes is as `Q` says, for the spec that is written with it.
abbrev pub AllWritten : (WorkflowSpec → WorkflowStatus → Type 0) → Trace → Type 0
AllWritten Q [] = Unit
AllWritten Q (status_updated w ∷ tr) = Q w.spec w.status × AllWritten Q tr
AllWritten Q (child_applied c ∷ tr) = AllWritten Q tr
AllWritten Q (sent r ∷ tr) = AllWritten Q tr

-- The server answers an update of the status with the spec and the status as they were written.
abbrev pub Echoes : Environment → Type 0
Echoes env =
    (tr : Trace) (w w' : Workflow)
    → env.update_status tr w ≡ ok w'
    → (w'.spec ≡ w.spec) × (w'.status ≡ w.status)

module _ (env : Environment) (url : String) (Q : WorkflowSpec → WorkflowStatus → Type 0)
    (kept : (sp : WorkflowSpec) (st : WorkflowStatus) (phase : String)
      → Q sp st
      → Q sp (record st { notified_phase = phase })) where
  pub apply_steps-AllWritten :
      (wf : Workflow) (steps : List WorkflowTaskSpec) (s : LoopState) (tr : Trace)
      → AllWritten Q tr
      → AllWritten Q (apply_steps env url wf steps s tr).1
  apply_steps-AllWritten wf =
      apply_steps_ind env url (λ steps s tr r. AllWritten Q tr → AllWritten Q r.1) wf (λ s tr h. h)
        (λ step steps s tr child r ih h. ih h) (λ step steps s tr m h. h)

  notify-AllWritten :
      (wf : Workflow) (tr : Trace) → AllWritten Q tr → AllWritten Q (notify env url wf tr).1
  unfolding notify
  notify-AllWritten wf tr h = marshalled (env.marshal_status wf.status)
    where
      checked :
          (body : String) (o : Option String) → AllWritten Q (send_checked env url wf body o tr).1
      checked body (some e) = unfold send_checked in h
      checked body none = unfold send_checked in h

      marshalled : (r : Result String) → AllWritten Q (send_marshalled env url wf r tr).1
      marshalled (err e) = unfold send_marshalled in h
      marshalled (ok body) = unfold send_marshalled in checked body _

  after_notify-AllWritten :
      (w : Workflow) (phase : String) (o : Option String) (tr : Trace)
      → Q w.spec w.status
      → AllWritten Q tr
      → AllWritten Q (after_notify env url w phase (o, tr)).1
  unfolding after_notify
  after_notify-AllWritten w phase (some e) tr h hs = hs
  after_notify-AllWritten w phase none tr h hs = (kept w.spec w.status phase h, hs)

  after_status-AllWritten :
      (phase : String) (w : Workflow) (r : Result Workflow) (tr : Trace)
      → ((w' : Workflow) → r ≡ ok w' → (w'.spec ≡ w.spec) × (w'.status ≡ w.status))
      → Q w.spec w.status
      → AllWritten Q tr
      → AllWritten Q (after_status env url phase r tr).1
  unfolding after_status
  after_status-AllWritten phase w (err e) tr echo h hs = hs
  after_status-AllWritten phase w (ok w') tr echo h hs =
      let (spec, status) = echo w' refl in
      let h' =
        subst (λ (sp : WorkflowSpec). Q sp w'.status) (sym spec)
          (subst (λ st. Q w.spec st) (sym status) h) in
      elim (Bool-cases (should_notify env url w' phase)) [
        | inl e ↦ rw e (
            after_notify-AllWritten w' phase (notify env url w' tr).0 (notify env url w' tr).1 h'
              (notify-AllWritten w' tr hs))
        | inr e ↦ rw e hs
      ]

  pub after_steps-AllWritten :
      (wf : Workflow) (r : Result LoopState) (tr : Trace)
      → Echoes env
      → OnOk (λ s. Q wf.spec (with_outcome env url wf s).status) r
      → AllWritten Q tr
      → AllWritten Q (after_steps env url wf (r, tr)).1
  unfolding after_steps
  after_steps-AllWritten wf (err e) tr echo h hs = hs
  after_steps-AllWritten wf (ok s) tr echo h hs =
      after_status-AllWritten (overall_phase s) (with_outcome env url wf s) _ _ (echo tr _) h
        (h, hs)

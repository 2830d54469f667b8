-- ===== src/Controller/Workflow/Standing.antt =====
-- One run of WorkflowReconciler.Reconcile of internal/controller/workflow_controller.go on a server that holds
-- what was written last, while the children stand still.
use mathop_operator.Base.{
  suc, String, Option, ◌≡◌, false, none, ap, ◌∙◌, List, [], ◌∷◌, refl, Bool-cases, inl, inr, sym,
  if◌then◌else◌,
}
use mathop_operator.Base.Int.{pos, leb_ℤ}
use mathop_operator.Base.Result.{ok, err, Result, Result-cases}
use mathop_operator.Api.{HttpTask, Workflow, WorkflowTaskSpec, WorkflowStatus, ObjectMeta}
use mathop_operator.Controller.Platform.{
  with_error, NamespacedName, found, HttpRequest, HttpResponse, done,
}
use mathop_operator.Controller.Workflow.{
  Environment, LoopState, Trace, child_applied, status_updated, sent, apply_steps, fresh_loop,
  with_ids, with_outcome, with_notified, overall_phase, after_get, after_steps, after_notify,
  notify, send_marshalled, send_checked, reconcile, note_status, status_of_child, Run, child_key,
  child_name, mutate_child, ◌<>◌, notify_request,
}
use mathop_operator.Controller.Workflow.Notify.{reaches_notify}
use mathop_operator.Controller.Workflow.Sends.{sends, sends-apply_steps}
use mathop_operator.Controller.Workflow.Stable.{next, notifies}
use mathop_operator.Controller.Workflow.Steps.{apply_steps_ind, apply_steps-ok, apply_steps-err}

-- The workflow as the last write left it.
abbrev pub current : Workflow → Trace → Workflow
current initial [] = initial
current initial (status_updated w ∷ tr) = w
current initial (child_applied c ∷ tr) = current initial tr
current initial (sent r ∷ tr) = current initial tr

-- A server that accepts every write of the status, hands out the workflow as it was written last and
-- holds each child as it is, and an endpoint that accepts every notification.
pub record Serves (env : Environment) (key : NamespacedName) (initial : Workflow)
    (children : NamespacedName → Result HttpTask) : Type 0 where
  pub holds : (tr : Trace) → env.get tr key ≡ found (current initial tr)
  pub stores : (tr : Trace) (w : Workflow) → env.update_status tr w ≡ ok w
  pub stands :
      (tr : Trace) (k : NamespacedName) (f : HttpTask → Result HttpTask)
      → env.create_or_update tr k f ≡ children k
  pub marshals : (st : WorkflowStatus) → (body : String) × (env.marshal_status st ≡ ok body)
  pub checks : (m u : String) → env.check_request m u ≡ none
  pub accepts :
      (tr : Trace) (req : HttpRequest)
      → (resp : HttpResponse) × (env.send tr req ≡ ok resp)
        × (leb_ℤ (pos 300) resp.status_code ≡ false)

module _ (env : Environment) (url : String) where
  current-apply_steps :
      (initial wf : Workflow) (steps : List WorkflowTaskSpec) (s : LoopState) (tr : Trace)
      → current initial (apply_steps env url wf steps s tr).1 ≡ current initial tr
  current-apply_steps initial wf =
      apply_steps_ind env url (λ steps s tr r. current initial r.1 ≡ current initial tr) wf
        (λ s tr. refl) (λ step steps s tr child r ih. ih) (λ step steps s tr m. refl)

  with_trace :
      (ended : Result LoopState × Trace) (r : Result LoopState) → ended.0 ≡ r → ended ≡ (r, ended.1)
  with_trace (o, tr) r e = rw e refl

  ends_with_error :
      (key : NamespacedName) (tr tr' : Trace) (wf : Workflow) (m : String)
      → env.get tr key ≡ found wf
      → apply_steps env url (with_ids url wf) wf.spec.tasks (fresh_loop env url) tr ≡ (err m, tr')
      → reconcile env url key tr ≡ (with_error m, tr')
  unfolding reconcile after_get after_steps
  ends_with_error key tr tr' wf m read loop = rw (read, after_get, loop) refl

  module _ (key : NamespacedName) (initial : Workflow) (children : NamespacedName → Result HttpTask)
      (serves : Serves env key initial children) where
    -- What the loop gives depends on the workflow's name and namespace and on the children alone.
    pub same_outcome :
        (wf wf' : Workflow) (steps : List WorkflowTaskSpec) (s : LoopState) (tr tr' : Trace)
        → wf.meta ≡ wf'.meta
        → (apply_steps env url wf steps s tr).0 ≡ (apply_steps env url wf' steps s tr').0
    unfolding child_name
    same_outcome wf wf' [] s tr tr' same = unfold apply_steps in refl
    same_outcome wf wf' (step ∷ steps) s tr tr' same =
        let there = serves.stands tr (child_key env url wf step) (mutate_child env url wf step) in
        let here = serves.stands tr' (child_key env url wf' step) (mutate_child env url wf' step) in
        let keys : child_key env url wf step ≡ child_key env url wf' step =
          ap
            (λ (m : ObjectMeta). record {
              namespace = m.namespace;
              name = m.name <> "-" <> step.name;
            })
            same in
        elim (Result-cases (children (child_key env url wf' step))) [
          | inl (child, e) ↦
              ap (λ (r : Result LoopState × Trace). r.0)
                (apply_steps-ok env url wf step steps s tr child (there ∙ ap children keys ∙ e))
              ∙ same_outcome wf wf' steps (note_status (status_of_child step child) s)
                  (child_applied child ∷ tr) (child_applied child ∷ tr') same
              ∙ sym (
                  ap (λ (r : Result LoopState × Trace). r.0)
                    (apply_steps-ok env url wf' step steps s tr' child (here ∙ e)))
          | inr (m, e) ↦
              ap (λ (r : Result LoopState × Trace). r.0)
                (apply_steps-err env url wf step steps s tr m (there ∙ ap children keys ∙ e))
              ∙ sym (
                  ap (λ (r : Result LoopState × Trace). r.0)
                    (apply_steps-err env url wf' step steps s tr' m (here ∙ e)))
        ]

    notify_accepted :
        (wf : Workflow) (tr : Trace)
        → (req : HttpRequest) × (notify env url wf tr ≡ (none, sent req ∷ tr))
    unfolding notify send_marshalled send_checked
    notify_accepted wf tr =
        let (body, encodes) = serves.marshals wf.status in
        let req = notify_request env url wf body in
        let (resp, got, good) = serves.accepts tr req in
        (
          req,
          rw (encodes, send_marshalled, serves.checks "POST" wf.spec.notify_url, got, good) refl,
        )

    -- What a reconcile does whose loop ends with `s`.
    abbrev pub Leaves : Workflow → LoopState → Trace → Trace → Type 0
    Leaves wf s tr after =
        (current initial after ≡ next env url wf s)
        × (sends after ≡ (if notifies env url wf s then suc (sends tr) else sends tr))

    pub reconcile-Leaves :
        (tr : Trace) (wf : Workflow) (s : LoopState)
        → current initial tr ≡ wf
        → (apply_steps env url (with_ids url wf) wf.spec.tasks (fresh_loop env url) tr).0 ≡ ok s
        → Leaves wf s tr (reconcile env url key tr).1
    reconcile-Leaves tr wf s held loop =
        let wf' = with_ids url wf in
        let tr' = (apply_steps env url wf' wf.spec.tasks (fresh_loop env url) tr).1 in
        let w = with_outcome env url wf' s in
        let before = sends-apply_steps env url wf' wf.spec.tasks (fresh_loop env url) tr in
        let reached =
          reaches_notify env url key tr tr' wf s (serves.holds tr ∙ ap found held)
            (with_trace _ (ok s) loop) (serves.stores tr' w) in
        elim (Bool-cases (notifies env url wf s)) [
          | inl e ↦
              let (req, told) = notify_accepted w (status_updated w ∷ tr') in
              let answer : Option String × Trace = (none, sent req ∷ status_updated w ∷ tr') in
              let all : reconcile env url key tr ≡ after_notify env url w (overall_phase s) answer =
                reached ∙ rw (e, told) refl in
              let left : (reconcile env url key tr).1
                  ≡ status_updated (with_notified env url w (overall_phase s)) ∷ answer.1 =
                ap (λ (r : Run). r.1) all ∙ unfold after_notify in refl in
              (ap (current initial) left ∙ rw e refl, ap sends left ∙ rw e (ap suc before))
          | inr e ↦
              let all : reconcile env url key tr ≡ (done, status_updated w ∷ tr') =
                reached ∙ rw e refl in
              let left = ap (λ (r : Run). r.1) all in
              (ap (current initial) left ∙ rw e refl, ap sends left ∙ rw e before)
        ]

    -- One whose loop ends with an error.
    pub reconcile_fails :
        (tr : Trace) (wf : Workflow) (m : String)
        → current initial tr ≡ wf
        → (apply_steps env url (with_ids url wf) wf.spec.tasks (fresh_loop env url) tr).0 ≡ err m
        → (current initial (reconcile env url key tr).1 ≡ wf)
          × (sends (reconcile env url key tr).1 ≡ sends tr)
    reconcile_fails tr wf m held loop =
        let wf' = with_ids url wf in
        let ended = apply_steps env url wf' wf.spec.tasks (fresh_loop env url) tr in
        let left =
          ap (λ (r : Run). r.1)
            (ends_with_error key tr ended.1 wf m (serves.holds tr ∙ ap found held)
              (with_trace ended (err m) loop)) in
        (
          ap (current initial) left
              ∙ current-apply_steps initial wf' wf.spec.tasks (fresh_loop env url) tr
              ∙ held,
          ap sends left ∙ sends-apply_steps env url wf' wf.spec.tasks (fresh_loop env url) tr,
        )

-- ===== src/Controller/Workflow.antt =====
-- WorkflowReconciler of internal/controller/workflow_controller.go.
pub mod Steps
pub mod Written
pub mod Reports
pub mod Transaction
pub mod Sends
pub mod Notify
pub mod Stable
pub mod Standing
pub mod Converges
pub mod Children
pub mod Called
pub mod Composed
use mathop_operator.Base.{
  String, Bool, true, false, ◌&&◌, ◌||◌, not, List, [], ◌∷◌, ◌++◌, map, Option, none, some, ◌==◌,
  if◌then◌else◌,
}
use mathop_operator.Base.Int.{pos, leb_ℤ}
use mathop_operator.Base.Text.{◌<>◌, show_ℤ}
use mathop_operator.Base.Result.{Result, ok, err}
use mathop_operator.Api.{
  Condition, FieldMapping, HttpTaskSpec, HttpTask, WorkflowFieldMapping, WorkflowTaskSpec,
  WorkflowTaskStatus, WorkflowStatus, Workflow, scheme_group_version,
}
use mathop_operator.Controller.Platform.{
  NamespacedName, HttpRequest, HttpResponse, Fetch, found, not_found, failed, Reconciled, done,
  requeue_after, with_error,
}

-- What a reconcile does to the world; the last effect is the first of the list.
pub data Effect : Type 0 where
  child_applied : HttpTask → Effect
  status_updated : Workflow → Effect
  sent : HttpRequest → Effect

abbrev pub Trace : Type 0
Trace = List Effect

-- The API server, controllerutil.CreateOrUpdate, ctrl.SetControllerReference, json.Marshal of a
-- status and the HTTP client. `create_or_update` applies the function to the child as it is held,
-- or to an empty one, and answers with the child as the server holds it then.
pub record Environment : Type 0 where
  pub get : Trace → NamespacedName → Fetch Workflow
  pub create_or_update : Trace → NamespacedName → (HttpTask → Result HttpTask) → Result HttpTask
  pub set_controller_reference : Workflow → HttpTask → Result HttpTask
  pub update_status : Trace → Workflow → Result Workflow
  pub marshal_status : WorkflowStatus → Result String
  pub check_request : String → String → Option String
  pub send : Trace → HttpRequest → Result HttpResponse

-- findReadyCondition
unfoldable pub find_ready_condition : List Condition → Option Condition
find_ready_condition [] = none
find_ready_condition (c ∷ cs) = if c.kind == "Ready" then some c else find_ready_condition cs

-- isTerminal
unfoldable pub is_terminal : String → Bool
is_terminal phase = (phase == "Succeeded") || (phase == "Failed")

-- The name of the child of a step.
unfoldable pub child_name : Workflow → String → String
child_name wf step = wf.meta.name <> "-" <> step

-- The mapping of a step, with the source's name in place of its step.
unfoldable pub map_input_from : Workflow → List WorkflowFieldMapping → List FieldMapping
unfolding child_name
map_input_from wf ms =
    map
      (λ (m : WorkflowFieldMapping). record {
        source_ref = record {
          api_version = scheme_group_version;
          kind = "HTTPTask";
          name = child_name wf m.source_step;
        };
        source_field = m.source_field;
        target_field = m.target_field;
      })
      ms

-- The spec that the child of a step gets.
unfoldable pub child_spec : Workflow → WorkflowTaskSpec → HttpTaskSpec
unfolding map_input_from
child_spec wf step = record {
  endpoint = step.endpoint;
  method = step.method;
  headers = step.headers;
  input = step.input;
  input_from = map_input_from wf step.input_from;
}

-- The switch on the child's Ready condition: the phase and the error of the step.
unfoldable pub phase_of_condition : Option Condition → String × String
phase_of_condition none = ("Pending", "")
phase_of_condition (some ready) =
    if ready.status == "True"
    then ("Succeeded", "")
    else if ready.reason == "WaitingOnSource"
    then ("Pending", "")
    else if ready.reason == "Running"
    then ("Running", "")
    else ("Failed", ready.reason <> ": " <> ready.message)

abbrev pub status_of_child : WorkflowTaskSpec → HttpTask → WorkflowTaskStatus
status_of_child step child =
    let (phase, error) = phase_of_condition (find_ready_condition child.status.conditions) in
    record {
      name = step.name;
      phase = phase;
      status_code = child.status.status_code;
      output = child.status.output;
      error = error;
    }

-- The variables of the loop over the steps.
pub record LoopState : Type 0 where
  pub statuses : List WorkflowTaskStatus
  pub has_failed : Bool
  pub has_pending : Bool

-- The flags that the switch sets: pending for a step that waits or runs.
unfoldable pub note_status : WorkflowTaskStatus → LoopState → LoopState
note_status ts s = record {
  statuses = s.statuses ++ ts ∷ [];
  has_failed = if ts.phase == "Failed" then true else s.has_failed;
  has_pending = if (ts.phase == "Pending") || (ts.phase == "Running") then true else s.has_pending;
}

unfoldable pub overall_phase : LoopState → String
overall_phase s =
    if s.has_failed then "Failed" else if s.has_pending then "Running" else "Succeeded"

-- The id, set once from the uid, and the address of the dashboard.
unfoldable pub with_ids : String → Workflow → Workflow
with_ids base_url wf =
    let s = wf.status in
    let tx = if s.transaction_id == "" then wf.meta.uid else s.transaction_id in
    record wf {
      status = record s { transaction_id = tx; dashboard_url = base_url <> "/workflows/" <> tx };
    }

abbrev pub Run : Type 0
Run = Reconciled × Trace

module _ (env : Environment) (dashboard_base_url : String) where
  -- The function that CreateOrUpdate applies to the child.
  unfoldable pub mutate_child : Workflow → WorkflowTaskSpec → HttpTask → Result HttpTask
  unfolding child_spec
  mutate_child wf step child =
      env.set_controller_reference wf (record child { spec = child_spec wf step })

  abbrev pub child_key : Workflow → WorkflowTaskSpec → NamespacedName
  child_key wf step = record { namespace = wf.meta.namespace; name = child_name wf step.name }

  -- The loop over spec.tasks: an error of CreateOrUpdate ends the reconcile.
  unfoldable pub apply_steps :
      Workflow → List WorkflowTaskSpec → LoopState → Trace → Result LoopState × Trace
  unfolding mutate_child note_status phase_of_condition find_ready_condition
  apply_steps wf [] s tr = (ok s, tr)
  apply_steps wf (step ∷ steps) s tr =
      elim (env.create_or_update tr (child_key wf step) (mutate_child wf step)) [
        | err e ↦ (err e, tr)
        | ok child ↦
            apply_steps wf steps (note_status (status_of_child step child) s)
              (child_applied child ∷ tr)
      ]

  -- The response of the notification endpoint.
  abbrev check_response : Result HttpResponse → Option String
  check_response (err e) = some e
  check_response (ok resp) =
      if leb_ℤ (pos 300) resp.status_code
      then some ("notify endpoint returned HTTP " <> show_ℤ resp.status_code)
      else none

  abbrev pub notify_request : Workflow → String → HttpRequest
  notify_request wf body = record {
    method = "POST";
    url = wf.spec.notify_url;
    headers = ("Content-Type", "application/json") ∷ [];
    body = body;
  }

  -- notify: its error, if any. After json.Marshal and http.NewRequestWithContext:
  unfoldable pub send_checked : Workflow → String → Option String → Trace → Option String × Trace
  send_checked wf body (some e) tr = (some e, tr)
  send_checked wf body none tr =
      let req = notify_request wf body in (check_response (env.send tr req), sent req ∷ tr)

  unfoldable pub send_marshalled : Workflow → Result String → Trace → Option String × Trace
  unfolding send_checked
  send_marshalled wf (err e) tr = (some e, tr)
  send_marshalled wf (ok body) tr =
      send_checked wf body (env.check_request "POST" wf.spec.notify_url) tr

  unfoldable pub notify : Workflow → Trace → Option String × Trace
  unfolding send_marshalled
  notify wf tr = send_marshalled wf (env.marshal_status wf.status) tr

  abbrev returned : Result Workflow → Reconciled
  returned (ok _) = done
  returned (err e) = with_error e

  abbrev pub with_notified : Workflow → String → Workflow
  with_notified wf phase =
      let s = wf.status in record wf { status = record s { notified_phase = phase } }

  -- After notify: a failure is retried later, a success is recorded.
  unfoldable pub after_notify : Workflow → String → Option String × Trace → Run
  after_notify wf phase (some e, tr) = (requeue_after 10, tr)
  after_notify wf phase (none, tr) =
      let wf' = with_notified wf phase in
      (returned (env.update_status tr wf'), status_updated wf' ∷ tr)

  abbrev pub should_notify : Workflow → String → Bool
  should_notify wf phase =
      is_terminal phase && not (wf.spec.notify_url == "") && not (wf.status.notified_phase == phase)

  -- After the status update.
  unfoldable pub after_status : String → Result Workflow → Trace → Run
  unfolding is_terminal notify after_notify
  after_status phase (err e) tr = (with_error e, tr)
  after_status phase (ok wf) tr =
      if should_notify wf phase then after_notify wf phase (notify wf tr) else (done, tr)

  abbrev pub with_outcome : Workflow → LoopState → Workflow
  with_outcome wf s =
      let st = wf.status in
      record wf { status = record st { tasks = s.statuses; phase = overall_phase s } }

  -- After the loop.
  unfoldable pub after_steps : Workflow → Result LoopState × Trace → Run
  unfolding after_status overall_phase
  after_steps wf (err e, tr) = (with_error e, tr)
  after_steps wf (ok s, tr) =
      let wf' = with_outcome wf s in
      after_status (overall_phase s) (env.update_status tr wf') (status_updated wf' ∷ tr)

  abbrev pub fresh_loop : LoopState
  fresh_loop = record { statuses = []; has_failed = false; has_pending = false }

  unfoldable pub after_get : Fetch Workflow → Trace → Run
  unfolding with_ids apply_steps after_steps
  after_get not_found tr = (done, tr)
  after_get (failed e) tr = (with_error e, tr)
  after_get (found wf) tr =
      let wf' = with_ids dashboard_base_url wf in
      after_steps wf' (apply_steps wf' wf'.spec.tasks fresh_loop tr)

  -- Reconcile
  unfoldable pub reconcile : NamespacedName → Trace → Run
  unfolding after_get
  reconcile key tr = after_get (env.get tr key) tr

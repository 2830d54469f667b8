-- ===== src/Controller/HttpTask.antt =====
-- HTTPTaskReconciler.Reconcile of internal/controller/httptask_controller.go.
pub mod Calls
pub mod Deletion
pub mod Protection
pub mod Repeats
pub mod Records
pub mod Converges
use mathop_operator.Base.{
  String, Bool, true, false, ◌&&◌, ◌||◌, not, List, [], ◌∷◌, Option, none, some, ◌==◌,
  if◌then◌else◌,
}
use mathop_operator.Base.Int.{ℤ, pos, to_int32, ltb_ℤ, leb_ℤ}
use mathop_operator.Base.Text.{◌<>◌, show_ℤ}
use mathop_operator.Base.Result.{Result, ok, err}
use mathop_operator.Json.{Json, Fields, Codec}
use mathop_operator.Json.Paths.{get_json_field, set_json_field}
use mathop_operator.Api.{Condition, FieldMapping, HttpTask}
use mathop_operator.Controller.Platform.{
  NamespacedName, HttpRequest, HttpResponse, Fetch, found, not_found, failed, updated,
  status_updated, sent, Trace, Environment, Helpers, Reconciled, done, requeue_after, with_error,
}
use mathop_operator.Controller.Merge.{
  Body, body_json, Merged, merged, fails, waits, panics, initial_body, merge_inputs,
}
use mathop_operator.Controller.Index.{task_referenced_by_others}

abbrev pub task_in_use_finalizer : String
task_in_use_finalizer = "math.example.com/task-in-use-protection"

-- A reconcile returns, or panics.
pub data Finished : Type 0 where
  returned : Reconciled → Finished
  panicked : Finished

abbrev pub Run : Type 0
Run = Finished × Trace HttpTask

module _ (codec : Codec) (lib : Helpers) (env : Environment HttpTask) where
  open codec use {encode, map_error, quote, sha256_hex}
  open lib use {set_status_condition, contains_finalizer, add_finalizer, remove_finalizer}

  abbrev pub ready_condition : HttpTask → String → String → String → Condition
  ready_condition task status reason message = record {
    kind = "Ready";
    status = status;
    reason = reason;
    message = message;
    observed_generation = task.meta.generation;
  }

  abbrev pub with_condition : HttpTask → String → String → String → HttpTask
  with_condition task status reason message =
      let s = task.status in
      record task {
        status = record s {
          conditions =
              set_status_condition (ready_condition task status reason message) s.conditions;
        };
      }

  -- fail: the error of the update is dropped.
  unfoldable pub fail : HttpTask → String → String → Trace HttpTask → Run
  fail task reason msg tr =
      (returned done, status_updated (with_condition task "False" reason msg) ∷ tr)

  abbrev returned_error : Result HttpTask → Finished
  returned_error (ok _) = returned done
  returned_error (err e) = returned (with_error e)

  -- waiting: the error of the update is returned.
  unfoldable pub waiting : HttpTask → String → String → Trace HttpTask → Run
  waiting task reason msg tr =
      let task' = with_condition task "False" reason msg in
      (returned_error (env.update_status tr task'), status_updated task' ∷ tr)

  abbrev pub is_success : ℤ → Bool
  is_success code = not (ltb_ℤ code (pos 200) || leb_ℤ (pos 300) code)

  -- The status after a response, with the condition for its code.
  unfoldable pub record_response : HttpTask → String → ℤ → String → HttpTask
  record_response task hash code body =
      let s = task.status in
      let task' : HttpTask = record task {
        status = record s {
          status_code = some (to_int32 code);
          output = body;
          observed_input_hash = hash;
        };
      } in
      if is_success code
      then with_condition task' "True" "Computed"
          ("called " <> task.spec.endpoint <> ", got HTTP " <> show_ℤ code)
      else with_condition task' "False" "NonSuccessStatus"
          ("endpoint returned HTTP " <> show_ℤ code)

  -- After HTTPClient.Do.
  unfoldable pub after_send : HttpTask → String → Result HttpResponse → Trace HttpTask → Run
  unfolding fail record_response
  after_send task hash (err e) tr =
      fail task "RequestFailed" ("HTTP call to " <> task.spec.endpoint <> " failed: " <> e) tr
  after_send task hash (ok resp) tr = elim resp.body [
    | err e ↦ fail task "RequestFailed" ("failed reading response body: " <> e) tr
    | ok text ↦
        let task' = record_response task hash resp.status_code text in
        (returned_error (env.update_status tr task'), status_updated task' ∷ tr)
  ]

  abbrev pub request_for : HttpTask → String → HttpRequest
  request_for task body = record {
    method = if task.spec.method == "" then "POST" else task.spec.method;
    url = task.spec.endpoint;
    headers = ("Content-Type", "application/json") ∷ task.spec.headers;
    body = body;
  }

  -- After http.NewRequestWithContext.
  unfoldable pub after_check :
      HttpTask → HttpRequest → String → Option String → Trace HttpTask → Run
  unfolding fail after_send
  after_check task req hash (some e) tr =
      fail task "InvalidRequest" ("failed to build request: " <> e) tr
  after_check task req hash none tr = after_send task hash (env.send tr req) (sent req ∷ tr)

  -- The HTTP call, once the task is marked as running.
  unfoldable pub call_endpoint : HttpTask → String → String → Trace HttpTask → Run
  unfolding after_check
  call_endpoint task body hash tr =
      let req = request_for task body in
      after_check task req hash (env.check_request req.method req.url) tr

  -- After the status update that marks the task as running.
  unfoldable pub after_mark : String → String → Result HttpTask → Trace HttpTask → Run
  unfolding call_endpoint
  after_mark body hash (err e) tr = (returned (with_error e), tr)
  after_mark body hash (ok task) tr = call_endpoint task body hash tr

  -- The hash of the body is the recorded one, and there is an output.
  abbrev pub is_current : HttpTask → Body → Bool
  is_current task body =
      (task.status.observed_input_hash == sha256_hex (encode (body_json body)))
      && not (task.status.output == "")

  -- From the merged body on: nothing is called while the hash and an output are there.
  unfoldable pub call_if_changed : HttpTask → Body → Trace HttpTask → Run
  unfolding after_mark
  call_if_changed task body tr =
      let text = encode (body_json body) in
      let hash = sha256_hex text in
      let running = with_condition task "False" "Running" ("calling " <> task.spec.endpoint) in
      if is_current task body
      then (returned done, tr)
      else after_mark text hash (env.update_status tr running) (status_updated running ∷ tr)

  unfoldable pub after_merge : HttpTask → Merged → Trace HttpTask → Run
  unfolding fail waiting call_if_changed
  after_merge task (merged body) tr = call_if_changed task body tr
  after_merge task (fails reason msg) tr = fail task reason msg tr
  after_merge task (waits reason msg) tr = waiting task reason msg tr
  after_merge task panics tr = (panicked, tr)

  unfoldable pub after_input : HttpTask → Option Body → Trace HttpTask → Run
  unfolding fail merge_inputs after_merge
  after_input task none tr =
      fail task "InvalidInput" ("spec.input is not valid JSON: " <> map_error task.spec.input) tr
  after_input task (some body) tr =
      after_merge task (merge_inputs codec env task.meta.namespace tr task.spec.input_from body) tr

  -- The part of Reconcile that computes.
  unfoldable pub compute : HttpTask → Trace HttpTask → Run
  unfolding initial_body after_input
  compute task tr = after_input task (initial_body codec task.spec.input) tr

  abbrev pub with_finalizers : HttpTask → List String → HttpTask
  with_finalizers task fs = let m = task.meta in record task { meta = record m { finalizers = fs } }

  abbrev pub after_update : Result HttpTask → Trace HttpTask → Run
  after_update (err e) tr = (returned (with_error e), tr)
  after_update (ok task) tr = compute task tr

  -- The finalizer is added before anything is computed.
  unfoldable pub ensure_finalizer : HttpTask → Trace HttpTask → Run
  unfolding compute
  ensure_finalizer task tr =
      let task' = with_finalizers task (add_finalizer task_in_use_finalizer task.meta.finalizers) in
      if contains_finalizer task.meta.finalizers task_in_use_finalizer
      then compute task tr
      else after_update (env.update tr task') (updated task' ∷ tr)

  unfoldable pub after_reference_check : HttpTask → Result Bool → Trace HttpTask → Run
  after_reference_check task (err e) tr = (returned (with_error e), tr)
  after_reference_check task (ok true) tr = (returned (requeue_after 5), tr)
  after_reference_check task (ok false) tr =
      let task' =
        with_finalizers task (remove_finalizer task_in_use_finalizer task.meta.finalizers) in
      (returned_error (env.update tr task'), updated task' ∷ tr)

  -- The branch of a task that is being deleted.
  unfoldable pub handle_deletion : HttpTask → Trace HttpTask → Run
  unfolding after_reference_check task_referenced_by_others
  handle_deletion task tr =
      if contains_finalizer task.meta.finalizers task_in_use_finalizer
      then after_reference_check task
          (task_referenced_by_others env tr task.meta.namespace task.meta.name) tr
      else (returned done, tr)

  -- `if !task.DeletionTimestamp.IsZero()`
  unfoldable pub by_deletion : Bool → HttpTask → Trace HttpTask → Run
  unfolding handle_deletion ensure_finalizer
  by_deletion true task tr = handle_deletion task tr
  by_deletion false task tr = ensure_finalizer task tr

  unfoldable pub after_get : Fetch HttpTask → Trace HttpTask → Run
  unfolding by_deletion
  after_get not_found tr = (returned done, tr)
  after_get (failed e) tr = (returned (with_error e), tr)
  after_get (found task) tr = by_deletion task.meta.deleting task tr

  -- Reconcile
  unfoldable pub reconcile : NamespacedName → Trace HttpTask → Run
  unfolding after_get
  reconcile key tr = after_get (env.get tr key) tr

-- ===== src/Controller/HttpTask/Records.antt =====
-- What HTTPTaskReconciler.Reconcile leaves behind when it calls the endpoint and gets an answer.
use mathop_operator.Base.{String, ◌≡◌, true, false, some, none, ap, ◌∙◌, ◌∷◌, refl}
use mathop_operator.Base.Text.{◌<>◌}
use mathop_operator.Base.Result.{ok, err, Result}
use mathop_operator.Json.{Codec}
use mathop_operator.Api.{HttpTask}
use mathop_operator.Controller.Platform.{
  Environment, Helpers, Trace, NamespacedName, found, HttpResponse, status_updated, sent,
}
use mathop_operator.Controller.Merge.{Body, body_json, merged, initial_body, merge_inputs}
use mathop_operator.Controller.HttpTask.Repeats.{hash_of, reaches_test}
use mathop_operator.Controller.HttpTask.{
  record_response, is_current, reconcile, Run, after_send, after_check, after_mark, call_endpoint,
  call_if_changed, fail, request_for, with_condition, task_in_use_finalizer,
}

module _ (codec : Codec) (lib : Helpers) (env : Environment HttpTask) where
  -- The write that marks a task as running.
  abbrev pub marks : HttpTask → HttpTask
  marks task =
      with_condition codec lib env task "False" "Running" ("calling " <> task.spec.endpoint)

  -- A request that is sent and answered leaves the record of the answer as its last write; one that
  -- fails leaves the reason RequestFailed.
  abbrev pub answered : HttpTask → String → Result HttpResponse → HttpTask
  answered task hash (err e) =
      with_condition codec lib env task "False" "RequestFailed"
        ("HTTP call to " <> task.spec.endpoint <> " failed: " <> e)
  answered task hash (ok resp) = elim resp.body [
    | err e ↦
        with_condition codec lib env task "False" "RequestFailed"
          ("failed reading response body: " <> e)
    | ok text ↦ record_response codec lib env task hash resp.status_code text
  ]

  effects_of_answer :
      (task : HttpTask) (hash : String) (r : Result HttpResponse) (tr : Trace HttpTask)
      → (after_send codec lib env task hash r tr).1 ≡ status_updated (answered task hash r) ∷ tr
  unfolding after_send fail
  effects_of_answer task hash (err e) tr = refl
  effects_of_answer task hash (ok resp) tr = by_body resp.body
    where
      by_body :
          (b : Result String)
          → (after_send codec lib env task hash
              (ok (record { status_code = resp.status_code; body = b }))
              tr).1
            ≡ status_updated
                (answered task hash (ok (record { status_code = resp.status_code; body = b })))
              ∷ tr
      by_body (err e) = refl
      by_body (ok text) = refl

  -- A live, protected task whose hash is not the recorded one, or that has no output, is marked as
  -- running, called with its body, and written once more with the answer and the hash of that body.
  pub reconcile_records :
      (key : NamespacedName) (tr : Trace HttpTask) (task marked : HttpTask) (start body : Body)
      → env.get tr key ≡ found task
      → task.meta.deleting ≡ false
      → lib.contains_finalizer task.meta.finalizers task_in_use_finalizer ≡ true
      → initial_body codec task.spec.input ≡ some start
      → merge_inputs codec env task.meta.namespace tr task.spec.input_from start ≡ merged body
      → is_current codec lib env task body ≡ false
      → env.update_status tr (marks task) ≡ ok marked
      → ((m u : String) → env.check_request m u ≡ none)
      → let req = request_for codec lib env marked (codec.encode (body_json body)) in
        (reconcile codec lib env key tr).1
        ≡ status_updated (
            answered marked
              (hash_of codec lib env body)
              (env.send (status_updated (marks task) ∷ tr) req))
          ∷ sent req
          ∷ status_updated (marks task)
          ∷ tr
  reconcile_records key tr task marked start body read live protected has_input has_body changed
        ok_mark ok_req =
      ap (λ (r : Run). r.1)
        (reaches_test codec lib env key tr task start body read live protected has_input has_body)
      ∙ (unfold call_if_changed after_mark call_endpoint after_check in
          rw (changed, ok_mark, ok_req)
            (effects_of_answer marked (hash_of codec lib env body) _
              (sent _ ∷ status_updated (marks task) ∷ tr)))

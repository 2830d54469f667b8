-- ===== src/Controller/HttpTask/Repeats.antt =====
-- When HTTPTaskReconciler.Reconcile calls the endpoint again after a response was recorded.
use mathop_operator.Base.{
  String, ◌≡◌, ◌≢◌, true, Bool-cases, inl, inr, eq_refl, eq-false, false, some, arith, ap, none,
  ◌∙◌, suc, ◌∷◌, refl,
}
use mathop_operator.Base.Int.{ℤ}
use mathop_operator.Json.{Codec}
use mathop_operator.Api.{HttpTask}
use mathop_operator.Controller.Platform.{Environment, Helpers}
use mathop_operator.Controller.HttpTask.Calls.{sends}
use mathop_operator.Controller.HttpTask.{
  record_response, is_success, is_current, reconcile, NamespacedName, after_send, after_get, Trace,
  fail, by_deletion, found, Result, ensure_finalizer, HttpResponse, compute, task_in_use_finalizer,
  after_input, after_merge, call_endpoint, after_check, call_if_changed, Finished, request_for,
  with_condition, done, ◌<>◌, ok, err, sent, after_mark, status_updated,
}
use mathop_operator.Controller.Merge.{Body, body_json, initial_body, merge_inputs, merged}

module _ (codec : Codec) (lib : Helpers) (env : Environment HttpTask) where
  -- The hash of a body, as it is recorded.
  abbrev pub hash_of : Body → String
  hash_of body = codec.sha256_hex (codec.encode (body_json body))

  record_response-is_current :
      (task : HttpTask) (body : Body) (code : ℤ) (text : String)
      → text ≢ ""
      → is_current codec lib env (record_response codec lib env task (hash_of body) code text) body
        ≡ true
  unfolding record_response
  record_response-is_current task body code text ne =
      elim (Bool-cases (is_success codec lib env code)) [
        | inl good ↦ rw (good, eq_refl, eq-false text "" ne)
        | inr bad ↦ rw (bad, eq_refl, eq-false text "" ne)
      ]

  -- The way of a live, protected task to the test of its hash.
  pub reaches_test :
      (key : NamespacedName) (tr : Trace HttpTask) (task : HttpTask) (start body : Body)
      → env.get tr key ≡ found task
      → task.meta.deleting ≡ false
      → lib.contains_finalizer task.meta.finalizers task_in_use_finalizer ≡ true
      → initial_body codec task.spec.input ≡ some start
      → merge_inputs codec env task.meta.namespace tr task.spec.input_from start ≡ merged body
      → reconcile codec lib env key tr ≡ call_if_changed codec lib env task body tr
  unfolding reconcile after_get by_deletion ensure_finalizer compute after_input after_merge
  reaches_test key tr task start body read live protected has_input has_body =
      rw (read, after_get)
        (ap (λ b. by_deletion codec lib env b task tr) live ∙ rw (protected, has_input, has_body))

  -- Once a response with a body was recorded for the body that the task still has, a reconcile does
  -- nothing, whatever the code of the response: a call that failed is not repeated either.
  pub recorded_not_repeated :
      (key : NamespacedName) (tr : Trace HttpTask) (before : HttpTask) (start body : Body)
      (code : ℤ) (text : String)
      → let task = record_response codec lib env before (hash_of body) code text in
        text ≢ ""
        → env.get tr key ≡ found task
        → task.meta.deleting ≡ false
        → lib.contains_finalizer task.meta.finalizers task_in_use_finalizer ≡ true
        → initial_body codec task.spec.input ≡ some start
        → merge_inputs codec env task.meta.namespace tr task.spec.input_from start ≡ merged body
        → reconcile codec lib env key tr ≡ (Finished.returned done, tr)
  recorded_not_repeated key tr before start body code text ne read live protected has_input
        has_body =
      let task = record_response codec lib env before (hash_of body) code text in
      reaches_test key tr task start body read live protected has_input has_body
      ∙ unfold call_if_changed in rw (record_response-is_current before body code text ne)

  sends-after_send :
      (task : HttpTask) (hash : String) (r : Result HttpResponse) (tr : Trace HttpTask)
      → sends (after_send codec lib env task hash r tr).1 ≡ sends tr
  unfolding after_send fail
  sends-after_send task hash (err e) tr = refl
  sends-after_send task hash (ok resp) tr = by_body resp.body
    where
      by_body :
          (b : Result String)
          → sends
              (after_send codec lib env task hash
                (ok (record { status_code = resp.status_code; body = b }))
                tr).1
            ≡ sends tr
      by_body (err e) = refl
      by_body (ok text) = refl

  sends-call_endpoint :
      (task : HttpTask) (text hash : String) (tr : Trace HttpTask)
      → env.check_request (request_for codec lib env task text).method task.spec.endpoint ≡ none
      → sends (call_endpoint codec lib env task text hash tr).1 ≡ suc (sends tr)
  unfolding call_endpoint after_check
  sends-call_endpoint task text hash tr ok_req =
      rw ok_req (sends-after_send task hash _ (sent _ ∷ tr))

  not_current :
      (task : HttpTask) (body : Body)
      → task.status.output ≡ ""
      → is_current codec lib env task body ≡ false
  not_current task body e = rw e (ground arith)

  -- A task whose recorded output is empty is called again at every reconcile, also when the call
  -- succeeded and nothing has changed.
  pub empty_output_repeated :
      (key : NamespacedName) (tr : Trace HttpTask) (task marked : HttpTask) (start body : Body)
      → task.status.output ≡ ""
      → env.get tr key ≡ found task
      → task.meta.deleting ≡ false
      → lib.contains_finalizer task.meta.finalizers task_in_use_finalizer ≡ true
      → initial_body codec task.spec.input ≡ some start
      → merge_inputs codec env task.meta.namespace tr task.spec.input_from start ≡ merged body
      → env.update_status tr
          (with_condition codec lib env task "False" "Running" ("calling " <> task.spec.endpoint))
        ≡ ok marked
      → ((m u : String) → env.check_request m u ≡ none)
      → sends (reconcile codec lib env key tr).1 ≡ suc (sends tr)
  empty_output_repeated key tr task marked start body empty read live protected has_input has_body
        ok_mark ok_req =
      rw (reaches_test key tr task start body read live protected has_input has_body) (
        unfold call_if_changed after_mark in
        rw (not_current task body empty, ok_mark)
          (sends-call_endpoint marked _ _ (status_updated _ ∷ tr) (ok_req _ _)))

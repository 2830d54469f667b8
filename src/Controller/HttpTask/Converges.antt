-- ===== src/Controller/HttpTask/Converges.antt =====
-- HTTPTaskReconciler.Reconcile again and again, on a server that holds what was written last.
use mathop_operator.Base.{
  ℕ, zero, suc, ◌≤◌, String, ◌≡◌, ◌≢◌, true, false, some, none, ap, ◌∙◌, [], ◌∷◌, refl, Bool-cases,
  inl, inr, arith, sym,
}
use mathop_operator.Base.Int.{ℤ}
use mathop_operator.Base.Result.{ok}
use mathop_operator.Json.{Codec}
use mathop_operator.Api.{HttpTask, ObjectMeta, HttpTaskSpec}
use mathop_operator.Controller.Platform.{
  Environment, Helpers, Trace, NamespacedName, found, HttpRequest, updated, status_updated, sent,
  done,
}
use mathop_operator.Controller.Merge.{Body, body_json, merged, initial_body, merge_inputs}
use mathop_operator.Controller.HttpTask.{
  record_response, is_current, is_success, reconcile, task_in_use_finalizer, Finished,
  call_if_changed, Run, request_for,
}
use mathop_operator.Controller.HttpTask.Calls.{sends}
use mathop_operator.Controller.HttpTask.Repeats.{hash_of, reaches_test, recorded_not_repeated}
use mathop_operator.Controller.HttpTask.Records.{marks, answered, reconcile_records}

-- The task as the last write left it.
abbrev pub current : HttpTask → Trace HttpTask → HttpTask
current initial [] = initial
current initial (updated t ∷ tr) = t
current initial (status_updated t ∷ tr) = t
current initial (sent r ∷ tr) = current initial tr

-- A server that accepts every write of the status and hands out the task as it was written last, and an
-- endpoint that takes every request and answers it with a body.
pub record Serves (env : Environment HttpTask) (key : NamespacedName) (initial : HttpTask)
    : Type 0 where
  pub holds : (tr : Trace HttpTask) → env.get tr key ≡ found (current initial tr)
  pub stores : (tr : Trace HttpTask) (t : HttpTask) → env.update_status tr t ≡ ok t
  pub checks : (m u : String) → env.check_request m u ≡ none
  pub answers :
      (tr : Trace HttpTask) (req : HttpRequest)
      → (code : ℤ) × (text : String) × (env.send tr req
          ≡ ok (record { status_code = code; body = ok text }))
        × (text ≢ "")

module _ (codec : Codec) (lib : Helpers) (env : Environment HttpTask) where
  record_response-same :
      (task : HttpTask) (hash : String) (code : ℤ) (text : String)
      → ((record_response codec lib env task hash code text).meta ≡ task.meta)
        × ((record_response codec lib env task hash code text).spec ≡ task.spec)
  unfolding record_response
  record_response-same task hash code text = elim (Bool-cases (is_success codec lib env code)) [
    | inl e ↦ rw e (refl, refl)
    | inr e ↦ rw e (refl, refl)
  ]

  -- The trace after a number of reconciles.
  abbrev pub repeated : NamespacedName → ℕ → Trace HttpTask → Trace HttpTask
  repeated key zero tr = tr
  repeated key (suc n) tr = repeated key n (reconcile codec lib env key tr).1

  -- Where a reconcile does nothing, none does.
  repeated_still :
      (key : NamespacedName) (n : ℕ) (tr : Trace HttpTask)
      → (reconcile codec lib env key tr).1 ≡ tr
      → repeated key n tr ≡ tr
  repeated_still key zero tr e = refl
  repeated_still key (suc n) tr e = ap (repeated key n) e ∙ repeated_still key n tr e

  module _ (key : NamespacedName) (initial : HttpTask) (start body : Body)
      (serves : Serves env key initial) (live : initial.meta.deleting ≡ false)
      (protected : lib.contains_finalizer initial.meta.finalizers task_in_use_finalizer ≡ true)
      (has_input : initial_body codec initial.spec.input ≡ some start)
      (steady : (tr : Trace HttpTask)
        → merge_inputs codec env initial.meta.namespace tr initial.spec.input_from start
          ≡ merged body) where
    -- A task that differs from the first in its status alone, and has the body's answer recorded.
    settled_at :
        (tr : Trace HttpTask) (before : HttpTask) (code : ℤ) (text : String)
        → before.meta ≡ initial.meta
        → before.spec ≡ initial.spec
        → text ≢ ""
        → current initial tr
          ≡ record_response codec lib env before (hash_of codec lib env body) code text
        → (reconcile codec lib env key tr).1 ≡ tr
    settled_at tr before code text same_meta same_spec ne held =
        let task = record_response codec lib env before (hash_of codec lib env body) code text in
        let kept = record_response-same before (hash_of codec lib env body) code text in
        let meta : task.meta ≡ initial.meta = kept.0 ∙ same_meta in
        let spec : task.spec ≡ initial.spec = kept.1 ∙ same_spec in
        ap (λ (r : Run). r.1)
          (recorded_not_repeated codec lib env key tr before start body code text ne
            (serves.holds tr ∙ ap found held) (ap (λ (m : ObjectMeta). m.deleting) meta ∙ live)
            (ap (λ (m : ObjectMeta). lib.contains_finalizer m.finalizers task_in_use_finalizer) meta
              ∙ protected)
            (ap (λ (s : HttpTaskSpec). initial_body codec s.input) spec ∙ has_input)
            (ap
                (λ (m : ObjectMeta).
                  merge_inputs codec env m.namespace tr task.spec.input_from start)
                meta
              ∙ ap
                  (λ (s : HttpTaskSpec).
                    merge_inputs codec env initial.meta.namespace tr s.input_from start)
                  spec
              ∙ steady tr))

    -- The case of a task that has the body's answer already.
    unchanged :
        is_current codec lib env initial body ≡ true
        → reconcile codec lib env key [] ≡ (Finished.returned done, [])
    unchanged same =
        reaches_test codec lib env key [] initial start body (serves.holds []) live protected
          has_input (steady [])
        ∙ unfold call_if_changed in rw same refl

    -- The case of one that does not: the call of the first reconcile is the last.
    called :
        is_current codec lib env initial body ≡ false
        → (sends (reconcile codec lib env key []).1 ≡ 1)
          × ((n : ℕ) → repeated key (suc n) [] ≡ (reconcile codec lib env key []).1)
    called changed =
        let marked = marks codec lib env initial in
        let req = request_for codec lib env marked (codec.encode (body_json body)) in
        let (code, text, got, ne) = serves.answers (status_updated marked ∷ []) req in
        let recorded =
          record_response codec lib env marked (hash_of codec lib env body) code text in
        let first : (reconcile codec lib env key []).1
            ≡ status_updated recorded ∷ sent req ∷ status_updated marked ∷ [] =
          reconcile_records codec lib env key [] initial marked start body (serves.holds []) live
            protected has_input (steady []) changed (serves.stores [] marked) serves.checks
          ∙ ap
              (λ r.
                status_updated (answered codec lib env marked (hash_of codec lib env body) r)
                ∷ sent req
                ∷ status_updated marked
                ∷ [])
              got in
        (
          ap sends first,
          λ n.
              ap (repeated key n) first
              ∙ repeated_still key n _ (settled_at _ marked code text refl refl ne refl)
              ∙ sym first,
        )

    -- However often a live, protected task is reconciled, its sources standing still, the endpoint
    -- answering with a body and the server holding what was written, the first reconcile is the last
    -- that does anything: it calls the endpoint at most once, and every later one leaves all as it is.
    pub repeated-settles :
        (n : ℕ)
        → (repeated key (suc n) [] ≡ (reconcile codec lib env key []).1)
          × (sends (repeated key (suc n) []) ≤ 1)
    repeated-settles n = elim (Bool-cases (is_current codec lib env initial body)) [
      | inl same ↦
          let idle = ap (λ (r : Run). r.1) (unchanged same) in
          let all_idle = repeated_still key (suc n) [] idle in
          (all_idle ∙ sym idle, rw all_idle (omega arith))
      | inr changed ↦ let c = called changed in (c.1 n, rw (c.1 n) (omega (arith, c.0)))
    ]

-- ===== src/Controller/HttpTask/Calls.antt =====
-- How often HTTPTaskReconciler.Reconcile calls the endpoint, and what it writes before a call.
use mathop_operator.Base.{
  ℕ, suc, ◌≤◌, String, ◌≡◌, refl, Bool, true, false, [], ◌∷◌, Option, none, some, arith, Bool-cases,
  inl, inr,
}
use mathop_operator.Base.Int.{ℤ}
use mathop_operator.Base.Text.{◌<>◌}
use mathop_operator.Base.Result.{Result, ok, err}
use mathop_operator.Json.{Codec}
use mathop_operator.Api.{HttpTask}
use mathop_operator.Controller.Platform.{
  NamespacedName, HttpResponse, Fetch, found, not_found, failed, updated, status_updated, sent,
  Trace, Environment, Helpers,
}
use mathop_operator.Controller.HttpTask.{
  Run, with_condition, fail, waiting, after_send, call_endpoint, after_check, after_mark,
  call_if_changed, after_merge, after_input, compute, after_update, ensure_finalizer,
  after_reference_check, handle_deletion, by_deletion, after_get, reconcile, is_current,
  task_in_use_finalizer, HttpRequest,
}
use mathop_operator.Controller.Merge.{Body, Merged, merged, fails, waits, panics}

-- The number of calls in a trace.
abbrev pub sends : Trace HttpTask → ℕ
sends [] = 0
sends (sent r ∷ tr) = suc (sends tr)
sends (_ ∷ tr) = sends tr

module _ (codec : Codec) (lib : Helpers) (env : Environment HttpTask) where
  -- The trace begins with the write that marks a task as running.
  abbrev pub StartsRunning : Trace HttpTask → Type 0
  StartsRunning (status_updated t ∷ tr) =
      (u : HttpTask) × (t
        ≡ with_condition codec lib env u "False" "Running" ("calling " <> u.spec.endpoint))
  StartsRunning _ = ⊥

  -- Right before every call stands that write.
  abbrev pub IsMarked : Trace HttpTask → Type 0
  IsMarked [] = Unit
  IsMarked (sent r ∷ tr) = StartsRunning tr × IsMarked tr
  IsMarked (updated t ∷ tr) = IsMarked tr
  IsMarked (status_updated t ∷ tr) = IsMarked tr

  -- At most one call more, and every call marked.
  abbrev Grows : Trace HttpTask → Run → Type 0
  Grows tr r = (sends r.1 ≤ suc (sends tr)) × (IsMarked tr → IsMarked r.1)

  -- No call more, and every call marked.
  abbrev Stays : Trace HttpTask → Run → Type 0
  Stays tr r = (sends r.1 ≡ sends tr) × (IsMarked tr → IsMarked r.1)

  Stays→Grows : (tr : Trace HttpTask) (r : Run) → Stays tr r → Grows tr r
  Stays→Grows tr r h = (omega (arith, h.0), h.1)

  fail-Stays :
      (task : HttpTask) (reason msg : String) (tr : Trace HttpTask)
      → Stays tr (fail codec lib env task reason msg tr)
  unfolding fail
  fail-Stays task reason msg tr = (refl, λ m. m)

  waiting-Stays :
      (task : HttpTask) (reason msg : String) (tr : Trace HttpTask)
      → Stays tr (waiting codec lib env task reason msg tr)
  unfolding waiting
  waiting-Stays task reason msg tr = (refl, λ m. m)

  after_body-Stays :
      (task : HttpTask) (hash : String) (code : ℤ) (body : Result String) (tr : Trace HttpTask)
      → Stays tr
          (after_send codec lib env task hash (ok (record { status_code = code; body = body })) tr)
  unfolding after_send fail
  after_body-Stays task hash code (err e) tr = (refl, λ m. m)
  after_body-Stays task hash code (ok text) tr = (refl, λ m. m)

  after_send-Stays :
      (task : HttpTask) (hash : String) (r : Result HttpResponse) (tr : Trace HttpTask)
      → Stays tr (after_send codec lib env task hash r tr)
  unfolding after_send fail
  after_send-Stays task hash (err e) tr = (refl, λ m. m)
  after_send-Stays task hash (ok resp) tr = after_body-Stays task hash resp.status_code resp.body tr

  after_check-Grows :
      (task : HttpTask) (req : HttpRequest) (hash : String) (o : Option String)
      (tr : Trace HttpTask)
      → StartsRunning tr
      → Grows tr (after_check codec lib env task req hash o tr)
  unfolding after_check fail
  after_check-Grows task req hash (some e) tr starts = (omega arith, λ m. m)
  after_check-Grows task req hash none tr starts =
      let s = after_send-Stays task hash (env.send tr req) (sent req ∷ tr) in
      (omega (arith, s.0), λ m. s.1 (starts, m))

  call_endpoint-Grows :
      (task : HttpTask) (body hash : String) (tr : Trace HttpTask)
      → StartsRunning tr
      → Grows tr (call_endpoint codec lib env task body hash tr)
  unfolding call_endpoint
  call_endpoint-Grows task body hash tr starts = after_check-Grows task _ hash _ tr starts

  after_mark-Grows :
      (task : HttpTask) (body hash : String) (r : Result HttpTask) (tr : Trace HttpTask)
      → Grows tr (
          after_mark codec lib env body hash r (
            status_updated (
              with_condition codec lib env task "False" "Running"
                ("calling " <> task.spec.endpoint))
            ∷ tr))
  unfolding after_mark
  after_mark-Grows task body hash (err e) tr = (omega arith, λ m. m)
  after_mark-Grows task body hash (ok task') tr =
      call_endpoint-Grows task' body hash (status_updated _ ∷ tr) (task, refl)

  call_if_changed-Grows :
      (task : HttpTask) (body : Body) (tr : Trace HttpTask)
      → Grows tr (call_if_changed codec lib env task body tr)
  unfolding call_if_changed
  call_if_changed-Grows task body tr = elim (Bool-cases (is_current codec lib env task body)) [
    | inl same ↦ rw same (omega arith, λ m. m)
    | inr changed ↦ rw changed (after_mark-Grows task _ _ (env.update_status tr _) tr)
  ]

  after_merge-Grows :
      (task : HttpTask) (m : Merged) (tr : Trace HttpTask)
      → Grows tr (after_merge codec lib env task m tr)
  unfolding after_merge fail waiting
  after_merge-Grows task (merged body) tr = call_if_changed-Grows task body tr
  after_merge-Grows task (fails reason msg) tr = (omega arith, λ h. h)
  after_merge-Grows task (waits reason msg) tr = (omega arith, λ h. h)
  after_merge-Grows task panics tr = (omega arith, λ h. h)

  after_input-Grows :
      (task : HttpTask) (o : Option Body) (tr : Trace HttpTask)
      → Grows tr (after_input codec lib env task o tr)
  unfolding after_input fail
  after_input-Grows task none tr = (omega arith, λ h. h)
  after_input-Grows task (some body) tr = after_merge-Grows task _ tr

  compute-Grows : (task : HttpTask) (tr : Trace HttpTask) → Grows tr (compute codec lib env task tr)
  unfolding compute
  compute-Grows task tr = after_input-Grows task _ tr

  after_update-Grows :
      (task : HttpTask) (r : Result HttpTask) (tr : Trace HttpTask)
      → Grows tr (after_update codec lib env r (updated task ∷ tr))
  after_update-Grows task (err e) tr = (omega arith, λ h. h)
  after_update-Grows task (ok task') tr = compute-Grows task' (updated task ∷ tr)

  ensure_finalizer-Grows :
      (task : HttpTask) (tr : Trace HttpTask) → Grows tr (ensure_finalizer codec lib env task tr)
  unfolding ensure_finalizer
  ensure_finalizer-Grows task tr =
      elim (Bool-cases (lib.contains_finalizer task.meta.finalizers task_in_use_finalizer)) [
        | inl there ↦ rw there (compute-Grows task tr)
        | inr absent ↦ rw absent (after_update-Grows _ (env.update tr _) tr)
      ]

  reference_check-Stays :
      (task : HttpTask) (r : Result Bool) (tr : Trace HttpTask)
      → Stays tr (after_reference_check codec lib env task r tr)
  unfolding after_reference_check
  reference_check-Stays task (err e) tr = (refl, λ h. h)
  reference_check-Stays task (ok true) tr = (refl, λ h. h)
  reference_check-Stays task (ok false) tr = (refl, λ h. h)

  -- A task that is being deleted calls nothing.
  pub handle_deletion-Stays :
      (task : HttpTask) (tr : Trace HttpTask) → Stays tr (handle_deletion codec lib env task tr)
  unfolding handle_deletion
  handle_deletion-Stays task tr =
      elim (Bool-cases (lib.contains_finalizer task.meta.finalizers task_in_use_finalizer)) [
        | inl there ↦ rw there (reference_check-Stays task _ tr)
        | inr absent ↦ rw absent (refl, λ h. h)
      ]

  by_deletion-Grows :
      (deleting : Bool) (task : HttpTask) (tr : Trace HttpTask)
      → Grows tr (by_deletion codec lib env deleting task tr)
  unfolding by_deletion
  by_deletion-Grows true task tr =
      Stays→Grows tr (handle_deletion codec lib env task tr) (handle_deletion-Stays task tr)
  by_deletion-Grows false task tr = ensure_finalizer-Grows task tr

  after_get-Grows :
      (f : Fetch HttpTask) (tr : Trace HttpTask) → Grows tr (after_get codec lib env f tr)
  unfolding after_get
  after_get-Grows not_found tr = (omega arith, λ h. h)
  after_get-Grows (failed e) tr = (omega arith, λ h. h)
  after_get-Grows (found task) tr = by_deletion-Grows task.meta.deleting task tr

  -- Whatever the API server and the endpoint answer, one reconcile makes at most one HTTP call, and
  -- the write that marks the task as running stands right before it.
  pub reconcile_calls :
      (key : NamespacedName) (tr : Trace HttpTask)
      → (sends (reconcile codec lib env key tr).1 ≤ suc (sends tr))
        × (IsMarked tr → IsMarked (reconcile codec lib env key tr).1)
  unfolding reconcile
  reconcile_calls key tr = after_get-Grows (env.get tr key) tr

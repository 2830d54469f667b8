-- ===== src/Function/Answers.antt =====
-- What a call of RunFunction of function-httptask/fn.go answers that gets through to its end.
use mathop_operator.Base.{
  ℕ, String, ◌≡◌, ◌≢◌, refl, ◌↔◌, Bool, true, false, List, ◌∷◌, Option, none, some, arith, length,
  Dict, lookup, lookup-insert, eq-false, ne_of_eq-false, ◌||◌, ◌&&◌, not, ◌==◌, Bool-cases, inl,
  inr, sym,
}
use mathop_operator.Base.Result.{Result, ok, err}
use mathop_operator.Json.{Items, Codec}
use mathop_operator.Function.Types.{
  TaskSpec, Input, DisposableRequest, ObservedResource, Composite, RunRequest, Response,
  CompositeStatus, Condition,
}
use mathop_operator.Function.Loop.{LoopState, Setting, visit_all, overall_phase}
use mathop_operator.Function.Statuses.{some_phase}
use mathop_operator.Function.Phases.{
  name_phase, succeeded_not_failed, every_phase, overall_phase-phase_of, overall_phase_iff,
}
use mathop_operator.Function.Run.{
  condition_for, setting_for, provider_or_default, run_tasks, conclude, set_status, finish,
}
use mathop_operator.Function.Report.{to_unstructured_slice, with_notify, notify_key, add_request}

holds_of_phase :
    (f d : Bool) (n : ℕ)
    → (d ≡ true → f ≡ false)
    → ((condition_for (name_phase f d) n).holds ≡ true) ↔ (d ≡ true)
unfolding condition_for
holds_of_phase true true n h = ((λ _. refl), (λ _. absurd (cc (h refl))))
holds_of_phase true false n h = ((λ e. cc), (λ e. cc))
holds_of_phase false true n h = ((λ _. refl), (λ _. refl))
holds_of_phase false false n h = ((λ e. cc), (λ e. cc))

failed_of_phase :
    (f d : Bool) (n : ℕ) → ((condition_for (name_phase f d) n).reason ≡ "TaskFailed") ↔ (f ≡ true)
unfolding condition_for
failed_of_phase true d n = ((λ _. refl), (λ _. refl))
failed_of_phase false true n =
    ((λ e. absurd (ne_of_eq-false "Computed" "TaskFailed" refl e)), (λ e. cc))
failed_of_phase false false n =
    ((λ e. absurd (ne_of_eq-false "Running" "TaskFailed" refl e)), (λ e. cc))

-- The condition FunctionSuccess holds exactly if every task has succeeded.
pub condition_holds_iff :
    (w : Setting) (t : TaskSpec) (ts : List TaskSpec) (n : ℕ)
    → ((condition_for (overall_phase (visit_all w (t ∷ ts))) n).holds ≡ true)
      ↔ (every_phase "Succeeded" (visit_all w (t ∷ ts)).statuses ≡ true)
condition_holds_iff w t ts n =
    let statuses = (visit_all w (t ∷ ts)).statuses in
    rw (overall_phase-phase_of w t ts) (
      holds_of_phase (some_phase "Failed" statuses) (every_phase "Succeeded" statuses) n
        (succeeded_not_failed statuses))

-- The condition's reason is TaskFailed exactly if some task has failed.
condition_failed_iff :
    (w : Setting) (t : TaskSpec) (ts : List TaskSpec) (n : ℕ)
    → ((condition_for (overall_phase (visit_all w (t ∷ ts))) n).reason ≡ "TaskFailed")
      ↔ (some_phase "Failed" (visit_all w (t ∷ ts)).statuses ≡ true)
condition_failed_iff w t ts n =
    let statuses = (visit_all w (t ∷ ts)).statuses in
    rw (overall_phase-phase_of w t ts)
      (failed_of_phase (some_phase "Failed" statuses) (every_phase "Succeeded" statuses) n)

-- What a call without a fatal result answers: the SDK took the requests and the status; the requests are
-- those of the loop but for the notification; the status has the composite's uid and the phase that
-- the statuses of the tasks have; the condition is True exactly if every task has succeeded, and its
-- reason is TaskFailed exactly if some task has failed.
pub record Answered (req : RunRequest) (xr : Composite) (s : LoopState) (r : Response)
    : Type 0 where
  pub taken : req.set_desired r.desired ≡ none
  pub requests : (n : String) → n ≢ notify_key → lookup n r.desired ≡ lookup n s.desired
  pub status : CompositeStatus
  pub has_status : r.status ≡ some status
  pub written : req.set_composite status.transaction_id status.phase status.tasks ≡ ok tt
  pub transaction : status.transaction_id ≡ xr.uid
  pub failed : (status.phase ≡ "Failed") ↔ (some_phase "Failed" s.statuses ≡ true)
  pub succeeded : (status.phase ≡ "Succeeded") ↔ (every_phase "Succeeded" s.statuses ≡ true)
  pub condition : Condition
  pub has_condition : r.condition ≡ some condition
  pub holds_iff : (condition.holds ≡ true) ↔ (every_phase "Succeeded" s.statuses ≡ true)
  pub failed_iff : (condition.reason ≡ "TaskFailed") ↔ (some_phase "Failed" s.statuses ≡ true)

-- The notification is the one request that is added.
lookup-add_request :
    (n : String) (o : Result DisposableRequest) (desired : Dict DisposableRequest)
    → n ≢ notify_key
    → lookup n (add_request o desired) ≡ lookup n desired
lookup-add_request n (err e) desired ne = refl
lookup-add_request n (ok nr) desired ne =
    rw (lookup-insert, eq-false notify_key n (λ e. ne (sym e))) refl

lookup-with_notify :
    (codec : Codec) (xr : Composite) (phase : String) (s : LoopState) (provider n : String)
    → n ≢ notify_key
    → lookup n (with_notify codec xr phase s provider) ≡ lookup n s.desired
unfolding with_notify
lookup-with_notify codec xr phase s provider n ne =
    elim (Bool-cases
      (((phase == "Succeeded") || (phase == "Failed")) && not (xr.notify_url == ""))) [
        | inl e ↦ rw e (lookup-add_request n _ s.desired ne)
        | inr e ↦ rw e refl
      ]

module _ (codec : Codec) (req : RunRequest) (i : Input) (xr : Composite)
    (observed : Dict ObservedResource) (t : TaskSpec) (ts : List TaskSpec) where
  abbrev loop : LoopState
  loop = visit_all (setting_for codec i observed) (t ∷ ts)

  abbrev phase : String
  phase = overall_phase loop

  abbrev desired : Dict DisposableRequest
  desired = with_notify codec xr phase loop (provider_or_default i)

  abbrev items : Items
  items = to_unstructured_slice codec loop.heap loop.statuses

  conclude-Answered :
      (r : Result (Unit {0}))
      → req.set_desired desired ≡ none
      → req.set_composite xr.uid phase items ≡ r
      → (conclude req xr (length (t ∷ ts)) phase items desired r).fatal ≡ none
      → Answered req xr loop (conclude req xr (length (t ∷ ts)) phase items desired r)
  unfolding conclude
  conclude-Answered (err e) taken written h = absurd (ground arith)
  conclude-Answered (ok u) taken written h =
      let w = setting_for codec i observed in
      let phases = overall_phase_iff w t ts in
      record {
        taken = taken;
        requests = λ n ne. lookup-with_notify codec xr phase loop (provider_or_default i) n ne;
        status = record { transaction_id = xr.uid; phase = phase; tasks = items };
        has_status = refl;
        written = written;
        transaction = refl;
        failed = phases.0;
        succeeded = phases.1;
        condition = condition_for phase (length (t ∷ ts));
        has_condition = refl;
        holds_iff = condition_holds_iff w t ts (length (t ∷ ts));
        failed_iff = condition_failed_iff w t ts (length (t ∷ ts));
      }

  set_status-Answered :
      (r : Result (Unit {0}))
      → req.set_desired desired ≡ none
      → (set_status req xr (length (t ∷ ts)) phase items desired r).fatal ≡ none
      → Answered req xr loop (set_status req xr (length (t ∷ ts)) phase items desired r)
  unfolding set_status
  set_status-Answered (err e) taken h = absurd (ground arith)
  set_status-Answered (ok u) taken h =
      conclude-Answered (req.set_composite xr.uid phase items) taken refl h

  finish-Answered :
      (o : Option (String × Dict DisposableRequest))
      → req.set_desired desired ≡ o
      → (finish req xr (length (t ∷ ts)) phase items desired o).fatal ≡ none
      → Answered req xr loop (finish req xr (length (t ∷ ts)) phase items desired o)
  unfolding finish
  finish-Answered (some (e, partly)) taken h = absurd (ground arith)
  finish-Answered none taken h = set_status-Answered req.desired_composite taken h

  -- A call on a list with a task that ends without a fatal result had its requests and its status taken by
  -- the SDK. Its requests are those of the loop, but for the notification; its status has the
  -- composite's uid, and the phase Failed exactly if some task has failed and Succeeded exactly if
  -- every task has; its condition is True exactly if every task has succeeded, and has the reason
  -- TaskFailed exactly if some task has failed.
  pub run_tasks-Answered :
      (run_tasks codec req i xr observed (t ∷ ts)).fatal ≡ none
      → Answered req xr loop (run_tasks codec req i xr observed (t ∷ ts))
  unfolding run_tasks
  run_tasks-Answered h = finish-Answered (req.set_desired desired) refl h

-- ===== src/Manager/Startup.antt =====
-- The calls that main of cmd/main.go makes, and when it starts the manager.
use mathop_operator.Base.{
  String, Bool, true, false, List, [], ◌∷◌, none, some, ◌≡◌, refl, Option-cases, inl, inr, ◌++◌,
  any, ◌↔◌, ◌⊎◌, subst, sym,
}
use mathop_operator.Controller.Setup.{
  build, setup_add, setup_square, setup_subtract, setup_workflow, setup_http_task, index_squares,
  source_ref_index_key, index_tasks, task_source_ref_index_key, index_workflows,
  transaction_index_key, workflow_index_values,
}
use mathop_operator.Controller.Index.{task_index_values}
use mathop_operator.Controller.Square.{square_index_values}
use mathop_operator.Manager.{
  Flags, Call, get_config, new_manager, add_status_server, add_healthz_check, add_readyz_check,
  manager_options, register, start, Runtime, Exit, returned, exit_1, call_all, main, Step,
  run_steps, setup_steps,
}

-- A call is among those made.
abbrev pub Made : Call → List Call → Type 0
Made c [] = ⊥
Made c (d ∷ ds) = (c ≡ d) ⊎ Made c ds

-- A call with the message of an exit after its error.
abbrev pub Planned : Type 0
Planned = List (String × Call)

abbrev pub with_message : String → List Call → Planned
with_message msg [] = []
with_message msg (c ∷ cs) = (msg, c) ∷ with_message msg cs

abbrev pub plan_of : List Step → Planned
plan_of [] = []
plan_of ((msg, cs) ∷ steps) = with_message msg cs ++ plan_of steps

abbrev pub is_start : Call → Bool
is_start start = true
is_start _ = false

abbrev controller : String → List String → List String → String → Call
controller kind owns watches name =
    register (build (record { for_kind = kind; owns = owns; watches = watches; name = name }))

-- What has to be in place before the manager may start, in order.
abbrev pub needed : Flags → List Call
needed f =
    get_config
    ∷ new_manager (manager_options f)
    ∷ controller "Add" [] [] "add"
    ∷ register (index_squares ".spec.sourceRef" square_index_values)
    ∷ controller "Square" [] [] "square"
    ∷ controller "Subtract" [] [] "subtract"
    ∷ register (index_workflows ".status.transactionID" workflow_index_values)
    ∷ controller "Workflow" ("HTTPTask" ∷ []) [] "workflow"
    ∷ add_status_server ":8090"
    ∷ register (index_tasks ".spec.inputFrom.sourceRef" task_index_values)
    ∷ controller "HTTPTask" [] ("HTTPTask" ∷ []) "httptask"
    ∷ add_healthz_check "healthz"
    ∷ add_readyz_check "readyz"
    ∷ []

module _ (runtime : Runtime) where
  -- A plan that is carried out up to the first call that fails: how it ends and the calls made.
  abbrev pub Carried : Planned → List Call → Exit × List Call → Type 0
  Carried [] log r = r ≡ (returned, log)
  Carried ((msg, c) ∷ plan) log r =
      ((runtime log c ≡ none) × Carried plan (c ∷ log) r)
      ⊎ ((e : String) × (runtime log c ≡ some e) × (r ≡ (exit_1 msg e, c ∷ log)))

  -- Every call of a plan is accepted.
  abbrev pub Accepted : Planned → List Call → Type 0
  Accepted [] log = Unit
  Accepted ((msg, c) ∷ plan) log = (runtime log c ≡ none) × Accepted plan (c ∷ log)

  run_steps-Carried :
      (msg : String) (cs : List Call) (steps : List Step)
      → ((log : List Call) → Carried (plan_of steps) log (run_steps runtime steps log))
      → (log : List Call)
      → Carried (plan_of ((msg, cs) ∷ steps)) log (run_steps runtime ((msg, cs) ∷ steps) log)
  unfolding run_steps call_all
  run_steps-Carried msg [] steps h log = h log
  run_steps-Carried msg (c ∷ cs) steps h log = elim (Option-cases (runtime log c)) [
    | inl e ↦ inl (e, rw e (run_steps-Carried msg cs steps h (c ∷ log)))
    | inr (m, e) ↦ inr (m, e, rw e refl)
  ]

  steps-Carried :
      (steps : List Step) (log : List Call)
      → Carried (plan_of steps) log (run_steps runtime steps log)
  unfolding run_steps
  steps-Carried [] log = refl
  steps-Carried ((msg, cs) ∷ steps) log = run_steps-Carried msg cs steps (steps-Carried steps) log

  -- main makes the calls of its steps in order, Start the last, up to the first that fails: it exits
  -- with the message of that step and the error, or returns once all were accepted.
  pub main-Carried :
      (f : Flags)
      → Carried
          (plan_of (setup_steps f ++ ("Failed to run manager", start ∷ []) ∷ []))
          []
          (main runtime f)
  unfolding main
  main-Carried f = steps-Carried (setup_steps f ++ ("Failed to run manager", start ∷ []) ∷ []) []

  -- No call of a plan is Start.
  abbrev StartsNothing : Planned → Type 0
  StartsNothing [] = Unit
  StartsNothing ((msg, c) ∷ plan) = (is_start c ≡ false) × StartsNothing plan

  -- The calls of a plan in front of those made before.
  abbrev pub made_after : Planned → List Call → List Call
  made_after [] log = log
  made_after ((msg, c) ∷ plan) log = made_after plan (c ∷ log)

  Carried-starts :
      (msg : String) (plan : Planned) (log : List Call) (r : Exit × List Call)
      → Carried (plan ++ (msg, start) ∷ []) log r
      → Accepted plan log
      → r.1 ≡ start ∷ made_after plan log
  Carried-starts msg [] log r (inl (e, p)) h = rw p refl
  Carried-starts msg [] log r (inr (m, e, p)) h = rw p refl
  Carried-starts msg ((msg', c) ∷ plan) log r (inl (e, p)) h =
      Carried-starts msg plan (c ∷ log) r p h.1
  Carried-starts msg ((msg', c) ∷ plan) log r (inr (m, e, p)) h = let accepted = h.0 in cc

  started-Accepted :
      (msg : String) (plan : Planned) (log : List Call) (r : Exit × List Call)
      → StartsNothing plan
      → any is_start log ≡ false
      → Carried (plan ++ (msg, start) ∷ []) log r
      → any is_start r.1 ≡ true
      → Accepted plan log
  started-Accepted msg [] log r ns before p s = tt
  started-Accepted msg ((msg', c) ∷ plan) log r ns before (inl (e, p)) s =
      (e, started-Accepted msg plan (c ∷ log) r ns.1 (rw (ns.0, before) refl) p s)
  started-Accepted msg ((msg', c) ∷ plan) log r ns before (inr (m, e, p)) s =
      let none_made : any is_start r.1 ≡ false = rw (p, ns.0, before) refl in cc

  -- Each call of a list is accepted, after those before it.
  abbrev pub AllAccepted : List Call → List Call → Type 0
  AllAccepted [] log = Unit
  AllAccepted (c ∷ cs) log = (runtime log c ≡ none) × AllAccepted cs (c ∷ log)

  plan_starts_iff :
      (f : Flags) → (any is_start (main runtime f).1 ≡ true) ↔ Accepted (plan_of (setup_steps f)) []
  unfolding setup_steps setup_add setup_square setup_subtract setup_workflow setup_http_task
  plan_starts_iff f = (
    started-Accepted "Failed to run manager" (plan_of (setup_steps f)) [] (main runtime f)
        (
          refl,
          (
            refl,
            (
              refl,
              (refl, (refl, (refl, (refl, (refl, (refl, (refl, (refl, (refl, (refl, tt)))))))))),
            ),
          ),
        )
        refl (main-Carried f),
    (λ h.
        rw
          (Carried-starts "Failed to run manager" (plan_of (setup_steps f)) [] (main runtime f)
            (main-Carried f) h)
          refl),
  )

  -- main starts the manager exactly if the runtime accepts, one after the other, each of the thirteen
  -- calls that set it up: the configuration, the manager with its options, the controllers of the five
  -- kinds with the three indexes, the status server and the two checks.
  pub starts_iff :
      (f : Flags) → (any is_start (main runtime f).1 ≡ true) ↔ AllAccepted (needed f) []
  unfolding setup_steps setup_add setup_square setup_subtract setup_workflow setup_http_task
  starts_iff f = plan_starts_iff f

  started_log :
      (f : Flags)
      → any is_start (main runtime f).1 ≡ true
      → (main runtime f).1 ≡ start ∷ made_after (plan_of (setup_steps f)) []
  unfolding setup_steps
  started_log f s =
      Carried-starts "Failed to run manager" (plan_of (setup_steps f)) [] (main runtime f)
        (main-Carried f) ((plan_starts_iff f).0 s)

  -- Where main starts the manager, it has registered the index functions under whose keys the
  -- reconcilers and the status server list Squares, HTTPTasks and Workflows.
  pub indexed_when_started :
      (f : Flags)
      → any is_start (main runtime f).1 ≡ true
      → Made (register (index_squares source_ref_index_key square_index_values)) (main runtime f).1
        × Made
            (register (index_tasks task_source_ref_index_key task_index_values))
            (main runtime f).1
        × Made
            (register (index_workflows transaction_index_key workflow_index_values))
            (main runtime f).1
  unfolding setup_steps setup_add setup_square setup_subtract setup_workflow setup_http_task
  indexed_when_started f s =
      subst
        (λ l.
          Made (register (index_squares source_ref_index_key square_index_values)) l
          × Made (register (index_tasks task_source_ref_index_key task_index_values)) l
          × Made (register (index_workflows transaction_index_key workflow_index_values)) l)
        (sym (started_log f s))
        (
          inr (inr (inr (inr (inr (inr (inr (inr (inr (inr (inl refl)))))))))),
          inr (inr (inr (inr (inl refl)))),
          inr (inr (inr (inr (inr (inr (inr (inl refl))))))),
        )

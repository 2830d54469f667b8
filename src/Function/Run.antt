-- ===== src/Function/Run.antt =====
-- RunFunction of function-httptask/fn.go, cut at the calls of the SDK that can fail.
use mathop_operator.Base.{
  ℕ, String, true, false, List, [], ◌∷◌, Option, none, some, ◌==◌, length, Dict, if◌then◌else◌,
}
use mathop_operator.Base.Text.{◌<>◌, show_ℕ}
use mathop_operator.Base.Result.{Result, ok, err}
use mathop_operator.Json.{Json, Items, Codec}
use mathop_operator.Function.Types.{
  TaskSpec, Input, DisposableRequest, ObservedResource, Composite, RunRequest, Condition, Response,
}
use mathop_operator.Function.Loop.{Setting, visit_all, overall_phase}
use mathop_operator.Function.Report.{to_unstructured_slice, with_notify}

-- The switch on the phase.
unfoldable pub condition_for : String → ℕ → Condition
condition_for phase count =
    if phase == "Failed"
    then record {
      holds = false;
      reason = "TaskFailed";
      message = "one or more tasks failed, see status.tasks";
    }
    else if phase == "Running"
    then record { holds = false; reason = "Running"; message = "workflow still in progress" }
    else record {
      holds = true;
      reason = "Computed";
      message = "ran " <> show_ℕ count <> " task(s) successfully";
    }

-- response.Fatal after errors.Wrapf.
abbrev pub wrapped : String → String → Response
wrapped what e = record {
  fatal = some (what <> ": " <> e);
  desired = [];
  status = none;
  condition = none;
}

-- After response.SetDesiredCompositeResource.
unfoldable pub conclude :
    RunRequest
    → Composite
    → ℕ
    → String
    → Items
    → Dict DisposableRequest
    → Result (Unit {0})
    → Response
unfolding condition_for
conclude req xr count phase tasks desired (err e) =
    record (wrapped "cannot set desired composite resource" e) { desired = desired }
conclude req xr count phase tasks desired (ok _) = record {
  fatal = none;
  desired = desired;
  status = some (record { transaction_id = xr.uid; phase = phase; tasks = tasks });
  condition = some (condition_for phase count);
}

-- After request.GetDesiredCompositeResource.
unfoldable pub set_status :
    RunRequest
    → Composite
    → ℕ
    → String
    → Items
    → Dict DisposableRequest
    → Result (Unit {0})
    → Response
unfolding conclude
set_status req xr count phase tasks desired (err e) =
    record (wrapped "cannot get desired composite resource" e) { desired = desired }
set_status req xr count phase tasks desired (ok _) =
    conclude req xr count phase tasks desired (req.set_composite xr.uid phase tasks)

-- After response.SetDesiredComposedResources.
unfoldable pub finish :
    RunRequest
    → Composite
    → ℕ
    → String
    → Items
    → Dict DisposableRequest
    → Option (String × Dict DisposableRequest)
    → Response
unfolding set_status
finish req xr count phase tasks desired (some (e, partly)) =
    record (wrapped "cannot set desired composed resources" e) { desired = partly }
finish req xr count phase tasks desired none =
    set_status req xr count phase tasks desired req.desired_composite

abbrev pub provider_or_default : Input → String
provider_or_default i = if i.provider_config_name == "" then "default" else i.provider_config_name

abbrev pub setting_for : Codec → Input → Dict ObservedResource → Setting
setting_for codec i observed = record {
  codec = codec;
  default_headers = i.default_headers;
  provider_config = provider_or_default i;
  observed = observed;
}

-- The loop over the decoded tasks, and all that follows it.
unfoldable pub run_tasks :
    Codec → RunRequest → Input → Composite → Dict ObservedResource → List TaskSpec → Response
unfolding finish with_notify visit_all overall_phase to_unstructured_slice
run_tasks codec req i xr observed tasks =
    let s = visit_all (setting_for codec i observed) tasks in
    let phase = overall_phase s in
    let desired = with_notify codec xr phase s (provider_or_default i) in
    finish req xr (length tasks) phase (to_unstructured_slice codec s.heap s.statuses) desired
      (req.set_desired desired)

-- After request.GetObservedComposedResources.
unfoldable pub run_observed :
    Codec
    → RunRequest
    → Input
    → Composite
    → List TaskSpec
    → Result (Dict ObservedResource)
    → Response
unfolding run_tasks
run_observed codec req i xr tasks (err e) = wrapped "cannot get observed composed resources" e
run_observed codec req i xr tasks (ok observed) = run_tasks codec req i xr observed tasks

-- After json.Unmarshal of the tasks.
unfoldable pub run_decoded :
    Codec → RunRequest → Input → Composite → Result (List TaskSpec) → Response
unfolding run_observed
run_decoded codec req i xr (err e) = wrapped "spec.tasks does not match the expected shape" e
run_decoded codec req i xr (ok tasks) = run_observed codec req i xr tasks req.observed

abbrev no_tasks : Response
no_tasks = record {
  fatal = some "spec.tasks must contain at least one task";
  desired = [];
  status = none;
  condition = none;
}

-- After unstructured.NestedSlice of spec.tasks.
unfoldable pub run_raw : Codec → RunRequest → Input → Composite → Option (List Json) → Response
unfolding run_decoded
run_raw codec req i xr none = no_tasks
run_raw codec req i xr (some []) = no_tasks
run_raw codec req i xr (some (j ∷ js)) = run_decoded codec req i xr (req.decode_tasks (j ∷ js))

-- After request.GetObservedCompositeResource.
unfoldable pub run_composite : Codec → RunRequest → Input → Result Composite → Response
unfolding run_raw
run_composite codec req i (err e) = wrapped "cannot get observed composite resource" e
run_composite codec req i (ok xr) = run_raw codec req i xr xr.raw_tasks

-- After request.GetInput.
unfoldable pub run_input : Codec → RunRequest → Result Input → Response
unfolding run_composite
run_input codec req (err e) = wrapped "cannot get Function input" e
run_input codec req (ok i) = run_composite codec req i req.composite

-- RunFunction
unfoldable pub run_function : Codec → RunRequest → Response
unfolding run_input
run_function codec req = run_input codec req req.input

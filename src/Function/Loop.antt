-- ===== src/Function/Loop.antt =====
-- The loop over the tasks in RunFunction of function-httptask/fn.go, with depsReady and allDone.
use mathop_operator.Base.{
  String, Bool, true, false, ◌&&◌, List, [], ◌∷◌, ◌++◌, Option, none, some, ◌==◌, any, all,
  contains, for_each, length, ltb, Dict, lookup, insert, has_key, if◌then◌else◌,
}
use mathop_operator.Base.Result.{Result, ok, err}
use mathop_operator.Json.{Codec}
use mathop_operator.Function.Heap.{Heap}
use mathop_operator.Function.Types.{
  FieldMapping, TaskSpec, TaskStatus, DisposableRequest, ObservedResource,
}
use mathop_operator.Function.Request.{Outputs, build_disposable_request}
use mathop_operator.Function.Observed.{bare_status, task_status_from_observed}

-- The variables that the loop changes, and the heap. `failed_tasks` holds the names that map to true.
pub record LoopState : Type 0 where
  pub heap : Heap
  pub desired : Dict DisposableRequest
  pub outputs : Outputs
  pub failed_tasks : List String
  pub overall_failed : Bool
  pub statuses : List TaskStatus

abbrev pub start : LoopState
start = record {
  heap = [];
  desired = [];
  outputs = [];
  failed_tasks = [];
  overall_failed = false;
  statuses = [];
}

-- The arguments that no round changes.
pub record Setting : Type 0 where
  pub codec : Codec
  pub default_headers : Dict String
  pub provider_config : String
  pub observed : Dict ObservedResource

-- depFailed: one of the task's own sources has failed.
unfoldable pub dep_failed : TaskSpec → List String → Bool
dep_failed task failed = any (λ (m : FieldMapping). contains m.source_task failed) task.input_from

-- depsReady
unfoldable pub deps_ready : TaskSpec → Outputs → Bool
deps_ready task outputs = all (λ (m : FieldMapping). has_key m.source_task outputs) task.input_from

-- allDone
unfoldable pub all_done : List TaskStatus → Bool
all_done statuses =
    all (λ (s : TaskStatus). s.phase == "Succeeded") statuses && ltb 0 (length statuses)

abbrev pub report : TaskStatus → LoopState → LoopState
report status s = record s { statuses = s.statuses ++ status ∷ [] }

-- The branch that both builds share: the task has failed with the error's text.
abbrev pub fail_task : TaskSpec → String → LoopState → LoopState
fail_task task e s = record s {
  failed_tasks = task.name ∷ s.failed_tasks;
  overall_failed = true;
  statuses = s.statuses ++ record (bare_status task.name "Failed") { error = e } ∷ [];
}

abbrev pub desire : TaskSpec → DisposableRequest → LoopState → LoopState
desire task dr s = record s { desired = insert task.name dr s.desired }

-- What the status of an existing resource changes.
unfoldable pub settle : TaskSpec → TaskStatus → LoopState → LoopState
settle task status s = record s {
  outputs =
      if status.phase == "Succeeded" then insert task.name status.output s.outputs else s.outputs;
  failed_tasks = if status.phase == "Failed" then task.name ∷ s.failed_tasks else s.failed_tasks;
  overall_failed = if status.phase == "Failed" then true else s.overall_failed;
  statuses = s.statuses ++ status ∷ [];
}

module _ (w : Setting) where
  abbrev pub build : TaskSpec → LoopState → Result DisposableRequest × Heap
  build task s =
      build_disposable_request w.codec task w.default_headers w.provider_config s.outputs s.heap

  -- After a build for a task that has no resource yet.
  unfoldable pub created : TaskSpec → Result DisposableRequest → LoopState → LoopState
  created task (err e) s = fail_task task e s
  created task (ok dr) s = report (bare_status task.name "Pending") (desire task dr s)

  -- After a build for a task whose resource exists.
  unfoldable pub refreshed :
      TaskSpec → ObservedResource → Result DisposableRequest → LoopState → LoopState
  unfolding settle
  refreshed task obs (err e) s = fail_task task e s
  refreshed task obs (ok dr) s =
      let (status, h) = task_status_from_observed w.codec task.name obs s.heap in
      settle task status (desire task dr (record s { heap = h }))

  -- The branches behind the test of the sources.
  unfoldable pub advance : TaskSpec → Option ObservedResource → LoopState → LoopState
  unfolding created refreshed deps_ready
  advance task none s =
      let (dr, h) = build task s in
      if deps_ready task s.outputs
      then created task dr (record s { heap = h })
      else report (bare_status task.name "Pending") s
  advance task (some obs) s =
      let (dr, h) = build task s in refreshed task obs dr (record s { heap = h })

  -- The body of the loop.
  unfoldable pub visit : TaskSpec → LoopState → LoopState
  unfolding advance dep_failed
  visit task s =
      if dep_failed task s.failed_tasks
      then report (bare_status task.name "Skipped") s
      else advance task (lookup task.name w.observed) s

  unfoldable pub visit_all : List TaskSpec → LoopState
  unfolding visit
  visit_all tasks = for_each visit tasks start

-- The phase of the workflow.
unfoldable pub overall_phase : LoopState → String
unfolding all_done
overall_phase s =
    if s.overall_failed then "Failed" else if all_done s.statuses then "Succeeded" else "Running"

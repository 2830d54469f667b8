-- ===== src/Controller/Workflow/Composed.antt =====
-- A whole Workflow, of internal/controller/workflow_controller.go, over children that are settled.
use mathop_operator.Base.{String, Bool, ◌≡◌, List, map, if◌then◌else◌, all}
use mathop_operator.Base.Int.{ℤ}
use mathop_operator.Base.Result.{Result, ok}
use mathop_operator.Api.{HttpTask, Workflow, WorkflowTaskSpec, WorkflowTaskStatus}
use mathop_operator.Controller.Platform.{NamespacedName, Helpers}
use mathop_operator.Controller.Workflow.{Environment, with_ids, status_of_child, child_key}
use mathop_operator.Controller.Workflow.Standing.{Serves}
use mathop_operator.Controller.Workflow.Children.{reported, is_2xx, SetsReady}
use mathop_operator.Controller.Workflow.Called.{Called}
use mathlib.Core.List.{Memᴰ}
use mathop_operator.Json.{Codec}

module _ (success : WorkflowTaskSpec → Bool) (code : WorkflowTaskSpec → ℤ)
    (text : WorkflowTaskSpec → String) where
  -- The statuses of the steps whose endpoints gave these answers.
  abbrev pub all_reported : List WorkflowTaskSpec → List WorkflowTaskStatus
  all_reported steps = map (λ step. reported step (success step) (code step) (text step)) steps

  module _ (env : Environment) (url : String) (key : NamespacedName) (wf : Workflow)
      (children : NamespacedName → HttpTask) (serves : Serves env key wf (λ k. ok (children k)))
      (settled : (step : WorkflowTaskSpec)
        → Memᴰ step wf.spec.tasks
        → status_of_child step (children (child_key env url (with_ids url wf) step))
          ≡ reported step (success step) (code step) (text step)) where
    abbrev wf' : Workflow
    wf' = with_ids url wf

    abbrev Reports : Workflow → Type 0
    Reports w =
        (w.status.tasks ≡ all_reported wf.spec.tasks)
        × (w.status.phase ≡ (if all success wf.spec.tasks then "Succeeded" else "Failed"))

module _ (codec : Codec) (lib : Helpers) (sets : SetsReady lib) (env : Environment) (url : String)
    (key : NamespacedName) (wf : Workflow) (children : NamespacedName → HttpTask)
    (serves : Serves env key wf (λ k. ok (children k))) (code : WorkflowTaskSpec → ℤ)
    (text : WorkflowTaskSpec → String)
    (called : (step : WorkflowTaskSpec)
      → Memᴰ step wf.spec.tasks
      → Called codec lib
          (with_ids url wf)
          step
          (children (child_key env url (with_ids url wf) step))
          (code step)
          (text step)) where
  -- The status of each step has the code and the text of the answer, and the phase is Succeeded if
  -- every code is one of 2xx, and Failed if some code is not.
  abbrev pub ReportsCalls : Workflow → Type 0
  ReportsCalls w =
      (w.status.tasks
        ≡ map (λ step. reported step (is_2xx (code step)) (code step) (text step)) wf.spec.tasks)
      × (w.status.phase
          ≡ (if all (λ step. is_2xx (code step)) wf.spec.tasks then "Succeeded" else "Failed"))

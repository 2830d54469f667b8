-- ===== src/Controller/Setup.antt =====
-- The SetupWithManager functions of internal/controller, and what they ask of the manager.
use mathop_operator.Base.{String, List, [], ◌∷◌, ◌==◌, if◌then◌else◌}
use mathop_operator.Api.{HttpTask, Square, Workflow}
use mathop_operator.Controller.Index.{task_index_values}
use mathop_operator.Controller.Square.{square_index_values}

-- sourceRefIndexKey, taskSourceRefIndexKey, TransactionIndexKey
abbrev pub source_ref_index_key : String
source_ref_index_key = ".spec.sourceRef"

abbrev pub task_source_ref_index_key : String
task_source_ref_index_key = ".spec.inputFrom.sourceRef"

abbrev pub transaction_index_key : String
transaction_index_key = ".status.transactionID"

-- What a controller is built from: the kinds that it reconciles, that it owns, and whose objects
-- it maps to requests.
pub record ControllerOptions : Type 0 where
  pub for_kind : String
  pub owns : List String
  pub watches : List String
  pub name : String

-- GetFieldIndexer().IndexField for a kind, and Complete or Build of a controller.
pub data Registration : Type 0 where
  index_squares : String → (Square → List String) → Registration
  index_tasks : String → (HttpTask → List String) → Registration
  index_workflows : String → (Workflow → List String) → Registration
  build : ControllerOptions → Registration

-- The function that WorkflowReconciler.SetupWithManager registers for Workflows.
unfoldable pub workflow_index_values : Workflow → List String
workflow_index_values wf =
    if wf.status.transaction_id == "" then [] else wf.status.transaction_id ∷ []

-- The calls that each function makes, in order; it returns the error of the first that fails.
unfoldable pub setup_add : List Registration
setup_add = build (record { for_kind = "Add"; owns = []; watches = []; name = "add" }) ∷ []

unfoldable pub setup_subtract : List Registration
setup_subtract =
    build (record { for_kind = "Subtract"; owns = []; watches = []; name = "subtract" }) ∷ []

unfoldable pub setup_square : List Registration
setup_square =
    index_squares source_ref_index_key square_index_values
    ∷ build (record { for_kind = "Square"; owns = []; watches = []; name = "square" })
    ∷ []

unfoldable pub setup_workflow : List Registration
setup_workflow =
    index_workflows transaction_index_key workflow_index_values
    ∷ build
        (record { for_kind = "Workflow"; owns = "HTTPTask" ∷ []; watches = []; name = "workflow" })
    ∷ []

unfoldable pub setup_http_task : List Registration
setup_http_task =
    index_tasks task_source_ref_index_key task_index_values
    ∷ build
        (record { for_kind = "HTTPTask"; owns = []; watches = "HTTPTask" ∷ []; name = "httptask" })
    ∷ []

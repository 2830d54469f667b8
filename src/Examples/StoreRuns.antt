-- ===== src/Examples/StoreRuns.antt =====
-- Stores of tasks, Squares and workflows, with the index over them.
use mathop_operator.Base.{String, [], ◌∷◌, List, ◌≡◌, refl, true, false, ◌↔◌, ◌⊎◌, ap, none}
use mathlib.Core.List.{Memᴰ}
use mathlib.Core.List.Memᴰ
use mathop_operator.Base.Text.{has_prefix}
use mathop_operator.Base.Result.{ok}
use mathop_operator.Api.{HttpTask, Workflow, Square}
use mathop_operator.Controller.Platform.{Environment, updated, requeue_after}
use mathop_operator.Controller.Index.{
  source_ref_index_value, task_index_values, task_key, find_dependent_tasks,
}
use mathop_operator.Controller.Index.Listing.{Lists}
use mathop_operator.Controller.Setup.{workflow_index_values}
use mathop_operator.Controller.HttpTask.{
  Finished, reconcile, after_get, handle_deletion, by_deletion, after_reference_check,
}
use mathop_operator.Controller.HttpTask.Deletion.{released}
use mathop_operator.Controller.HttpTask.Protection.{
  Refers, Stored, find_dependent_tasks-Refers, protected_while_referred,
}
use mathop_operator.Controller.Operands.{Server, addition}
use mathop_operator.Controller.Operands
use mathop_operator.Controller.Operands.Deletion
use mathop_operator.Controller.Operands.Protection.{Squares, protected_while_squared}
use mathop_operator.Controller.Square.{square_index_values}
use mathop_operator.Examples.ResultRuns as Results
use mathop_operator.StatusServer.{Backend, serve, json, http_error}
use mathop_operator.StatusServer.Lookup.{serve-stored}
use mathop_operator.Controller.Merge.{merge_inputs, merged}
use mathop_operator.Json.Paths.{get_json_field, set_json_field, walk, set_parts}
use mathop_operator.Json.{Json, Fields, get, put}
use mathop_operator.Base.{some}
use mathop_operator.Base.Int.{pos}
use mathop_operator.Base.Text.{split_dots}
use mathop_operator.Controller.HttpTask.{
  after_get, handle_deletion, by_deletion, after_reference_check,
}
use mathop_operator.Examples.Data.{codec}
use mathop_operator.Examples.Index.{select, select-Lists}
use mathop_operator.Examples.ControllerRuns.{helpers, task, ref_to, deleted, key}
use mathop_operator.Examples.ControllerRuns as Tasks
use mathop_operator.Examples.ServerRuns.{workflow, marshal}

-- A task that takes the id of "t".
abbrev user : HttpTask
user =
    task "u" false
      (record { source_ref = ref_to "t"; source_field = "id"; target_field = "x" } ∷ []) ""

abbrev server : Environment HttpTask
server = record (Tasks.server deleted []) {
  list_by_index = λ tr namespace value. ok (select task_index_values value (user ∷ []));
}

tasks-Lists : Lists (Stored (user ∷ []) "ns") task_index_values (server.list_by_index [] "ns")
tasks-Lists =
    select-Lists (Stored (user ∷ []) "ns") task_index_values (user ∷ [])
      (λ x h. (h, ap (λ (t : HttpTask). t.meta.namespace) (Memᴰ.eq_of_singleton h))) (λ x h. h.0)

protected_while_referred_example :
    (((x : HttpTask) → Stored (user ∷ []) "ns" x → ¬ Refers "t" x)
      × ((reconcile codec helpers server key []).1
          ≡ updated (released codec helpers server key [] deleted refl refl refl) ∷ []))
    ⊎ (((x : HttpTask) × Stored (user ∷ []) "ns" x × Refers "t" x)
        × (reconcile codec helpers server key [] ≡ (Finished.returned (requeue_after 5), [])))
unfolding task_index_values source_ref_index_value
protected_while_referred_example =
    protected_while_referred codec helpers server key [] deleted refl refl refl (user ∷ [])
      tasks-Lists (user ∷ []) refl

find_dependent_tasks-Refers_example :
    Memᴰ (task_key user) (find_dependent_tasks server [] deleted)
    ↔ ((x : HttpTask) × Stored (user ∷ []) "ns" x × Refers "t" x × (task_key x ≡ task_key user))
unfolding task_index_values source_ref_index_value
find_dependent_tasks-Refers_example =
    find_dependent_tasks-Refers server [] (user ∷ []) deleted tasks-Lists (user ∷ []) refl
      (task_key user)

-- A task that names "t" under another kind reads its output all the same, and does not keep it.
abbrev stranger : HttpTask
stranger =
    task "u" false
      (record {
        source_ref = record {
          api_version = "math.example.com/v1alpha1";
          kind = "Task";
          name = "t";
        };
        source_field = "id";
        target_field = "x";
      }
        ∷ [])
      ""

abbrev stranger_server : Environment HttpTask
stranger_server = record server {
  list_by_index = λ tr namespace value. ok (select task_index_values value (stranger ∷ []));
}

stranger_reads :
    merge_inputs codec stranger_server "ns" [] stranger.spec.input_from (some Fields.end)
    ≡ merged (some (Fields.field "x" (Json.int (pos 7)) Fields.end))
unfolding merge_inputs get_json_field walk split_dots get set_json_field set_parts put
stranger_reads = refl

stranger_released :
    (reconcile codec helpers stranger_server key []).1
    ≡ updated (released codec helpers stranger_server key [] deleted refl refl refl) ∷ []
unfolding task_index_values source_ref_index_value reconcile after_get handle_deletion by_deletion
    after_reference_check
stranger_released = refl

-- A Square of the sum.
abbrev squared : Square
squared = record {
  meta = Results.meta false;
  source_ref = record { api_version = "math.example.com/v1alpha1"; kind = "Add"; name = "sum" };
  status = record { result = none; conditions = [] };
}

abbrev add_server : Server
add_server = record (Results.server (Results.sum true)) {
  list_squares = λ tr namespace value. ok (select square_index_values value (squared ∷ []));
}

squares-Lists :
    Lists
      (λ (sq : Square). Memᴰ sq (squared ∷ []) × (sq.meta.namespace ≡ "ns"))
      square_index_values
      (add_server.list_squares [] "ns")
squares-Lists =
    select-Lists (λ (sq : Square). Memᴰ sq (squared ∷ []) × (sq.meta.namespace ≡ "ns"))
      square_index_values (squared ∷ [])
      (λ x h. (h, ap (λ (t : Square). t.meta.namespace) (Memᴰ.eq_of_singleton h))) (λ x h. h.0)

protected_while_squared_example :
    (((sq : Square)
        → Memᴰ sq (squared ∷ [])
        → sq.meta.namespace ≡ "ns"
        → ¬ Squares "math.example.com/v1alpha1/Add/sum" sq)
      × ((Operands.reconcile helpers add_server addition Results.key []).1
          ≡ updated (
              Operands.Deletion.released helpers add_server addition Results.key []
                (Results.sum true)
                refl
                refl
                refl)
            ∷ []))
    ⊎ (((sq : Square) × Memᴰ sq (squared ∷ [])
          × (sq.meta.namespace ≡ "ns")
          × Squares "math.example.com/v1alpha1/Add/sum" sq)
        × ((Operands.reconcile helpers add_server addition Results.key []).1 ≡ []))
unfolding square_index_values source_ref_index_value
protected_while_squared_example =
    protected_while_squared helpers add_server addition Results.key [] (Results.sum true) refl refl
      refl (squared ∷ []) squares-Lists (squared ∷ []) refl

abbrev stored : List Workflow
stored = workflow "Running" ∷ []

abbrev backend : Backend
backend = record {
  list_by_transaction = λ t. ok (select workflow_index_values t stored);
  marshal_status = marshal;
}

workflows-Lists : Lists (λ wf. Memᴰ wf stored) workflow_index_values backend.list_by_transaction
workflows-Lists =
    select-Lists (λ wf. Memᴰ wf stored) workflow_index_values stored (λ x h. h) (λ x h. h)

serve-stored_example :
    ((wf : Workflow) × Memᴰ wf stored
      × (wf.status.transaction_id ≡ "u-1")
      × (serve backend true "/api/workflows/u-1" [] ≡ json (marshal wf.status)))
    ⊎ (((wf : Workflow)
          → Memᴰ wf stored
          → wf.status.transaction_id ≡ "u-1"
          → ◌≡◌ {A = String} "u-1" "")
        × (serve backend true "/api/workflows/u-1" []
            ≡ http_error "no workflow found with that transaction id" 404))
unfolding workflow_index_values has_prefix
serve-stored_example =
    serve-stored stored backend workflows-Lists true [] "u-1" (workflow "Running" ∷ []) refl refl

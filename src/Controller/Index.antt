-- ===== src/Controller/Index.antt =====
-- sourceRefIndexValue of internal/controller/task_transfer.go, the field index over HTTPTasks of
-- httptask_controller.go, and taskReferencedByOthers of task_refcheck.go.
pub mod Listing
pub mod Separation
use mathop_operator.Base.{String, Bool, List, [], map, length, ltb}
use mathop_operator.Base.Text.{◌<>◌}
use mathop_operator.Base.Result.{Result, ok, err}
use mathop_operator.Api.{SourceReference, FieldMapping, HttpTask}
use mathop_operator.Controller.Platform.{Trace, Environment, NamespacedName}

unfoldable pub source_ref_index_value : String → String → String → String
source_ref_index_value api_version kind name = api_version <> "/" <> kind <> "/" <> name

abbrev pub index_value_of : SourceReference → String
index_value_of r = source_ref_index_value r.api_version r.kind r.name

-- The function that SetupWithManager registers for HTTPTasks.
unfoldable pub task_index_values : HttpTask → List String
task_index_values t = map (λ (m : FieldMapping). index_value_of m.source_ref) t.spec.input_from

abbrev pub task_key : HttpTask → NamespacedName
task_key t = record { namespace = t.meta.namespace; name = t.meta.name }

-- The index value under which the dependents of an HTTPTask stand.
abbrev pub task_index_key : String → String
task_index_key name = source_ref_index_value "math.example.com/v1alpha1" "HTTPTask" name

-- len(tasks.Items) > 0, or the error of the list.
unfoldable pub any_listed : Result (List HttpTask) → Result Bool
any_listed (err e) = err ("listing tasks: " <> e)
any_listed (ok items) = ok (ltb 0 (length items))

unfoldable pub task_referenced_by_others :
    Environment HttpTask → Trace HttpTask → String → String → Result Bool
unfolding any_listed
task_referenced_by_others env tr namespace name =
    any_listed (env.list_by_index tr namespace (task_index_key name))

-- findDependentTasks
unfoldable pub find_dependent_tasks :
    Environment HttpTask → Trace HttpTask → HttpTask → List NamespacedName
find_dependent_tasks env tr t =
    elim (env.list_by_index tr t.meta.namespace (task_index_key t.meta.name)) [
      | err e ↦ []
      | ok items ↦ map task_key items
    ]

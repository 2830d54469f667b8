-- ===== src/Examples/HeapRuns.antt =====
-- The maps of a call: what a build shares, writes and marshals.
use mathop_operator.Examples.Data.{codec}
use mathop_operator.Examples.FunctionRuns.{task_a, task_c, a_succeeded}
use mathop_operator.Base.Text.{split_dots}
use mathop_operator.Base.{insert, some, lookup, ◌≡◌, true, arith, refl}
use mathop_operator.Function.Request.{map_fields, build_disposable_request, request_of}
use mathop_operator.Function.Observed.{status_of_body, task_status_from_observed}
use mathop_operator.Function.Loop.{visit_all, build}
use mathop_operator.Base.Result.{ok}
use mathop_operator.Function.Report.{statuses_json}
use mathop_operator.Function.Sharing.{build_keeps_maps, shared_map_written}
use mathop_operator.Function.Marshalled.{visit_all-marshals}
use mathop_operator.Function.Types.{TaskSpec, DisposableRequest}
use mathop_operator.Function.Heap.{
  Heap, Value, read, set_json_field, load_fields, unload_map, unload_dict, get_json_field, walk,
}
use mathop_operator.Json.{Items, Fields}
use mathop_operator.Base.{[], ◌∷◌}

-- A heap with an output that holds a map, and a body that shares it.
abbrev shared : Heap
shared = (("deep", Value.object 1) ∷ []) ∷ [] ∷ (("x", Value.object 1) ∷ []) ∷ []

build_keeps_maps_example :
    read (build_disposable_request codec task_c [] "default" (("b", some 0) ∷ []) shared).1 0
    ≡ read shared 0
unfolding split_dots
build_keeps_maps_example =
    build_keeps_maps codec task_c [] "default" (("b", some 0) ∷ []) shared 0 (tt, tt) (omega arith)

shared_map_written_example :
    lookup "y" (read (set_json_field 2 "x.y" (Value.bool true) shared) 1) ≡ some (Value.bool true)
unfolding split_dots lookup read
shared_map_written_example =
    shared_map_written 2 1 "x.y" "x" "y" (Value.bool true) shared refl refl (omega arith)

-- A task that takes the id of the first one at a plain target.
abbrev task_d : TaskSpec
task_d = record {
  name = "d";
  endpoint = "http://d";
  method = "";
  headers = [];
  input = Fields.end;
  input_from = record { source_task = "a"; source_field = "id"; target_field = "x" } ∷ [];
}

visit_all-marshals_example :
    ((xs : Items) × (statuses_json
          (visit_all a_succeeded (task_a ∷ [])).heap
          (visit_all a_succeeded (task_a ∷ [])).statuses
        ≡ some xs))
    × ((dr : DisposableRequest) × ((build a_succeeded task_d
            (visit_all a_succeeded (task_a ∷ []))).0
          ≡ ok dr))
unfolding split_dots map_fields lookup visit_all build_disposable_request request_of unload_map
    load_fields unload_dict read task_status_from_observed status_of_body insert get_json_field walk
visit_all-marshals_example =
    visit_all-marshals a_succeeded (task_a ∷ []) task_d (tt, tt) (tt, tt) refl

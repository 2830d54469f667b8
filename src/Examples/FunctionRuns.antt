-- ===== src/Examples/FunctionRuns.antt =====
-- A function's call on two tasks, the second of which takes the first one's id.
use mathop_operator.Base.{
  String, if◌then◌else◌, ◌==◌, some, none, [], ◌∷◌, Dict, ◌≡◌, refl, true, false, get_elem?, ◌↔◌,
  lookup, ◌≢◌, ◌||◌,
}
use mathop_operator.Base.Int.{pos, ℤ}
use mathop_operator.Base.Result.{ok}
use mathop_operator.Json.{Json, Items, Fields}
use mathop_operator.Function.Types.{
  TaskSpec, ObservedResource, Composite, RunRequest, DisposableRequest,
}
use mathop_operator.Function.Loop.{Setting, visit_all, overall_phase}
use mathop_operator.Function.Observed.{bare_status, task_status_from_observed}
use mathop_operator.Function.Request.{
  build_disposable_request, request_of, map_fields, merge_headers,
}
use mathop_operator.Function.Heap.{
  unload_map, unload_dict, unload, load_fields, read, write, allocate, set_json_field, set_parts,
  enter, get_json_field, walk, load,
}
use mathop_operator.Base.Text.{split_dots}
use mathop_operator.Base.Int.{to_int32}
use mathop_operator.Base.{insert, lookup, has_key}
use mathop_operator.Function.Loop.{deps_ready}
use mathop_operator.Function.Observed.{status_of_body}
use mathop_operator.Function.Reading.{IsSuccess, succeeded_iff}
use mathop_operator.Function.Gating.{failed_source_skips, unready_source_waits}
use mathop_operator.Function.Requests.{Backed, desired-Backed}
use mathop_operator.Function.Phases.{overall_phase_iff, every_phase, phase_of}
use mathop_operator.Function.Notify.{notify_iff}
use mathop_operator.Function.Results.{Started, run_function-Started}
use mathop_operator.Function.Answers.{Answered, run_tasks-Answered}
use mathop_operator.Function.Statuses.{visit_all-Consistent, some_phase, Consistent}
use mathop_operator.Base.{Each}
use mathop_operator.Function.Shapes.{Shape, visit_all-Shape}
use mathop_operator.Function.Run.{run_function, run_tasks}
use mathop_operator.Function.Report.{with_notify, build_notify_request, notify_key}
use mathop_operator.Examples.Data.{codec, id_text}

abbrev pub task_a : TaskSpec
task_a = record {
  name = "a";
  endpoint = "http://a";
  method = "";
  headers = [];
  input = Fields.end;
  input_from = [];
}

abbrev task_b : TaskSpec
task_b = record {
  name = "b";
  endpoint = "http://b";
  method = "PUT";
  headers = [];
  input = Fields.end;
  input_from = record { source_task = "a"; source_field = "id"; target_field = "x.y" } ∷ [];
}

abbrev pub task_c : TaskSpec
task_c = record {
  name = "c";
  endpoint = "http://c";
  method = "PUT";
  headers = [];
  input = Fields.end;
  input_from = record { source_task = "b"; source_field = "id"; target_field = "x" } ∷ [];
}

abbrev resource : String → ℤ → String → ObservedResource
resource error code body = record {
  get_string = λ path. if path == "status.error" then some error else some body;
  get_integer = λ path. some code;
  get_value = λ path. none;
}

abbrev setting : Dict ObservedResource → Setting
setting observed = record {
  codec = codec;
  default_headers = [];
  provider_config = "default";
  observed = observed;
}

abbrev a_failed : Setting
a_failed = setting (("a", resource "boom" (pos 0) "") ∷ [])

abbrev pub a_succeeded : Setting
a_succeeded = setting (("a", resource "" (pos 200) id_text) ∷ [])

abbrev composite : Composite
composite = record {
  uid = "u-1";
  name = "wf";
  notify_url = "http://me";
  raw_tasks = some (Json.null ∷ []);
}

abbrev request : RunRequest
request = record {
  input = ok (record { provider_config_name = ""; default_headers = [] });
  composite = ok composite;
  decode_tasks = λ raw. ok (task_a ∷ []);
  observed = ok [];
  set_desired = λ desired. none;
  desired_composite = ok tt;
  set_composite = λ uid phase tasks. ok tt;
}

failed_source_skips_example :
    get_elem? (visit_all a_failed (task_a ∷ task_b ∷ [])).statuses 1
    ≡ some (bare_status "b" "Skipped")
unfolding visit_all lookup insert build_disposable_request request_of map_fields unload_map
    unload_dict unload load_fields read write allocate set_json_field set_parts enter get_json_field
    walk split_dots has_key deps_ready merge_headers task_status_from_observed status_of_body load
    to_int32
failed_source_skips_example = failed_source_skips a_failed (task_a ∷ []) [] task_b refl

unready_source_waits_example :
    get_elem? (visit_all a_failed (task_a ∷ task_b ∷ task_c ∷ [])).statuses 2
    ≡ some (bare_status "c" "Pending")
unfolding visit_all lookup insert build_disposable_request request_of map_fields unload_map
    unload_dict unload load_fields read write allocate set_json_field set_parts enter get_json_field
    walk split_dots has_key deps_ready merge_headers task_status_from_observed status_of_body load
    to_int32
unready_source_waits_example =
    unready_source_waits a_failed (task_a ∷ task_b ∷ []) [] task_c refl refl refl

abbrev desired_b : DisposableRequest
desired_b = record {
  api_version = "http.crossplane.io/v1alpha2";
  kind = "DisposableRequest";
  provider_config_name = "default";
  url = "http://b";
  method = "PUT";
  body = id_text;
  headers = ("Content-Type", "application/json" ∷ []) ∷ [];
}

desired-Backed_example : Backed a_succeeded (task_a ∷ task_b ∷ []) "b" desired_b
unfolding visit_all lookup insert build_disposable_request request_of map_fields unload_map
    unload_dict unload load_fields read write allocate set_json_field set_parts enter get_json_field
    walk split_dots has_key deps_ready merge_headers task_status_from_observed status_of_body load
    to_int32
desired-Backed_example = desired-Backed a_succeeded (task_a ∷ task_b ∷ []) "b" desired_b refl

overall_phase_iff_example :
    ((overall_phase (visit_all a_failed (task_a ∷ task_b ∷ [])) ≡ "Failed")
      ↔ (some_phase "Failed" (visit_all a_failed (task_a ∷ task_b ∷ [])).statuses ≡ true))
    × ((overall_phase (visit_all a_failed (task_a ∷ task_b ∷ [])) ≡ "Succeeded")
        ↔ (every_phase "Succeeded" (visit_all a_failed (task_a ∷ task_b ∷ [])).statuses ≡ true))
    × ((overall_phase (visit_all a_failed (task_a ∷ task_b ∷ [])) ≡ "Running") ↔ (
        (some_phase "Failed" (visit_all a_failed (task_a ∷ task_b ∷ [])).statuses ≡ false)
        × (every_phase "Succeeded" (visit_all a_failed (task_a ∷ task_b ∷ [])).statuses ≡ false)))
overall_phase_iff_example = overall_phase_iff a_failed task_a (task_b ∷ [])

abbrev notification : DisposableRequest
notification = record {
  api_version = "http.crossplane.io/v1alpha2";
  kind = "DisposableRequest";
  provider_config_name = "default";
  url = "http://me";
  method = "POST";
  body = id_text;
  headers = ("Content-Type", "application/json" ∷ []) ∷ [];
}

notify_iff_example :
    (lookup notify_key (
        with_notify codec composite
          (phase_of (visit_all a_failed (task_a ∷ task_b ∷ [])).statuses)
          (visit_all a_failed (task_a ∷ task_b ∷ []))
          "default")
      ≡ some notification)
    ↔ ((composite.notify_url ≢ "")
        × ((some_phase "Failed" (visit_all a_failed (task_a ∷ task_b ∷ [])).statuses
              || every_phase "Succeeded" (visit_all a_failed (task_a ∷ task_b ∷ [])).statuses)
            ≡ true))
unfolding build_notify_request visit_all lookup build_disposable_request request_of map_fields
    unload_map load_fields unload_dict read task_status_from_observed mathop_operator.Json.put
notify_iff_example =
    notify_iff codec a_failed composite (task_a ∷ task_b ∷ []) "default" notification refl refl

visit_all-Consistent_example : Consistent (visit_all a_failed (task_a ∷ task_b ∷ []))
visit_all-Consistent_example = visit_all-Consistent a_failed (task_a ∷ task_b ∷ [])

visit_all-Shape_example : Each Shape (visit_all a_failed (task_a ∷ task_b ∷ [])).statuses
visit_all-Shape_example = visit_all-Shape a_failed (task_a ∷ task_b ∷ [])

run_function-Started_example : Started codec request (run_function codec request)
unfolding run_function
run_function-Started_example = run_function-Started codec request refl

run_tasks-Answered_example : Answered request composite (visit_all (setting []) (task_a ∷ [])) (
    run_tasks codec request
      (record { provider_config_name = ""; default_headers = [] })
      composite
      []
      (task_a ∷ []))
unfolding run_tasks
run_tasks-Answered_example =
    run_tasks-Answered codec request (record { provider_config_name = ""; default_headers = [] })
      composite [] task_a [] refl

abbrev good : ObservedResource
good = resource "" (pos 200) id_text

succeeded_iff_example :
    ((task_status_from_observed codec "a" good []).0.phase ≡ "Succeeded") ↔ IsSuccess codec good
succeeded_iff_example = succeeded_iff codec "a" good []

-- ===== src/Examples/ServerRuns.antt =====
-- A stream of a workflow's status, the rows of a workflow that ended, and paths in a map.
use mathop_operator.Base.{String, some, none, [], ◌∷◌, List, ◌≡◌, true, false}
use mathop_operator.Base.Int.{pos}
use mathop_operator.Base.Result.{ok, Result}
use mathop_operator.Json.{Json, Items, Fields, get}
use mathop_operator.Json.Paths.{get_json_field, set_json_field, get_json_field-set_json_field}
use mathop_operator.Api.{Workflow, WorkflowStatus}
use mathop_operator.StatusServer.{Event, tick, stream}
use mathop_operator.StatusServer.Stream.{stream-changes}
use mathop_operator.Watcher.{WorkflowObject, Database, Pool, handle_workflow}
use mathop_operator.Watcher.Rows.{NoCodes, handle_workflow-NoCodes}
use mathop_operator.Examples.Data.{codec, id_seven}

abbrev pub workflow : String → Workflow
workflow phase = record {
  meta = record {
    namespace = "ns";
    name = "wf";
    uid = "u-1";
    generation = 1;
    deleting = false;
    finalizers = [];
  };
  spec = record { tasks = []; notify_url = "" };
  status = record {
    transaction_id = "u-1";
    dashboard_url = "";
    phase = phase;
    tasks = [];
    notified_phase = "";
    conditions = [];
  };
}

abbrev pub marshal : WorkflowStatus → Result String
marshal st = ok st.phase

abbrev seen : String → Event
seen phase = tick (ok (workflow phase))

abbrev events : List Event
events = seen "Running" ∷ seen "Running" ∷ seen "Succeeded" ∷ seen "Failed" ∷ []

stream-changes_example : stream marshal "" events ≡ "Running" ∷ "Succeeded" ∷ []
stream-changes_example = stream-changes marshal "" events

abbrev pub ended : WorkflowObject
ended = record {
  name = "wf";
  transaction_id = "u-1";
  phase = "Succeeded";
  notify_url = "";
  raw_tasks =
      Items.cons
        (Json.obj (
          Fields.field "name" (Json.str "a")
            (Fields.field "statusCode" (Json.int (pos 200)) Fields.end)))
        Items.nil;
}

abbrev pub empty : Database
empty = record { runs = []; tasks = []; statements = 0 }

abbrev pool : Pool
pool n = none

handle_workflow-NoCodes_example : NoCodes (handle_workflow codec pool ended empty).1.tasks
unfolding get
handle_workflow-NoCodes_example = handle_workflow-NoCodes codec pool ended empty (tt, tt) tt

get_json_field-set_json_field_example :
    get_json_field (set_json_field id_seven "id.x" (Json.bool true)) "id.x" ≡ some (Json.bool true)
get_json_field-set_json_field_example =
    get_json_field-set_json_field id_seven "id.x" (Json.bool true)

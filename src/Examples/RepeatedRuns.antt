-- ===== src/Examples/RepeatedRuns.antt =====
-- Reconciles that are repeated on servers that hold what was written last, and a Square behind an Add.
use mathop_operator.Base.{some, [], ◌≡◌, refl, false, ◌≤◌, ne_of_eq-false, ◌∷◌}
use mathop_operator.Base.Int.{pos, negsuc}
use mathop_operator.Json.{Fields}
use mathop_operator.Api.{HttpTask}
use mathop_operator.Controller.Platform.{found, Environment}
use mathop_operator.Controller.Merge.{merge_inputs, initial_body}
use mathop_operator.Controller.HttpTask.{reconcile}
use mathop_operator.Controller.HttpTask.Calls.{sends}
use mathop_operator.Controller.HttpTask.Converges as Tasks
use mathop_operator.Controller.HttpTask.Converges.{repeated-settles}
use mathop_operator.Controller.Operands as Operands
use mathop_operator.Controller.Operands.Converges as Sources
use mathop_operator.Controller.Operands.Converges.{repeated-computes}
use mathop_operator.Controller.Transfer.{Cluster}
use mathop_operator.Controller.Square as Square
use mathop_operator.Controller.Square.Chain as Chain
use mathop_operator.Controller.Square.Chain.{result_of}
use mathop_operator.Examples.Data.{codec, id_text}
use mathop_operator.Examples.ControllerRuns.{helpers, bare}
use mathop_operator.Examples.ControllerRuns as TaskRuns
use mathop_operator.Examples.ResultRuns.{sum}
use mathop_operator.Examples.ResultRuns as ResultRuns
use mathop_operator.Examples.SquareRuns as SquareRuns
use mathop_operator.Base.Result.{ok}
use mathop_operator.Controller.Workflow as Workflow
use mathop_operator.Controller.Workflow.Sends as Sends
use mathop_operator.Controller.Workflow.Converges as Workflows
use mathop_operator.Controller.Workflow.Standing as Standing
use mathop_operator.Controller.Workflow.Converges.{repeated-tells_once}
use mathop_operator.Examples.WorkflowRuns as WorkflowRuns
use mathop_operator.Controller.Workflow.Children.{SetsReady, reported, step_follows_call}
use mathop_operator.Controller.Workflow.{find_ready_condition, status_of_child}
use mathop_operator.Controller.HttpTask.{is_success}
use mathop_operator.Api.{WorkflowTaskSpec}
use mathop_operator.Controller.Workflow.Called.{Called}
use mathop_operator.Api.{Workflow}
use mathlib.Core.List.{Memᴰ}
use mathlib.Core.List.Memᴰ

abbrev server : Environment HttpTask
server = record (TaskRuns.server bare []) { get = λ tr k. found (Tasks.current bare tr) }

server-Serves : Tasks.Serves server TaskRuns.key bare
server-Serves = record {
  holds = λ tr. refl;
  stores = λ tr t. refl;
  checks = λ m u. refl;
  answers = λ tr req. (pos 200, id_text, refl, ne_of_eq-false id_text "" refl);
}

repeated-settles_example :
    (Tasks.repeated codec helpers server TaskRuns.key 4 []
      ≡ (reconcile codec helpers server TaskRuns.key []).1)
    × (sends (Tasks.repeated codec helpers server TaskRuns.key 4 []) ≤ 1)
unfolding initial_body merge_inputs
repeated-settles_example =
    repeated-settles codec helpers server TaskRuns.key bare (some Fields.end) (some Fields.end)
      server-Serves refl refl refl (λ tr. refl) 3

abbrev sources : Operands.Server
sources = record (ResultRuns.server (sum false)) {
  get = λ tr k. found (Sources.current (sum false) tr);
}

sources-Serves : Sources.Serves sources ResultRuns.key (sum false)
sources-Serves = record { holds = λ tr. refl; stores = λ tr o. refl }

repeated-computes_example :
    ((Sources.current
        (sum false)
        (Sources.repeated helpers sources Operands.addition ResultRuns.key 3 [])).status.result
      ≡ some (Operands.add_int32 (pos 2) (negsuc 4)))
    × (Sources.repeated helpers sources Operands.addition ResultRuns.key 3 []
        ≡ (Operands.reconcile helpers sources Operands.addition ResultRuns.key []).1)
repeated-computes_example =
    repeated-computes helpers sources Operands.addition ResultRuns.key (sum false) sources-Serves
      refl refl 2

abbrev cluster : Cluster
cluster = record SquareRuns.cluster {
  get_result = λ gvk k. found (
      result_of (
        Sources.current (sum false)
          (Sources.repeated helpers sources Operands.addition ResultRuns.key 3 [])));
}

abbrev squares : Square.Server
squares = record SquareRuns.square_server {
  get = λ tr k. found (Chain.current SquareRuns.square tr);
}

abbrev workflows : Workflow.Environment
workflows = record (WorkflowRuns.server (WorkflowRuns.workflow "") WorkflowRuns.accepts) {
  get = λ tr k. found (Standing.current (WorkflowRuns.workflow "") tr);
}

workflows-Serves :
    Standing.Serves workflows WorkflowRuns.key
      (WorkflowRuns.workflow "")
      (λ k. ok WorkflowRuns.child)
workflows-Serves = record {
  holds = λ tr. refl;
  stores = λ tr w. refl;
  stands = λ tr k f. refl;
  marshals = λ st. ("{}", refl);
  checks = λ m u. refl;
  accepts = λ tr req. (record { status_code = pos 200; body = ok "" }, refl, refl);
}

repeated-tells_once_example :
    (Standing.current
        (WorkflowRuns.workflow "")
        (Workflows.repeated workflows "http://d" WorkflowRuns.key 4 [])
      ≡ Standing.current
          (WorkflowRuns.workflow "")
          (Workflow.reconcile workflows "http://d" WorkflowRuns.key []).1)
    × (Sends.sends (Workflows.repeated workflows "http://d" WorkflowRuns.key 4 []) ≤ 1)
repeated-tells_once_example =
    repeated-tells_once workflows "http://d" WorkflowRuns.key (WorkflowRuns.workflow "")
      (λ k. ok WorkflowRuns.child) workflows-Serves 3

helpers-SetsReady : SetsReady helpers
unfolding find_ready_condition
helpers-SetsReady c cs e = rw e refl

abbrev step : WorkflowTaskSpec
step = record {
  name = "one";
  endpoint = "http://t";
  method = "";
  headers = [];
  input = "";
  input_from = [];
}

step_follows_call_example :
    status_of_child step
      (Tasks.current bare (Tasks.repeated codec helpers server TaskRuns.key 4 []))
    ≡ reported step (is_success codec helpers server (pos 200)) (pos 200) id_text
unfolding initial_body merge_inputs
step_follows_call_example =
    step_follows_call codec helpers server helpers-SetsReady TaskRuns.key bare (some Fields.end)
      (some Fields.end) server-Serves refl refl refl (λ tr. refl) refl (pos 200) id_text refl step 3

-- The child as its own reconciler leaves it, and a workflow that has it alone.
abbrev settled_child : HttpTask
settled_child = Tasks.current bare (Tasks.repeated codec helpers server TaskRuns.key 4 [])

abbrev one_step : Workflow
one_step =
    let wf = WorkflowRuns.workflow "" in
    let sp = wf.spec in record wf { spec = record sp { tasks = step ∷ [] } }

abbrev composed : Workflow.Environment
composed = record workflows {
  get = λ tr k. found (Standing.current one_step tr);
  create_or_update = λ tr k f. ok settled_child;
}

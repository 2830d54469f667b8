-- ===== src/Examples/WorkflowRuns.antt =====
-- Reconciles of a workflow with two steps, of which the server holds the children as given.
use mathop_operator.Base.{String, some, none, [], ◌∷◌, ◌≡◌, refl, false, ◌≢◌, ◌↔◌, ◌⊎◌, ap}
use mathop_operator.Base.Int.{pos}
use mathop_operator.Base.Result.{ok, Result}
use mathop_operator.Api.{ObjectMeta, HttpTask, Workflow, WorkflowTaskSpec}
use mathop_operator.Controller.Platform.{NamespacedName, found, HttpResponse}
use mathop_operator.Controller.Workflow.{
  Environment, LoopState, child_applied, reconcile, overall_phase, apply_steps,
}
use mathop_operator.Controller.Workflow.Reports.{ReportsSteps, reconcile_reports}
use mathop_operator.Controller.Workflow.Transaction.{Identifies, reconcile-Identifies}
use mathop_operator.Controller.Workflow.Written.{AllWritten}
use mathop_operator.Controller.Workflow.Notify.{notifies_iff}
use mathop_operator.Controller.Workflow.Sends.{sends}

abbrev meta : String → ObjectMeta
meta name = record {
  namespace = "ns";
  name = name;
  uid = "u-1";
  generation = 1;
  deleting = false;
  finalizers = [];
}

abbrev first : WorkflowTaskSpec
first = record {
  name = "one";
  endpoint = "http://one";
  method = "";
  headers = [];
  input = "";
  input_from = [];
}

abbrev second : WorkflowTaskSpec
second = record {
  name = "two";
  endpoint = "http://two";
  method = "";
  headers = [];
  input = "";
  input_from = record { source_step = "one"; source_field = "id"; target_field = "x" } ∷ [];
}

abbrev pub workflow : String → Workflow
workflow notified = record {
  meta = meta "wf";
  spec = record { tasks = first ∷ []; notify_url = "http://me" };
  status = record {
    transaction_id = "u-1";
    dashboard_url = "";
    phase = "";
    tasks = [];
    notified_phase = notified;
    conditions = [];
  };
}

-- A child that is ready.
abbrev pub child : HttpTask
child = record {
  meta = meta "wf-one";
  spec = record { endpoint = ""; method = ""; headers = []; input = ""; input_from = [] };
  status = record {
    output = "{}";
    status_code = some (pos 200);
    observed_input_hash = "";
    conditions =
        record {
          kind = "Ready";
          status = "True";
          reason = "Computed";
          message = "";
          observed_generation = 1;
        }
        ∷ [];
  };
}

abbrev pub server : Workflow → Result HttpResponse → Environment
server held answer = record {
  get = λ tr k. found held;
  create_or_update = λ tr k f. ok child;
  set_controller_reference = λ wf c. ok c;
  update_status = λ tr wf. ok wf;
  marshal_status = λ st. ok "{}";
  check_request = λ method url. none;
  send = λ tr req. answer;
}

abbrev pub accepts : Result HttpResponse
accepts = ok (record { status_code = pos 200; body = ok "" })

abbrev refuses : Result HttpResponse
refuses = ok (record { status_code = pos 500; body = ok "" })

abbrev pub key : NamespacedName
key = record { namespace = "ns"; name = "wf" }

abbrev new : Environment
new = server (workflow "") accepts

-- What the loop leaves of a workflow whose only child is ready.
abbrev finished : LoopState
finished = record {
  statuses =
      record {
        name = "one";
        phase = "Succeeded";
        status_code = some (pos 200);
        output = "{}";
        error = "";
      }
      ∷ [];
  has_failed = false;
  has_pending = false;
}

ok_inj : {x y : Workflow} → ◌≡◌ {A = Result Workflow} (ok x) (ok y) → y ≡ x
ok_inj e = cc e

reconcile_reports_example : AllWritten ReportsSteps (reconcile new "http://d" key []).1
reconcile_reports_example =
    reconcile_reports new "http://d" key []
      (λ tr w w' e.
        (ap (λ (x : Workflow). x.spec) (ok_inj e), ap (λ (x : Workflow). x.status) (ok_inj e)))
      tt

reconcile-Identifies_example :
    AllWritten (Identifies "http://d" "u-1") (reconcile new "http://d" key []).1
reconcile-Identifies_example =
    reconcile-Identifies new "http://d" key (workflow "") refl (λ tr w w' e.
      (ap (λ (x : Workflow). x.spec) (ok_inj e), ap (λ (x : Workflow). x.status) (ok_inj e)))

notifies_iff_example : (sends (reconcile new "http://d" key []).1 ≡ 1) ↔ (
    ((overall_phase finished ≡ "Succeeded") ⊎ (overall_phase finished ≡ "Failed"))
    × ((workflow "").spec.notify_url ≢ "")
    × ((workflow "").status.notified_phase ≢ overall_phase finished))
unfolding apply_steps
notifies_iff_example =
    notifies_iff new "http://d" key [] (child_applied child ∷ []) (workflow "") finished refl refl
      refl "{}" refl refl

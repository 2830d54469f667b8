-- ===== src/Examples/ControllerRuns.antt =====
-- Reconciles of one task, of a workflow with one step, and of an Add and a Square.
use mathop_operator.Base.{
  String, if◌then◌else◌, ◌==◌, some, none, [], ◌∷◌, List, ◌≡◌, refl, true, false, contains, ◌≤◌,
  Bool,
}
use mathop_operator.Base.Int.{pos}
use mathop_operator.Base.Result.{ok, Result}
use mathop_operator.Json.{Json, Fields}
use mathop_operator.Api.{ObjectMeta, FieldMapping, SourceReference, HttpTask}
use mathop_operator.Controller.Platform.{
  NamespacedName, found, not_found, Environment, Helpers, HttpResponse,
}
use mathop_operator.Controller.HttpTask.{reconcile, task_in_use_finalizer, with_condition}
use mathop_operator.Controller.Merge.{merge_inputs, initial_body}
use mathop_operator.Controller.HttpTask.Calls.{sends, IsMarked, reconcile_calls}
use mathop_operator.Controller.Merge.Inputs.{Gives}
use mathop_operator.Controller.Merge.Targets.{mapped_value_stands}
use mathop_operator.Controller.HttpTask.Repeats.{empty_output_repeated}
use mathop_operator.Json.Paths.{get_json_field, set_json_field, walk, set_parts}
use mathop_operator.Json.{get, put}
use mathop_operator.Base.Text.{split_dots}
use mathop_operator.Base.{◌↔◌}
use mathop_operator.Controller.Merge.{merged}
use mathop_operator.Controller.Merge.Inputs.{Chain, merge_inputs_iff}
use mathop_operator.Controller.HttpTask.Records.{marks}
use mathop_operator.Base.{Option}
use mathop_operator.Controller.Transfer.{Cluster, GroupVersionKind}
use mathop_operator.Controller.Transfer.Watches.{after_calls, DistinctKinds, watches-OnePerKind}
use mathop_operator.Examples.Data.{codec, id_text}

abbrev without : String → List String → List String
without f [] = []
without f (g ∷ gs) = let rest = without f gs in if g == f then rest else g ∷ rest

abbrev pub helpers : Helpers
helpers = record {
  set_status_condition = λ c cs. c ∷ [];
  contains_finalizer = λ fs f. contains f fs;
  add_finalizer = λ f fs. f ∷ fs;
  remove_finalizer = without;
}

abbrev pub meta : String → Bool → List String → ObjectMeta
meta name deleting finalizers = record {
  namespace = "ns";
  name = name;
  uid = "u-1";
  generation = 1;
  deleting = deleting;
  finalizers = finalizers;
}

abbrev pub ref_to : String → SourceReference
ref_to name = record { api_version = "math.example.com/v1alpha1"; kind = "HTTPTask"; name = name }

abbrev mapping : FieldMapping
mapping = record { source_ref = ref_to "s"; source_field = "id"; target_field = "x" }

abbrev pub task : String → Bool → List FieldMapping → String → HttpTask
task name deleting input_from output = record {
  meta = meta name deleting (task_in_use_finalizer ∷ []);
  spec = record {
    endpoint = "http://t";
    method = "";
    headers = [];
    input = "";
    input_from = input_from;
  };
  status = record {
    output = output;
    status_code = none;
    observed_input_hash = "";
    conditions = [];
  };
}

abbrev pub key : NamespacedName
key = record { namespace = "ns"; name = "t" }

abbrev response : Result HttpResponse
response = ok (record { status_code = pos 200; body = ok id_text })

-- The task is held under "t", its source under "s"; the others named are its dependents.
abbrev pub server : HttpTask → List HttpTask → Environment HttpTask
server held others = record {
  get = λ tr k.
      if k.name == "t"
      then found held
      else if k.name == "s"
      then found (task "s" false [] id_text)
      else not_found;
  update = λ tr t. ok t;
  update_status = λ tr t. ok t;
  list_by_index = λ tr namespace value. ok others;
  check_request = λ method url. none;
  send = λ tr r. response;
}

abbrev fresh : HttpTask
fresh = task "t" false (mapping ∷ []) ""

reconcile_calls_example :
    (sends (reconcile codec helpers (server fresh []) key []).1 ≤ 1)
    × (IsMarked codec helpers (server fresh []) []
        → IsMarked codec helpers
            (server fresh [])
            (reconcile codec helpers (server fresh []) key []).1)
reconcile_calls_example = reconcile_calls codec helpers (server fresh []) key []

mapped_value_stands_example :
    (b : Fields) × (v : Json) × (some (Fields.field "x" (Json.int (pos 7)) Fields.end) ≡ some b)
    × Gives codec (found (task "s" false [] id_text)) mapping v
    × (get_json_field b "x" ≡ some v)
unfolding merge_inputs get_json_field walk split_dots get set_json_field set_parts put
mapped_value_stands_example =
    mapped_value_stands codec (server fresh []) "ns" [] [] [] mapping (some Fields.end)
      (some (Fields.field "x" (Json.int (pos 7)) Fields.end)) refl tt

abbrev pub deleted : HttpTask
deleted = task "t" true [] id_text

abbrev pub bare : HttpTask
bare = task "t" false [] ""

empty_output_repeated_example : sends (reconcile codec helpers (server bare []) key []).1 ≡ 1
unfolding initial_body merge_inputs
empty_output_repeated_example =
    empty_output_repeated codec helpers (server bare []) key [] bare
      (with_condition codec helpers (server bare []) bare "False" "Running" "calling http://t")
      (some Fields.end) (some Fields.end) refl refl refl refl refl refl refl (λ m u. refl)

abbrev after_mapping : Fields
after_mapping = Fields.field "x" (Json.int (pos 7)) Fields.end

merge_inputs_iff_example :
    (merge_inputs codec (server fresh []) "ns" [] (mapping ∷ []) (some Fields.end)
      ≡ merged (some after_mapping))
    ↔ Chain codec (server fresh []) "ns" [] (mapping ∷ []) (some Fields.end) (some after_mapping)
merge_inputs_iff_example =
    merge_inputs_iff codec (server fresh []) "ns" [] (mapping ∷ []) (some Fields.end)
      (some after_mapping)

-- The task after it was marked as running.
abbrev marked_bare : HttpTask
marked_bare = marks codec helpers (server bare []) bare

-- Two clusters: one knows no kind, the other takes every watch.
abbrev cluster : Option String → Cluster
cluster unknown = record {
  parse_group_version = λ v. ok ("", v);
  get_result = λ gvk k. not_found;
  rest_mapping = λ gvk. unknown;
  watch = λ gvk. none;
}

abbrev kind_of : String → GroupVersionKind
kind_of kind = record { group = "math.example.com"; version = "v1alpha1"; kind = kind }

abbrev calls : List (Cluster × GroupVersionKind)
calls =
    (cluster (some "unknown"), kind_of "Add")
    ∷ (cluster none, kind_of "Add")
    ∷ (cluster none, kind_of "Subtract")
    ∷ (cluster none, kind_of "Add")
    ∷ []

watches-OnePerKind_example :
    ((after_calls calls ([], [])).1 ≡ (after_calls calls ([], [])).0)
    × DistinctKinds (after_calls calls ([], [])).0
watches-OnePerKind_example = watches-OnePerKind calls

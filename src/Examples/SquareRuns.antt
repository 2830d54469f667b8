-- ===== src/Examples/SquareRuns.antt =====
-- Reconciles of a Square of an Add, and the watch that it asks for.
use mathop_operator.Base.{none, [], refl, false}
use mathop_operator.Base.Int.{negsuc}
use mathop_operator.Base.Result.{ok}
use mathop_operator.Api.{Square}
use mathop_operator.Controller.Platform.{found, NamespacedName}
use mathop_operator.Controller.Transfer.{GroupVersionKind, Cluster, NestedResult}
use mathop_operator.Controller.Square.{Server, reconcile}
use mathop_operator.Controller.Square.Outcomes.{Writes, reconcile-Writes}
use mathop_operator.Examples.ControllerRuns.{helpers}

abbrev pub key : NamespacedName
key = record { namespace = "ns"; name = "square" }

abbrev pub square : Square
square = record {
  meta = record {
    namespace = "ns";
    name = "square";
    uid = "u-2";
    generation = 1;
    deleting = false;
    finalizers = [];
  };
  source_ref = record { api_version = "math.example.com/v1alpha1"; kind = "Add"; name = "sum" };
  status = record { result = none; conditions = [] };
}

abbrev pub cluster : Cluster
cluster = record {
  parse_group_version = λ v. ok ("math.example.com", "v1alpha1");
  get_result = λ gvk k. found (NestedResult.value (negsuc 2));
  rest_mapping = λ gvk. none;
  watch = λ gvk. none;
}

abbrev pub square_server : Server
square_server = record {
  get = λ tr k. found square;
  update_status = λ tr s. ok s;
  list_by_index = λ tr namespace value. ok [];
  gvk_string = λ gvk. gvk.kind;
  not_found_error = λ name. name;
  quote = λ text. text;
}

abbrev add_kind : GroupVersionKind
add_kind = record { group = "math.example.com"; version = "v1alpha1"; kind = "Add" }

reconcile-Writes_example :
    Writes helpers square_server cluster square []
      (reconcile helpers square_server cluster key [] []).1
reconcile-Writes_example = reconcile-Writes helpers square_server cluster key [] [] square refl

-- ===== src/Examples/ResultRuns.antt =====
-- Reconciles of an Add.
use mathop_operator.Base.{none, [], ◌∷◌, ◌≡◌, Bool, arith}
use mathop_operator.Base.Int.{pos, negsuc, ◌*ℤ◌}
use mathop_operator.Base.Result.{ok}
use mathop_operator.Api.{ObjectMeta, Operands}
use mathop_operator.Controller.Platform.{NamespacedName, found}
use mathop_operator.Controller.Operands.{Server, in_use_finalizer}
use mathop_operator.Controller.Operands.Arithmetic.{square_int32_exact}
use mathop_operator.Controller.Square.{square_int32}

abbrev pub meta : Bool → ObjectMeta
meta deleting = record {
  namespace = "ns";
  name = "sum";
  uid = "u-1";
  generation = 1;
  deleting = deleting;
  finalizers = in_use_finalizer ∷ [];
}

abbrev pub sum : Bool → Operands
sum deleting = record {
  meta = meta deleting;
  spec = record { x = pos 2; y = negsuc 4 };
  status = record { result = none; conditions = [] };
}

abbrev pub key : NamespacedName
key = record { namespace = "ns"; name = "sum" }

abbrev pub server : Operands → Server
server held = record {
  get = λ tr k. found held;
  update = λ tr o. ok o;
  update_status = λ tr o. ok o;
  list_squares = λ tr namespace value. ok [];
}

square_int32_exact_example : square_int32 (negsuc 46339) ≡ negsuc 46339 *ℤ negsuc 46339
square_int32_exact_example = square_int32_exact (negsuc 46339) (omega arith) (omega arith)

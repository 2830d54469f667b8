-- ===== src/Controller/Square/Chain.antt =====
-- A Square behind an Add or a Subtract: SquareReconciler.Reconcile on the result that the reconciler of its
-- source left.
use mathop_operator.Base.{String, Option, ◌≡◌, some, none, [], ◌∷◌}
use mathop_operator.Base.Int.{ℤ}
use mathop_operator.Base.Result.{ok}
use mathop_operator.Api.{Operands, Square}
use mathop_operator.Controller.Platform.{
  Helpers, Trace, NamespacedName, found, updated, status_updated, sent, Reconciled, done,
}
use mathop_operator.Controller.Transfer.{GroupVersionKind, Cluster, NestedResult, missing}
use mathop_operator.Controller.Operands as Operands
use mathop_operator.Controller.Operands.Converges as Source
use mathop_operator.Controller.Square.{Server}

abbrev pub nested_of : Option ℤ → NestedResult
nested_of none = missing
nested_of (some n) = NestedResult.value n

-- status.result of an Add or a Subtract, as unstructured.NestedInt64 reads it.
abbrev pub result_of : Operands → NestedResult
result_of obj = nested_of obj.status.result

-- The Square as the last write left it.
abbrev pub current : Square → Trace Square → Square
current initial [] = initial
current initial (updated s ∷ tr) = s
current initial (status_updated s ∷ tr) = s
current initial (sent r ∷ tr) = current initial tr

-- A server that accepts every write of the status and hands out the Square as it was written last.
pub record Serves (server : Server) (key : NamespacedName) (initial : Square) : Type 0 where
  pub holds : (tr : Trace Square) → server.get tr key ≡ found (current initial tr)
  pub stores : (tr : Trace Square) (sq : Square) → server.update_status tr sq ≡ ok sq

module _ (lib : Helpers) (server : Server) (cluster : Cluster) (key : NamespacedName) (sq : Square)
    (serves : Serves server key sq) where
  -- The server holds the Square with a result, and the reconcile ended without an error.
  abbrev pub Shows : ℤ → Reconciled → Trace Square → Type 0
  Shows n r tr =
      (held : Square) × (server.get tr key ≡ found held)
      × (held.status.result ≡ some n)
      × (r ≡ done)

  -- The kind of a Square's source, in a group and a version.
  abbrev pub source_kind : String → String → GroupVersionKind
  source_kind group version = record { group = group; version = version; kind = sq.source_ref.kind }

  abbrev pub source_key : NamespacedName
  source_key = record { namespace = sq.meta.namespace; name = sq.source_ref.name }

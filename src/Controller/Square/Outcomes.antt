-- ===== src/Controller/Square/Outcomes.antt =====
-- The status that SquareReconciler.Reconcile writes.
use mathop_operator.Base.{◌≡◌, none, some, Option, ◌∷◌, String, ◌⊎◌, inl, inr, Bool-cases, refl}
use mathop_operator.Controller.Platform.{found, status_updated, Trace, Helpers, NamespacedName}
use mathop_operator.Controller.Transfer.{
  GroupVersionKind, Cluster, Seen, TaskResult, value, pending, absent, failing, fetch_task_result,
}
use mathop_operator.Controller.Square.{
  Server, square_int32, with_condition, store_square, transfer, after_ensure, after_parse,
  after_get, reconcile, Square, ℤ, Result, err, is_stale, ok,
}

module _ (lib : Helpers) (server : Server) (cluster : Cluster) where
  abbrev pub source_result : Square → TaskResult
  source_result sq =
      let ref = sq.source_ref in
      fetch_task_result cluster server.quote sq.meta.namespace ref.api_version ref.kind ref.name

  -- A status that keeps the result of the Square as it was read, or has the square of the source's.
  abbrev pub IsFaithful : Square → Square → Type 0
  IsFaithful sq w =
      (w.status.result ≡ sq.status.result)
      ⊎ ((n : ℤ) × (source_result sq ≡ value n) × (w.status.result ≡ some (square_int32 n)))

  -- A trace with nothing more, or with one status more that is faithful.
  abbrev pub Writes : Square → Trace Square → Trace Square → Type 0
  Writes sq tr after =
      (after ≡ tr) ⊎ ((w : Square) × (after ≡ status_updated w ∷ tr) × IsFaithful sq w)

  store_square-Writes :
      (sq : Square) (n : ℤ) (tr : Trace Square)
      → source_result sq ≡ value n
      → Writes sq tr (store_square lib server cluster sq n tr).1
  unfolding store_square with_condition
  store_square-Writes sq n tr e = elim (Bool-cases (is_stale sq.status.result (square_int32 n))) [
    | inl stale ↦ rw stale (inr (_, refl, inr (n, e, refl)))
    | inr fresh ↦ rw fresh (inl refl)
  ]

  transfer-Writes :
      (sq : Square) (r : TaskResult) (tr : Trace Square)
      → source_result sq ≡ r
      → Writes sq tr (transfer lib server cluster sq r tr).1
  unfolding transfer with_condition
  transfer-Writes sq absent tr e = inr (_, refl, inl refl)
  transfer-Writes sq (failing m) tr e = inr (_, refl, inl refl)
  transfer-Writes sq pending tr e = inr (_, refl, inl refl)
  transfer-Writes sq (value n) tr e = store_square-Writes sq n tr e

  after_ensure-Writes :
      (sq : Square) (gvk : GroupVersionKind) (o : Option String) (seen : Seen) (tr : Trace Square)
      → Writes sq tr (after_ensure lib server cluster sq gvk o seen tr).1
  unfolding after_ensure with_condition
  after_ensure-Writes sq gvk (some e) seen tr = inr (_, refl, inl refl)
  after_ensure-Writes sq gvk none seen tr = transfer-Writes sq (source_result sq) tr refl

  after_parse-Writes :
      (sq : Square) (r : Result GroupVersionKind) (seen : Seen) (tr : Trace Square)
      → Writes sq tr (after_parse lib server cluster sq r seen tr).1
  unfolding after_parse with_condition
  after_parse-Writes sq (err e) seen tr = inr (_, refl, inl refl)
  after_parse-Writes sq (ok gvk) seen tr = after_ensure-Writes sq gvk _ _ tr

  -- A reconcile of a Square writes at most one status; it keeps the result that was read, or has the
  -- int32 square of the result that its source has at that moment.
  pub reconcile-Writes :
      (key : NamespacedName) (seen : Seen) (tr : Trace Square) (sq : Square)
      → server.get tr key ≡ found sq
      → Writes sq tr (reconcile lib server cluster key seen tr).1
  unfolding reconcile after_get
  reconcile-Writes key seen tr sq read = rw read (after_parse-Writes sq _ seen tr)

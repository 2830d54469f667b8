-- ===== src/Controller/Operands.antt =====
-- AddReconciler and SubtractReconciler of internal/controller/add_controller.go and
-- subtract_controller.go, with referencedBySquare of refcheck.go. The two differ in the kind, the
-- operation and its sign in the message.
pub mod Arithmetic
pub mod Settled
pub mod Converges
pub mod Deletion
pub mod Protection
use mathop_operator.Base.{
  String, Bool, true, false, not, List, ◌∷◌, Option, none, some, length, ltb, if◌then◌else◌,
}
use mathop_operator.Base.Int.{ℤ, ◌+ℤ◌, ◌-ℤ◌, to_int32, eqb_ℤ}
use mathop_operator.Base.Text.{◌<>◌, show_ℤ}
use mathop_operator.Base.Result.{Result, ok, err}
use mathop_operator.Api.{Operands, Square, scheme_group_version}
use mathop_operator.Controller.Platform.{
  NamespacedName, Fetch, found, not_found, failed, updated, status_updated, Trace, Helpers,
  Reconciled, done, requeue_after, with_error,
}
use mathop_operator.Controller.Index.{source_ref_index_value}

abbrev pub in_use_finalizer : String
in_use_finalizer = "math.example.com/in-use-protection"

-- The API server, for the objects themselves and for the Squares at the index of their sources.
pub record Server : Type 0 where
  pub get : Trace Operands → NamespacedName → Fetch Operands
  pub update : Trace Operands → Operands → Result Operands
  pub update_status : Trace Operands → Operands → Result Operands
  pub list_squares : Trace Operands → String → String → Result (List Square)

-- What distinguishes the two reconcilers.
pub record Operation : Type 0 where
  pub kind : String
  pub sign : String
  pub apply : ℤ → ℤ → ℤ

-- int32 addition and subtraction wrap around.
unfoldable pub add_int32 : ℤ → ℤ → ℤ
add_int32 x y = to_int32 (x +ℤ y)

unfoldable pub sub_int32 : ℤ → ℤ → ℤ
sub_int32 x y = to_int32 (x -ℤ y)

abbrev pub addition : Operation
addition = record { kind = "Add"; sign = " + "; apply = add_int32 }

abbrev pub subtraction : Operation
subtraction = record { kind = "Subtract"; sign = " - "; apply = sub_int32 }

abbrev pub Run : Type 0
Run = Reconciled × Trace Operands

-- `status.Result == nil || *status.Result != result`
abbrev pub is_stale : Option ℤ → ℤ → Bool
is_stale none result = true
is_stale (some r) result = not (eqb_ℤ r result)

-- len(squares.Items) > 0, or the error of the list.
unfoldable pub any_square : Result (List Square) → Result Bool
any_square (err e) = err ("listing squares: " <> e)
any_square (ok items) = ok (ltb 0 (length items))

module _ (lib : Helpers) (server : Server) (op : Operation) where
  open lib use {set_status_condition, contains_finalizer, add_finalizer, remove_finalizer}

  -- referencedBySquare
  unfoldable pub referenced_by_square : Trace Operands → String → String → Result Bool
  unfolding any_square
  referenced_by_square tr namespace name =
      any_square (
        server.list_squares tr namespace (source_ref_index_value scheme_group_version op.kind name))

  abbrev returned : Result Operands → Reconciled
  returned (ok _) = done
  returned (err e) = with_error e

  unfoldable pub with_result : Operands → ℤ → Operands
  with_result obj result =
      let st = obj.status in
      record obj {
        status = record st {
          result = some result;
          conditions =
              set_status_condition
                (record {
                  kind = "Ready";
                  status = "True";
                  reason = "Computed";
                  message =
                      show_ℤ obj.spec.x <> op.sign <> show_ℤ obj.spec.y <> " = " <> show_ℤ result;
                  observed_generation = obj.meta.generation;
                })
                st.conditions;
        };
      }

  -- The computation: the status is written only where the result differs.
  unfoldable pub compute : Operands → Trace Operands → Run
  unfolding with_result
  compute obj tr =
      let result = op.apply obj.spec.x obj.spec.y in
      let obj' = with_result obj result in
      if is_stale obj.status.result result
      then (returned (server.update_status tr obj'), status_updated obj' ∷ tr)
      else (done, tr)

  abbrev pub with_finalizers : Operands → List String → Operands
  with_finalizers obj fs = let m = obj.meta in record obj { meta = record m { finalizers = fs } }

  abbrev after_update : Result Operands → Trace Operands → Run
  after_update (err e) tr = (with_error e, tr)
  after_update (ok obj) tr = compute obj tr

  unfoldable pub ensure_finalizer : Operands → Trace Operands → Run
  unfolding compute
  ensure_finalizer obj tr =
      let obj' = with_finalizers obj (add_finalizer in_use_finalizer obj.meta.finalizers) in
      if contains_finalizer obj.meta.finalizers in_use_finalizer
      then compute obj tr
      else after_update (server.update tr obj') (updated obj' ∷ tr)

  unfoldable pub after_reference_check : Operands → Result Bool → Trace Operands → Run
  after_reference_check obj (err e) tr = (with_error e, tr)
  after_reference_check obj (ok true) tr = (requeue_after 5, tr)
  after_reference_check obj (ok false) tr =
      let obj' = with_finalizers obj (remove_finalizer in_use_finalizer obj.meta.finalizers) in
      (returned (server.update tr obj'), updated obj' ∷ tr)

  unfoldable pub handle_deletion : Operands → Trace Operands → Run
  unfolding after_reference_check referenced_by_square
  handle_deletion obj tr =
      if contains_finalizer obj.meta.finalizers in_use_finalizer
      then after_reference_check obj (referenced_by_square tr obj.meta.namespace obj.meta.name) tr
      else (done, tr)

  -- The test of the deletion timestamp.
  unfoldable pub by_deletion : Bool → Operands → Trace Operands → Run
  unfolding handle_deletion ensure_finalizer
  by_deletion true obj tr = handle_deletion obj tr
  by_deletion false obj tr = ensure_finalizer obj tr

  unfoldable pub after_get : Fetch Operands → Trace Operands → Run
  unfolding by_deletion
  after_get not_found tr = (done, tr)
  after_get (failed e) tr = (with_error e, tr)
  after_get (found obj) tr = by_deletion obj.meta.deleting obj tr

  -- Reconcile
  unfoldable pub reconcile : NamespacedName → Trace Operands → Run
  unfolding after_get
  reconcile key tr = after_get (server.get tr key) tr

-- AddReconciler.Reconcile and SubtractReconciler.Reconcile
unfoldable pub reconcile_add : Helpers → Server → NamespacedName → Trace Operands → Run
unfolding reconcile
reconcile_add lib server = reconcile lib server addition

unfoldable pub reconcile_subtract : Helpers → Server → NamespacedName → Trace Operands → Run
unfolding reconcile
reconcile_subtract lib server = reconcile lib server subtraction

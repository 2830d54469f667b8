-- ===== src/Controller/Operands/Converges.antt =====
-- AddReconciler.Reconcile and SubtractReconciler.Reconcile again and again, on a server that holds what was
-- written last.
use mathop_operator.Base.{
  ℕ, zero, suc, Option, ◌≡◌, true, false, some, none, ap, ◌∙◌, [], ◌∷◌, refl, Bool-cases, inl, inr,
  sym, arith,
}
use mathop_operator.Base.Int.{ℤ, pos, negsuc}
use mathop_operator.Base.Result.{ok}
use mathop_operator.Api.{Operands}
use mathop_operator.Controller.Platform.{
  Helpers, Trace, NamespacedName, found, updated, status_updated, sent,
}
use mathop_operator.Controller.Operands.{
  Server, Operation, Run, is_stale, with_result, compute, reconcile, in_use_finalizer,
}
use mathop_operator.Controller.Operands.Settled.{reaches_compute, reconcile_settled}

-- The object as the last write left it.
abbrev pub current : Operands → Trace Operands → Operands
current initial [] = initial
current initial (updated o ∷ tr) = o
current initial (status_updated o ∷ tr) = o
current initial (sent r ∷ tr) = current initial tr

-- A server that accepts every write of the status and hands out the object as it was written last.
pub record Serves (server : Server) (key : NamespacedName) (initial : Operands) : Type 0 where
  pub holds : (tr : Trace Operands) → server.get tr key ≡ found (current initial tr)
  pub stores : (tr : Trace Operands) (o : Operands) → server.update_status tr o ≡ ok o

pub not_stale : (o : Option ℤ) (n : ℤ) → is_stale o n ≡ false → o ≡ some n
not_stale none n h = cc
not_stale (some (pos a)) (pos b) h = ap (λ k. some (pos k)) (ground (arith, h))
not_stale (some (pos a)) (negsuc b) h = absurd (ground (arith, h))
not_stale (some (negsuc a)) (pos b) h = absurd (ground (arith, h))
not_stale (some (negsuc a)) (negsuc b) h = ap (λ k. some (negsuc k)) (ground (arith, h))

module _ (lib : Helpers) (server : Server) (op : Operation) (key : NamespacedName) where
  -- The trace after a number of reconciles.
  abbrev pub repeated : ℕ → Trace Operands → Trace Operands
  repeated zero tr = tr
  repeated (suc n) tr = repeated n (reconcile lib server op key tr).1

  repeated_still :
      (n : ℕ) (tr : Trace Operands) → (reconcile lib server op key tr).1 ≡ tr → repeated n tr ≡ tr
  repeated_still zero tr e = refl
  repeated_still (suc n) tr e = ap (repeated n) e ∙ repeated_still n tr e

  module _ (initial : Operands) (serves : Serves server key initial)
      (live : initial.meta.deleting ≡ false)
      (protected : lib.contains_finalizer initial.meta.finalizers in_use_finalizer ≡ true) where
    abbrev result : ℤ
    result = op.apply initial.spec.x initial.spec.y

    first_of_stale :
        is_stale initial.status.result result ≡ true
        → (reconcile lib server op key []).1
          ≡ status_updated (with_result lib server op initial result) ∷ []
    first_of_stale stale =
        ap (λ (r : Run). r.1)
          (reaches_compute lib server op key [] initial (serves.holds []) live protected)
        ∙ unfold compute in rw stale refl

    first_of_fresh :
        is_stale initial.status.result result ≡ false → (reconcile lib server op key []).1 ≡ []
    first_of_fresh fresh =
        ap (λ (r : Run). r.1)
          (reaches_compute lib server op key [] initial (serves.holds []) live protected)
        ∙ unfold compute in rw fresh refl

    -- However often a live, protected Add or Subtract is reconciled, the server holding what was written,
    -- it has the result of its operands after the first reconcile, and no later one writes anything.
    pub repeated-computes :
        (n : ℕ)
        → ((current initial (repeated (suc n) [])).status.result ≡ some result)
          × (repeated (suc n) [] ≡ (reconcile lib server op key []).1)
    unfolding with_result
    repeated-computes n = elim (Bool-cases (is_stale initial.status.result result)) [
      | inl stale ↦
          let first = first_of_stale stale in
          let still =
            repeated_still n (status_updated (with_result lib server op initial result) ∷ []) (
              ap (λ (r : Run). r.1)
                (reconcile_settled lib server op key
                  (status_updated (with_result lib server op initial result) ∷ []) initial
                  (serves.holds _) live protected)) in
          let all = ap (repeated n) first ∙ still in
          (ap (λ tr. (current initial tr).status.result) all, all ∙ sym first)
      | inr fresh ↦
          let first = first_of_fresh fresh in
          let all = repeated_still (suc n) [] first in
          (
            ap (λ tr. (current initial tr).status.result) all
                ∙ not_stale initial.status.result result fresh,
            all ∙ sym first,
          )
    ]

-- ===== src/Controller/Operands/Settled.antt =====
-- When AddReconciler and SubtractReconciler write a status.
use mathop_operator.Base.{◌≡◌, ◌∙◌, ap, arith, true, none, some, false, ◌≢◌, refl, ◌∷◌, Option, ℕ}
use mathop_operator.Base.Int.{pos, negsuc}
use mathop_operator.Controller.Platform.{found, done, status_updated}
use mathop_operator.Controller.Operands.{
  Server, Operation, Run, compute, with_result, reconcile, after_get, by_deletion, ensure_finalizer,
  in_use_finalizer, is_stale, ℤ, Helpers, eqb_ℤ, Operands, NamespacedName, Trace,
}

eqb_ℤ_refl : (x : ℤ) → eqb_ℤ x x ≡ true
eqb_ℤ_refl (pos n) = ground arith
eqb_ℤ_refl (negsuc n) = ground arith

module _ (lib : Helpers) (server : Server) (op : Operation) where
  compute_settled :
      (obj : Operands) (tr : Trace Operands) (result : ℤ)
      → obj.status.result ≡ some result
      → result ≡ op.apply obj.spec.x obj.spec.y
      → compute lib server op obj tr ≡ (done, tr)
  unfolding compute
  compute_settled obj tr result e e' = rw (e, e', eqb_ℤ_refl (op.apply obj.spec.x obj.spec.y)) refl

  -- The way of a live, protected object to its computation.
  pub reaches_compute :
      (key : NamespacedName) (tr : Trace Operands) (obj : Operands)
      → server.get tr key ≡ found obj
      → obj.meta.deleting ≡ false
      → lib.contains_finalizer obj.meta.finalizers in_use_finalizer ≡ true
      → reconcile lib server op key tr ≡ compute lib server op obj tr
  unfolding reconcile after_get by_deletion ensure_finalizer
  reaches_compute key tr obj read live protected =
      rw (read, after_get) (ap (λ b. by_deletion lib server op b obj tr) live ∙ rw protected refl)

  -- Once the result was written for the operands that the object still has, a reconcile does nothing.
  pub reconcile_settled :
      (key : NamespacedName) (tr : Trace Operands) (obj : Operands)
      → let done_obj = with_result lib server op obj (op.apply obj.spec.x obj.spec.y) in
        server.get tr key ≡ found done_obj
        → obj.meta.deleting ≡ false
        → lib.contains_finalizer obj.meta.finalizers in_use_finalizer ≡ true
        → reconcile lib server op key tr ≡ (done, tr)
  unfolding with_result
  reconcile_settled key tr obj read live protected =
      let done_obj = with_result lib server op obj (op.apply obj.spec.x obj.spec.y) in
      reaches_compute key tr done_obj read live protected ∙ compute_settled done_obj tr _ refl refl

  -- A live, protected object whose status has another result, or none, gets the result of its operands
  -- written, and nothing else is written.
  pub reconcile_stale :
      (key : NamespacedName) (tr : Trace Operands) (obj : Operands)
      → server.get tr key ≡ found obj
      → obj.meta.deleting ≡ false
      → lib.contains_finalizer obj.meta.finalizers in_use_finalizer ≡ true
      → obj.status.result ≢ some (op.apply obj.spec.x obj.spec.y)
      → (reconcile lib server op key tr).1
        ≡ status_updated (with_result lib server op obj (op.apply obj.spec.x obj.spec.y)) ∷ tr
  reconcile_stale key tr obj read live protected other =
      ap (λ (r : Run). r.1) (reaches_compute key tr obj read live protected)
      ∙ (unfold compute in rw (stale obj.status.result (op.apply obj.spec.x obj.spec.y) other) refl)
    where
      neq : (m n : ℕ) → some (pos m) ≢ some (pos n) → m ≢ n
      neq m n h e = h (ap (λ k. some (pos k)) e)

      neq_neg : (m n : ℕ) → some (negsuc m) ≢ some (negsuc n) → m ≢ n
      neq_neg m n h e = h (ap (λ k. some (negsuc k)) e)

      stale : (o : Option ℤ) (n : ℤ) → o ≢ some n → is_stale o n ≡ true
      stale none n h = refl
      stale (some (pos m)) (pos n) h = ground (arith, neq m n h)
      stale (some (pos m)) (negsuc n) h = ground arith
      stale (some (negsuc m)) (pos n) h = ground arith
      stale (some (negsuc m)) (negsuc n) h = ground (arith, neq_neg m n h)

-- ===== src/Controller/Operands/Deletion.antt =====
-- An Add or a Subtract under deletion: when its reconciler lets it go.
use mathop_operator.Base.{◌≡◌, [], ◌∷◌, List, ◌⊎◌, inl, inr, true, ap, ◌≢◌, ◌∙◌, ltb-zero-suc, refl}
use mathop_operator.Base.Result.{Result, ok, err}
use mathop_operator.Controller.Platform.{found, updated, Trace}
use mathop_operator.Controller.Index.{source_ref_index_value}
use mathop_operator.Controller.Operands.{
  in_use_finalizer, with_finalizers, after_reference_check, handle_deletion, by_deletion, after_get,
  reconcile, Server, Operation, referenced_by_square, Helpers, NamespacedName, Operands, Square,
  any_square, scheme_group_version,
}

module _ (lib : Helpers) (server : Server) (op : Operation) (key : NamespacedName)
    (tr : Trace Operands) (obj : Operands) (read : server.get tr key ≡ found obj)
    (deleting : obj.meta.deleting ≡ true)
    (protected : lib.contains_finalizer obj.meta.finalizers in_use_finalizer ≡ true) where
  abbrev pub squares : Result (List Square)
  squares =
      server.list_squares tr obj.meta.namespace
        (source_ref_index_value scheme_group_version op.kind obj.meta.name)

  deletion_step :
      reconcile lib server op key tr
      ≡ after_reference_check lib server op obj
          (referenced_by_square lib server op tr obj.meta.namespace obj.meta.name)
          tr
  unfolding reconcile after_get by_deletion handle_deletion
  deletion_step =
      rw (read, after_get)
        (ap (λ b. by_deletion lib server op b obj tr) deleting ∙ rw (protected, handle_deletion))

  abbrev pub released : Operands
  released =
      with_finalizers lib server op obj (lib.remove_finalizer in_use_finalizer obj.meta.finalizers)

  check_cases :
      (r : Result (List Square))
      → squares ≡ r
      → ((r ≡ ok []) × ((reconcile lib server op key tr).1 ≡ updated released ∷ tr))
        ⊎ ((r ≢ ok []) × ((reconcile lib server op key tr).1 ≡ tr))
  unfolding referenced_by_square any_square after_reference_check
  check_cases (err e) h = inr ((λ p. cc), rw (deletion_step, h))
  check_cases (ok []) h = inl (refl, rw (deletion_step, h))
  check_cases (ok (t ∷ ts)) h = inr ((λ p. cc), rw (deletion_step, h, ltb-zero-suc))

  -- A protected Add or Subtract under deletion has its finalizer removed exactly if the list of the
  -- Squares that have it as their source is empty; where there are some, or the list fails, nothing is
  -- written.
  pub released_iff_no_square :
      ((squares ≡ ok []) × ((reconcile lib server op key tr).1 ≡ updated released ∷ tr))
      ⊎ ((squares ≢ ok []) × ((reconcile lib server op key tr).1 ≡ tr))
  released_iff_no_square = check_cases squares refl

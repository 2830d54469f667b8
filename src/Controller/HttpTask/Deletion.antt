-- ===== src/Controller/HttpTask/Deletion.antt =====
-- A task under deletion: when HTTPTaskReconciler.Reconcile lets it go.
use mathop_operator.Base.{ap, ◌∙◌, ◌⊎◌, ◌≡◌, ◌≢◌, refl, true, List, [], ◌∷◌, inl, inr, ltb-zero-suc}
use mathop_operator.Base.Result.{Result, ok, err}
use mathop_operator.Json.{Codec}
use mathop_operator.Api.{HttpTask}
use mathop_operator.Controller.Platform.{
  NamespacedName, found, updated, Trace, Environment, Helpers, requeue_after,
}
use mathop_operator.Controller.Index.{task_index_key, task_referenced_by_others}
use mathop_operator.Controller.HttpTask.{
  Finished, task_in_use_finalizer, with_finalizers, after_reference_check, handle_deletion,
  by_deletion, after_get, reconcile,
}

module _ (codec : Codec) (lib : Helpers) (env : Environment HttpTask) (key : NamespacedName)
    (tr : Trace HttpTask) (task : HttpTask) (read : env.get tr key ≡ found task)
    (deleting : task.meta.deleting ≡ true)
    (protected : lib.contains_finalizer task.meta.finalizers task_in_use_finalizer ≡ true) where
  abbrev pub dependents : Result (List HttpTask)
  dependents = env.list_by_index tr task.meta.namespace (task_index_key task.meta.name)

  deletion_step :
      reconcile codec lib env key tr
      ≡ after_reference_check codec lib env task
          (task_referenced_by_others env tr task.meta.namespace task.meta.name)
          tr
  unfolding reconcile after_get by_deletion handle_deletion
  deletion_step =
      rw (read, after_get)
        (ap (λ b. by_deletion codec lib env b task tr) deleting ∙ rw (protected, handle_deletion))

  abbrev pub released : HttpTask
  released =
      with_finalizers codec lib env task
        (lib.remove_finalizer task_in_use_finalizer task.meta.finalizers)

  check_cases :
      (r : Result (List HttpTask))
      → dependents ≡ r
      → ((r ≡ ok []) × ((reconcile codec lib env key tr).1 ≡ updated released ∷ tr))
        ⊎ ((r ≢ ok []) × ((reconcile codec lib env key tr).1 ≡ tr))
  unfolding task_referenced_by_others after_reference_check
  check_cases (err e) h = inr ((λ p. cc), rw (deletion_step, h))
  check_cases (ok []) h = inl (refl, rw (deletion_step, h))
  check_cases (ok (t ∷ ts)) h = inr ((λ p. cc), rw (deletion_step, h, ltb-zero-suc))

  -- A protected task under deletion has its finalizer removed exactly if the list of the tasks that
  -- name it as a source comes back empty: while some task does, or where the list fails, nothing is
  -- written.
  pub released_iff_unreferenced :
      ((dependents ≡ ok []) × ((reconcile codec lib env key tr).1 ≡ updated released ∷ tr))
      ⊎ ((dependents ≢ ok []) × ((reconcile codec lib env key tr).1 ≡ tr))
  released_iff_unreferenced = check_cases dependents refl

  -- While some task names it as a source, the task is looked at again after five seconds.
  pub referenced_requeues :
      (t : HttpTask) (ts : List HttpTask)
      → dependents ≡ ok (t ∷ ts)
      → reconcile codec lib env key tr ≡ (Finished.returned (requeue_after 5), tr)
  unfolding task_referenced_by_others after_reference_check
  referenced_requeues t ts h = rw (deletion_step, h, ltb-zero-suc)

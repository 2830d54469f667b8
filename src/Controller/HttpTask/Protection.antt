-- ===== src/Controller/HttpTask/Protection.antt =====
-- Who keeps an HTTPTask of internal/controller/httptask_controller.go from going away, and who is
-- looked at again when it changes, by the objects of the store.
use mathop_operator.Base.{
  String, List, [], ◌∷◌, ◌≡◌, ◌↔◌, ◌⊎◌, inl, inr, refl, true, eq-cases, contains, map, ◌∙◌, ap, sym,
  subst,
}
use mathlib.Core.List.{Memᴰ}
use mathlib.Core.List.Memᴰ
use mathop_operator.Base.Result.{ok}
use mathop_operator.Base.Text.{◌<>◌}
use mathop_operator.Json.{Codec}
use mathop_operator.Api.{HttpTask, FieldMapping, SourceReference}
use mathop_operator.Controller.Index.Separation.{slash_free, parts_of_value}
use mathop_operator.Controller.Platform.{
  NamespacedName, found, updated, Trace, Environment, Helpers, requeue_after,
}
use mathop_operator.Controller.Index.{
  task_index_key, task_index_values, index_value_of, source_ref_index_value, task_key,
  find_dependent_tasks,
}
use mathop_operator.Controller.Index.Listing.{Lists}
use mathop_operator.Controller.HttpTask.{Finished, task_in_use_finalizer, reconcile}
use mathop_operator.Controller.HttpTask.Deletion.{
  dependents, released, released_iff_unreferenced, referenced_requeues,
}

-- Some mapping of the task has the HTTPTask of a name as its source: the API version, the kind and the
-- name of its reference, joined by slashes, read as those of that HTTPTask.
abbrev pub Refers : String → HttpTask → Type 0
Refers name x =
    (m : FieldMapping) × Memᴰ m x.spec.input_from
    × (m.source_ref.api_version <> "/" <> m.source_ref.kind <> "/" <> m.source_ref.name
        ≡ "math.example.com/v1alpha1" <> "/" <> "HTTPTask" <> "/" <> name)

-- Where neither the kinds and names of the references nor the task's name hold a slash, that is to have
-- a reference with the API version, the kind and the name of the HTTPTask.
Refers-iff :
    (name : String) (x : HttpTask)
    → slash_free name ≡ true
    → ((m : FieldMapping)
        → Memᴰ m x.spec.input_from
        → (slash_free m.source_ref.kind ≡ true) × (slash_free m.source_ref.name ≡ true))
    → Refers name x ↔ (
        (m : FieldMapping) × Memᴰ m x.spec.input_from
        × (m.source_ref
            ≡ record { api_version = "math.example.com/v1alpha1"; kind = "HTTPTask"; name = name }))
Refers-iff name x plain refs = (
  (λ h.
      let (m, there, same) = h in
      let (a, k, n) =
        parts_of_value m.source_ref.api_version m.source_ref.kind m.source_ref.name
          "math.example.com/v1alpha1" "HTTPTask" name (refs m there).0 (refs m there).1 refl plain
          same in
      (m, there, λ i. record { api_version = a i; kind = k i; name = n i })),
  (λ h.
      let (m, there, same) = h in
      (
        m,
        there,
        ap (λ (r : SourceReference). r.api_version <> "/" <> r.kind <> "/" <> r.name) same,
      )),
)

-- A task of the store in a namespace.
abbrev pub Stored : List HttpTask → String → HttpTask → Type 0
Stored store namespace x = Memᴰ x store × (x.meta.namespace ≡ namespace)

contains-map :
    (key : String) (ms : List FieldMapping)
    → (contains key (map (λ (m : FieldMapping). index_value_of m.source_ref) ms) ≡ true)
      ↔ ((m : FieldMapping) × Memᴰ m ms × (index_value_of m.source_ref ≡ key))
contains-map key [] = ((λ h. cc), (λ h. absurd (Memᴰ.not-nil h.1)))
contains-map key (m ∷ ms) = elim (eq-cases (index_value_of m.source_ref) key) [
  | inl e ↦ rw e.0 ((λ h. (m, Memᴰ.head refl, e.1)), (λ h. refl))
  | inr e ↦
      let later = contains-map key ms in
      rw e.0 (
        (λ h. let r = later.0 h in (r.0, Memᴰ.tail r.1, r.2)),
        (λ h. elim (Memᴰ.cases_cons h.1) [
          | inl same ↦
              absurd (e.1 (ap (λ (n : FieldMapping). index_value_of n.source_ref) (sym same) ∙ h.2))
          | inr there ↦ later.1 (h.0, there, h.2)
        ]),
      )
]

indexed_iff :
    (name : String) (x : HttpTask)
    → (contains (task_index_key name) (task_index_values x) ≡ true) ↔ Refers name x
unfolding task_index_values source_ref_index_value
indexed_iff name x = contains-map (task_index_key name) x.spec.input_from

module _ (env : Environment HttpTask) (tr : Trace HttpTask) (store : List HttpTask)
    (namespace : String)
    (lists : Lists
      (Stored store namespace)
      task_index_values
      (env.list_by_index tr namespace)) where
  -- A list that is answered holds the tasks of the namespace that refer to the name.
  listed_iff :
      (name : String) (items : List HttpTask)
      → env.list_by_index tr namespace (task_index_key name) ≡ ok items
      → (x : HttpTask) → Memᴰ x items ↔ (Stored store namespace x × Refers name x)
  listed_iff name items answered x = (
    (λ h.
        let r = lists.sound (task_index_key name) items answered x h in
        (r.0, (indexed_iff name x).0 r.1)),
    (λ h. lists.complete (task_index_key name) items answered x h.0 ((indexed_iff name x).1 h.1)),
  )

dependents_listed :
    (env : Environment HttpTask) (tr : Trace HttpTask) (t : HttpTask) (items : List HttpTask)
    → env.list_by_index tr t.meta.namespace (task_index_key t.meta.name) ≡ ok items
    → find_dependent_tasks env tr t ≡ map task_key items
unfolding find_dependent_tasks
dependents_listed env tr t items answered = rw (answered, find_dependent_tasks) refl

-- When a task changes and the list is answered, a request is enqueued for exactly the tasks of its
-- namespace some mapping of which has its name, the kind HTTPTask and the API version
-- math.example.com/v1alpha1 in its reference, joined by slashes.
pub find_dependent_tasks-Refers :
    (env : Environment HttpTask) (tr : Trace HttpTask) (store : List HttpTask) (t : HttpTask)
    (lists : Lists
      (Stored store t.meta.namespace)
      task_index_values
      (env.list_by_index tr t.meta.namespace))
    (items : List HttpTask)
    → env.list_by_index tr t.meta.namespace (task_index_key t.meta.name) ≡ ok items
    → (k : NamespacedName)
    → Memᴰ k (find_dependent_tasks env tr t)
      ↔ ((x : HttpTask) × Stored store t.meta.namespace x × Refers t.meta.name x × (task_key x ≡ k))
find_dependent_tasks-Refers env tr store t lists items answered k =
    rw (dependents_listed env tr t items answered) (
      (λ h.
          let r = Memᴰ.of_map task_key items h in
          let s =
            (listed_iff env tr store t.meta.namespace lists t.meta.name items answered r.0).0 r.1 in
          (r.0, s.0, s.1, r.2)),
      (λ h.
          let listed =
            (listed_iff env tr store t.meta.namespace lists t.meta.name items answered h.0).1
              (h.1, h.2) in
          subst (λ n. Memᴰ n (map task_key items)) h.3 (Memᴰ.map task_key listed)),
    )

module _ (codec : Codec) (lib : Helpers) (env : Environment HttpTask) (key : NamespacedName)
    (tr : Trace HttpTask) (task : HttpTask) (read : env.get tr key ≡ found task)
    (deleting : task.meta.deleting ≡ true)
    (protected : lib.contains_finalizer task.meta.finalizers task_in_use_finalizer ≡ true)
    (store : List HttpTask)
    (lists : Lists
      (Stored store task.meta.namespace)
      task_index_values
      (env.list_by_index tr task.meta.namespace)) where
  abbrev Outcome : Type 0
  Outcome =
      (((x : HttpTask) → Stored store task.meta.namespace x → ¬ Refers task.meta.name x)
        × ((reconcile codec lib env key tr).1
            ≡ updated (released codec lib env key tr task read deleting protected) ∷ tr))
      ⊎ (((x : HttpTask) × Stored store task.meta.namespace x × Refers task.meta.name x)
          × (reconcile codec lib env key tr ≡ (Finished.returned (requeue_after 5), tr)))

  outcome_of :
      (items : List HttpTask)
      → env.list_by_index tr task.meta.namespace (task_index_key task.meta.name) ≡ ok items
      → Outcome
  outcome_of [] answered =
      elim (released_iff_unreferenced codec lib env key tr task read deleting protected) [
        | inl r ↦ inl (
          (λ x stored refers. Memᴰ.not-nil (
              (listed_iff env tr store task.meta.namespace lists task.meta.name [] answered x).1
                (stored, refers))),
          r.1,
        )
        | inr r ↦ absurd (r.0 answered)
      ]
  outcome_of (x ∷ xs) answered =
      let at =
        (listed_iff env tr store task.meta.namespace lists task.meta.name (x ∷ xs) answered x).0
          (Memᴰ.head refl) in
      inr (
        (x, at.0, at.1),
        referenced_requeues codec lib env key tr task read deleting protected x xs answered,
      )

  -- Where the list is answered, a protected task under deletion is let go, by the removal of its
  -- finalizer, exactly if no task of its namespace in the store has a mapping with its name, the kind
  -- HTTPTask and the API version math.example.com/v1alpha1 in its reference, joined by slashes; while
  -- one has, nothing is written and the task is looked at again after five seconds.
  pub protected_while_referred :
      (items : List HttpTask)
      → dependents codec lib env key tr task read deleting protected ≡ ok items
      → (((x : HttpTask) → Stored store task.meta.namespace x → ¬ Refers task.meta.name x)
          × ((reconcile codec lib env key tr).1
              ≡ updated (released codec lib env key tr task read deleting protected) ∷ tr))
        ⊎ (((x : HttpTask) × Stored store task.meta.namespace x × Refers task.meta.name x)
            × (reconcile codec lib env key tr ≡ (Finished.returned (requeue_after 5), tr)))
  protected_while_referred items answered = outcome_of items answered

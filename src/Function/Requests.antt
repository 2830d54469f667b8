-- ===== src/Function/Requests.antt =====
-- The requests that RunFunction desires: each is built for a task whose sources have all succeeded.
use mathop_operator.Base.{
  ℕ, String, ◌≡◌, refl, sym, ◌∙◌, inl, inr, true, false, List, [], ◌∷◌, ◌++◌, some, arith, lookup,
  lookup-nil, eq-cases, insert, lookup-insert, append_assoc, append-nil,
}
use mathop_operator.Base.Result.{Result, ok, err}
use mathop_operator.Function.Heap.{Heap, allocate, load_fields}
use mathop_operator.Function.Types.{TaskSpec, DisposableRequest}
use mathop_operator.Function.Request.{map_fields, request_of, build_disposable_request}
use mathop_operator.Function.Loop.{
  LoopState, Setting, deps_ready, build, visit, visit_all, settle, dep_failed,
}
use mathop_operator.Function.Outcome.{Outcome, visit-Outcome}
use mathop_operator.Function.Statuses.{visit_all-Consistent}
use mathop_operator.Function.Positions.{visit_all-snoc}
use mathop_operator.Function.Gating.{
  some_source, every_source, dep_failed-marked, deps_ready-marked, map_fields-deps,
}

-- The request `dr` under the name `n` was built for a task of the list, behind tasks of which no
-- source has failed and every source has succeeded.
pub record Backed (w : Setting) (tasks : List TaskSpec) (n : String) (dr : DisposableRequest)
    : Type 0 where
  pub before : List TaskSpec
  pub task : TaskSpec
  pub after : List TaskSpec
  pub split : tasks ≡ before ++ task ∷ after
  pub named : task.name ≡ n
  pub none_failed : some_source "Failed" task (visit_all w before).statuses ≡ false
  pub all_succeeded : every_source "Succeeded" task (visit_all w before).statuses ≡ true
  pub built : (build w task (visit_all w before)).0 ≡ ok dr

mapped_of_built :
    (w : Setting) (task : TaskSpec) (s : LoopState) {dr : DisposableRequest}
    → (build w task s).0 ≡ ok dr
    → deps_ready task s.outputs ≡ true
unfolding build_disposable_request deps_ready
mapped_of_built w task s {dr} e =
    let (entries, h₁) = load_fields task.input [] s.heap in
    let (body, h₂) = allocate entries h₁ in
    map_fields-deps w.codec task.name s.outputs body task.input_from h₂
      (mapped (map_fields w.codec task.name s.outputs body task.input_from h₂).0 _ _ e)
  where
    mapped :
        (r : Result (Unit {0})) (body : ℕ) (h : Heap)
        → request_of w.codec task w.default_headers w.provider_config r body h ≡ ok dr
        → r ≡ ok tt
    mapped (ok tt) body h e = refl
    mapped (err m) body h e = absurd (unfold request_of in ground arith)

Backed-snoc :
    (w : Setting) (tasks : List TaskSpec) (t : TaskSpec) (n : String) (dr : DisposableRequest)
    → Backed w tasks n dr
    → Backed w (tasks ++ t ∷ []) n dr
Backed-snoc w tasks t n dr b = record {
  before = b.before;
  task = b.task;
  after = b.after ++ t ∷ [];
  split = rw (b.split, append_assoc);
  named = b.named;
  none_failed = b.none_failed;
  all_succeeded = b.all_succeeded;
  built = b.built;
}

Backed-new :
    (w : Setting) (tasks : List TaskSpec) (t : TaskSpec) (dr : DisposableRequest)
    → dep_failed t (visit_all w tasks).failed_tasks ≡ false
    → (build w t (visit_all w tasks)).0 ≡ ok dr
    → Backed w (tasks ++ t ∷ []) t.name dr
Backed-new w tasks t dr runs built =
    let c = visit_all-Consistent w tasks in
    record {
      before = tasks;
      task = t;
      after = [];
      split = refl;
      named = refl;
      none_failed = sym (dep_failed-marked t (visit_all w tasks) c) ∙ runs;
      all_succeeded =
          sym (deps_ready-marked t (visit_all w tasks) c)
          ∙ mapped_of_built w t (visit_all w tasks) built;
      built = built;
    }

module _ (w : Setting) (tasks : List TaskSpec)
    (known : (n : String) (dr : DisposableRequest)
      → lookup n (visit_all w tasks).desired ≡ some dr
      → Backed w tasks n dr)
    (t : TaskSpec) (n : String) (dr : DisposableRequest) where
  from_insert :
      (dr' : DisposableRequest)
      → dep_failed t (visit_all w tasks).failed_tasks ≡ false
      → (build w t (visit_all w tasks)).0 ≡ ok dr'
      → lookup n (insert t.name dr' (visit_all w tasks).desired) ≡ some dr
      → Backed w (tasks ++ t ∷ []) n dr
  from_insert dr' runs built e =
      let inserted = lookup-insert t.name n dr' (visit_all w tasks).desired in
      elim (eq-cases t.name n) [
        | inl (same, p) ↦
            let here : dr' ≡ dr = ground (arith, inserted, same, e) in
            rw (← p, ← here) (Backed-new w tasks t dr' runs built)
        | inr (other, p) ↦
            Backed-snoc w tasks t n dr (known n dr (ground (arith, inserted, other, e)))
      ]

  Backed-step :
      (s' : LoopState)
      → Outcome w t (visit_all w tasks) s'
      → lookup n s'.desired ≡ some dr
      → Backed w (tasks ++ t ∷ []) n dr
  unfolding settle
  Backed-step s' (Outcome.skips _ e) h = Backed-snoc w tasks t n dr (known n dr (rw e at h))
  Backed-step s' (Outcome.waits _ _ _ e) h = Backed-snoc w tasks t n dr (known n dr (rw e at h))
  Backed-step s' (Outcome.fails _ _ _ e) h = Backed-snoc w tasks t n dr (known n dr (rw e at h))
  Backed-step s' (Outcome.creates dr' runs _ _ built e) h = from_insert dr' runs built (rw e at h)
  Backed-step s' (Outcome.refreshes dr' obs st h' runs _ built _ _ e) h =
      from_insert dr' runs built (rw e at h)

Backed-all :
    (w : Setting) (done rest : List TaskSpec)
    → ((n : String) (dr : DisposableRequest)
        → lookup n (visit_all w done).desired ≡ some dr
        → Backed w done n dr)
    → (n : String) (dr : DisposableRequest)
    → lookup n (visit_all w (done ++ rest)).desired ≡ some dr
    → Backed w (done ++ rest) n dr
Backed-all w done [] known n dr h = rw append-nil (known n dr (rw append-nil at h))
Backed-all w done (t ∷ rest) known n dr h =
    let regroup : done ++ t ∷ rest ≡ (done ++ t ∷ []) ++ rest =
      sym (append_assoc done (t ∷ []) rest) in
    rw regroup (
      Backed-all w (done ++ t ∷ []) rest
        (λ k d l.
          Backed-step w done known t k d (visit w t (visit_all w done))
            (visit-Outcome w t (visit_all w done)) (rw visit_all-snoc at l))
        n dr (rw regroup at h))

-- A request is desired under a name only if it was built for a task of that name, all of whose
-- sources are tasks in front of it that have succeeded and none of whose sources has failed.
pub desired-Backed :
    (w : Setting) (tasks : List TaskSpec) (n : String) (dr : DisposableRequest)
    → lookup n (visit_all w tasks).desired ≡ some dr
    → Backed w tasks n dr
desired-Backed w tasks n dr h =
    Backed-all w [] tasks
      (λ k d l. absurd (unfold visit_all in ground (arith, lookup-nil {V = DisposableRequest} k))) n
      dr h

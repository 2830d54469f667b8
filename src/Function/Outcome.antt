-- ===== src/Function/Outcome.antt =====
-- The five ways in which one round of the loop of RunFunction goes, with what was tested on the way.
use mathop_operator.Base.{
  String, ◌≡◌, refl, inl, inr, true, false, none, some, lookup, Bool-cases, Option-cases,
}
use mathop_operator.Base.Result.{ok, err, Result-cases}
use mathop_operator.Function.Heap.{Heap}
use mathop_operator.Function.Types.{TaskSpec, TaskStatus, DisposableRequest, ObservedResource}
use mathop_operator.Function.Observed.{bare_status, task_status_from_observed}
use mathop_operator.Function.Loop.{
  LoopState, Setting, dep_failed, deps_ready, report, fail_task, desire, settle, build, created,
  refreshed, advance, visit,
}

pub data Outcome (w : Setting) (task : TaskSpec) (s s' : LoopState) : Type 0 where
  skips :
      dep_failed task s.failed_tasks ≡ true
      → s' ≡ report (bare_status task.name "Skipped") s
      → Outcome w task s s'
  waits :
      dep_failed task s.failed_tasks ≡ false
      → lookup task.name w.observed ≡ none
      → deps_ready task s.outputs ≡ false
      → s' ≡ report (bare_status task.name "Pending") s
      → Outcome w task s s'
  fails :
      (e : String)
      → dep_failed task s.failed_tasks ≡ false
      → (build w task s).0 ≡ err e
      → s' ≡ fail_task task e (record s { heap = (build w task s).1 })
      → Outcome w task s s'
  creates :
      (dr : DisposableRequest)
      → dep_failed task s.failed_tasks ≡ false
      → lookup task.name w.observed ≡ none
      → deps_ready task s.outputs ≡ true
      → (build w task s).0 ≡ ok dr
      → s'
        ≡ report
            (bare_status task.name "Pending")
            (desire task dr (record s { heap = (build w task s).1 }))
      → Outcome w task s s'
  refreshes :
      (dr : DisposableRequest) (obs : ObservedResource) (status : TaskStatus) (h : Heap)
      → dep_failed task s.failed_tasks ≡ false
      → lookup task.name w.observed ≡ some obs
      → (build w task s).0 ≡ ok dr
      → status ≡ (task_status_from_observed w.codec task.name obs (build w task s).1).0
      → h ≡ (task_status_from_observed w.codec task.name obs (build w task s).1).1
      → s' ≡ settle task status (desire task dr (record s { heap = h }))
      → Outcome w task s s'

module _ (w : Setting) (task : TaskSpec) (s : LoopState)
    (runs : dep_failed task s.failed_tasks ≡ false) where
  Outcome-create : lookup task.name w.observed ≡ none → Outcome w task s (advance w task none s)
  unfolding advance created
  Outcome-create absent = elim (Bool-cases (deps_ready task s.outputs)) [
    | inl ready ↦ elim (Result-cases (build w task s).0) [
      | inr (e, failed) ↦ Outcome.fails e runs failed (rw (ready, failed))
      | inl (dr, built) ↦ Outcome.creates dr runs absent ready built (rw (ready, built))
    ]
    | inr not_ready ↦ Outcome.waits runs absent not_ready (rw not_ready)
  ]

  Outcome-refresh :
      (obs : ObservedResource)
      → lookup task.name w.observed ≡ some obs
      → Outcome w task s (advance w task (some obs) s)
  unfolding advance refreshed
  Outcome-refresh obs there = elim (Result-cases (build w task s).0) [
    | inr (e, failed) ↦ Outcome.fails e runs failed (rw failed)
    | inl (dr, built) ↦
        let h = (build w task s).1 in
        let r = task_status_from_observed w.codec task.name obs h in
        Outcome.refreshes dr obs r.0 r.1 runs there built refl refl (rw built)
  ]

-- Every round goes in one of these ways.
pub visit-Outcome :
    (w : Setting) (task : TaskSpec) (s : LoopState) → Outcome w task s (visit w task s)
unfolding visit
visit-Outcome w task s = elim (Bool-cases (dep_failed task s.failed_tasks)) [
  | inl failed ↦ Outcome.skips failed (rw failed)
  | inr runs ↦ elim (Option-cases (lookup task.name w.observed)) [
    | inl absent ↦ rw (runs, absent) (Outcome-create w task s runs absent)
    | inr (obs, there) ↦ rw (runs, there) (Outcome-refresh w task s runs obs there)
  ]
]

-- ===== src/Function/Gating.antt =====
-- When a task of the workflow may run: what RunFunction does with its sources.
use mathop_operator.Base.{
  ℕ, String, ◌≡◌, refl, inl, inr, Bool, true, false, List, [], ◌∷◌, ◌++◌, none, some, arith, any,
  all, contains, has_key, length, get_elem?, lookup, Option-cases,
}
use mathop_operator.Base.Result.{ok}
use mathop_operator.Json.{Codec}
use mathop_operator.Function.Heap.{Heap, set_json_field, get_json_field}
use mathop_operator.Function.Types.{FieldMapping, TaskSpec, TaskStatus}
use mathop_operator.Function.Request.{Outputs, map_fields}
use mathop_operator.Function.Observed.{bare_status}
use mathop_operator.Function.Loop.{
  LoopState, Setting, dep_failed, deps_ready, advance, visit, visit_all,
}
use mathop_operator.Function.Statuses.{marked, Consistent, visit_all-Consistent}
use mathop_operator.Function.Positions.{status_at}

-- Some source of the task has a status of the phase; every source has one.
abbrev pub some_source : String → TaskSpec → List TaskStatus → Bool
some_source phase task statuses =
    any (λ (m : FieldMapping). marked m.source_task phase statuses) task.input_from

abbrev pub every_source : String → TaskSpec → List TaskStatus → Bool
every_source phase task statuses =
    all (λ (m : FieldMapping). marked m.source_task phase statuses) task.input_from

any-eq {ℓ} :
    {A : Type ℓ} (p q : A → Bool) → ((x : A) → p x ≡ q x) → (xs : List A) → any p xs ≡ any q xs
any-eq p q h [] = refl
any-eq p q h (x ∷ xs) = cc (h x, any-eq p q h xs)

all-eq {ℓ} :
    {A : Type ℓ} (p q : A → Bool) → ((x : A) → p x ≡ q x) → (xs : List A) → all p xs ≡ all q xs
all-eq p q h [] = refl
all-eq p q h (x ∷ xs) = cc (h x, all-eq p q h xs)

-- The two tests of the loop, in terms of the statuses before the task.
pub dep_failed-marked :
    (task : TaskSpec) (s : LoopState)
    → Consistent s
    → dep_failed task s.failed_tasks ≡ some_source "Failed" task s.statuses
unfolding dep_failed
dep_failed-marked task s c =
    any-eq (λ (m : FieldMapping). contains m.source_task s.failed_tasks)
      (λ (m : FieldMapping). marked m.source_task "Failed" s.statuses) (λ m. c.failed m.source_task)
      task.input_from

pub deps_ready-marked :
    (task : TaskSpec) (s : LoopState)
    → Consistent s
    → deps_ready task s.outputs ≡ every_source "Succeeded" task s.statuses
unfolding deps_ready
deps_ready-marked task s c =
    all-eq (λ (m : FieldMapping). has_key m.source_task s.outputs)
      (λ (m : FieldMapping). marked m.source_task "Succeeded" s.statuses)
      (λ m. c.succeeded m.source_task) task.input_from

-- A task of which some source has failed, among the tasks in front of it, is reported as skipped,
-- whether or not its resource exists.
pub failed_source_skips :
    (w : Setting) (before after : List TaskSpec) (task : TaskSpec)
    → some_source "Failed" task (visit_all w before).statuses ≡ true
    → get_elem? (visit_all w (before ++ task ∷ after)).statuses (length before)
      ≡ some (bare_status task.name "Skipped")
unfolding visit
failed_source_skips w before after task h =
    let s = visit_all w before in
    status_at w before after task (bare_status task.name "Skipped")
      (rw (dep_failed-marked task s (visit_all-Consistent w before), h))

-- A task with no resource yet waits, and is reported as pending, while none of its sources has
-- failed and some source has not succeeded: also for ever, where that source was itself skipped.
pub unready_source_waits :
    (w : Setting) (before after : List TaskSpec) (task : TaskSpec)
    → lookup task.name w.observed ≡ none
    → some_source "Failed" task (visit_all w before).statuses ≡ false
    → every_source "Succeeded" task (visit_all w before).statuses ≡ false
    → get_elem? (visit_all w (before ++ task ∷ after)).statuses (length before)
      ≡ some (bare_status task.name "Pending")
unfolding visit advance
unready_source_waits w before after task absent f r =
    let s = visit_all w before in
    let c = visit_all-Consistent w before in
    status_at w before after task (bare_status task.name "Pending")
      (rw (dep_failed-marked task s c, f, absent, deps_ready-marked task s c, r))

-- A build that succeeds has found every source among the outputs.
pub map_fields-deps :
    (codec : Codec) (name : String) (outputs : Outputs) (body : ℕ) (ms : List FieldMapping)
    (h : Heap)
    → (map_fields codec name outputs body ms h).0 ≡ ok tt
    → all (λ (m : FieldMapping). has_key m.source_task outputs) ms ≡ true
unfolding map_fields has_key
map_fields-deps codec name outputs body [] h e = refl
map_fields-deps codec name outputs body (m ∷ ms) h e =
    elim (Option-cases (lookup m.source_task outputs)) [
      | inl absent ↦ ground (arith, absent)
      | inr (src, there) ↦ elim (Option-cases (get_json_field h src m.source_field)) [
        | inl missing ↦ ground (arith, there, missing)
        | inr (val, found) ↦ ground (
          arith,
          there,
          found,
          map_fields-deps codec name outputs body ms (set_json_field body m.target_field val h),
        )
      ]
    ]

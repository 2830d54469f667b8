-- ===== src/Function/Statuses.antt =====
-- What the loop of RunFunction keeps true of its own variables: the statuses tell what the sets of
-- failed tasks, of outputs and of desired resources hold.
use mathop_operator.Base.{
  String, ◌≡◌, refl, ap, ◌∙◌, sym, Bool, true, ◌&&◌, not, List, [], ◌∷◌, ◌++◌, map, Option, none,
  some, arith, ◌==◌, any, contains, has_key, has_key-insert, any-append, for_each, append_assoc,
  append-nil, false, lookup, for_each_inv, ◌⊎◌, inr, inl,
}
use mathlib.Core.List.{map-append}
use mathop_operator.Base.Int.{ℤ}
use mathop_operator.Json.{Json, Codec}
use mathop_operator.Function.Heap.{Heap}
use mathop_operator.Function.Types.{TaskSpec, TaskStatus, ObservedResource}
use mathop_operator.Function.Observed.{status_of_body, task_status_from_observed, bare_status}
use mathop_operator.Function.Loop.{LoopState, Setting, start, settle, visit, visit_all, report}
use mathop_operator.Function.Reading.{reading_cases}
use mathop_operator.Function.Outcome.{Outcome, visit-Outcome}

name-status_of_body :
    (name : String) (c : ℤ) (o : Option Json) (h : Heap) → (status_of_body name c o h).0.name ≡ name
unfolding status_of_body
name-status_of_body name c (some (Json.obj fs)) h = refl
name-status_of_body name c (some Json.null) h = refl
name-status_of_body name c (some (Json.arr _)) h = refl
name-status_of_body name c (some _) h = refl
name-status_of_body name c none h = refl

-- The status of an observed resource carries the task's name.
pub name-task_status_from_observed :
    (codec : Codec) (name : String) (res : ObservedResource) (h : Heap)
    → (task_status_from_observed codec name res h).0.name ≡ name
name-task_status_from_observed codec name res h =
    reading_cases (λ st. st.name ≡ name) codec name res h refl refl refl refl
      (name-status_of_body name _ _ h)

-- An observed resource is running, has succeeded or has failed.
abbrev pub IsObservedPhase : String → Type 0
IsObservedPhase p = (p ≡ "Running") ⊎ (p ≡ "Succeeded") ⊎ (p ≡ "Failed")

phase-status_of_body :
    (name : String) (c : ℤ) (o : Option Json) (h : Heap)
    → IsObservedPhase (status_of_body name c o h).0.phase
unfolding status_of_body
phase-status_of_body name c (some (Json.obj fs)) h = inr (inl refl)
phase-status_of_body name c (some Json.null) h = inr (inl refl)
phase-status_of_body name c (some (Json.arr _)) h = inr (inr refl)
phase-status_of_body name c (some _) h = inr (inr refl)
phase-status_of_body name c none h = inr (inr refl)

pub phase-task_status_from_observed :
    (codec : Codec) (name : String) (res : ObservedResource) (h : Heap)
    → IsObservedPhase (task_status_from_observed codec name res h).0.phase
phase-task_status_from_observed codec name res h =
    reading_cases (λ st. IsObservedPhase st.phase) codec name res h (inr (inr refl)) (inl refl)
      (inr (inr refl)) (inl refl) (phase-status_of_body name _ _ h)

phase_of_found :
    (w : Setting) (task : TaskSpec) (obs : ObservedResource) (h : Heap) {st : TaskStatus}
    → st ≡ (task_status_from_observed w.codec task.name obs h).0
    → (st.phase == "Skipped") ≡ false
phase_of_found w task obs h {st} found =
    elim (phase-task_status_from_observed w.codec task.name obs h) [
      | inl e ↦ rw (found, e)
      | inr (inl e) ↦ rw (found, e)
      | inr (inr e) ↦ rw (found, e)
    ]

name_of_found :
    (w : Setting) (task : TaskSpec) (obs : ObservedResource) (h : Heap) {st : TaskStatus}
    → st ≡ (task_status_from_observed w.codec task.name obs h).0
    → st.name ≡ task.name
name_of_found w task obs h found =
    ap (λ (t : TaskStatus). t.name) found ∙ name-task_status_from_observed w.codec task.name obs h

abbrev pub names : List TaskStatus → List String
names statuses = map (λ (st : TaskStatus). st.name) statuses

-- A round adds one status, that of its task, behind the others.
names-visit :
    (w : Setting) (task : TaskSpec) (s : LoopState)
    → names (visit w task s).statuses ≡ names s.statuses ++ task.name ∷ []
unfolding settle
names-visit w task s = named (visit w task s) (visit-Outcome w task s)
  where
    named :
        (s' : LoopState)
        → Outcome w task s s'
        → names s'.statuses ≡ names s.statuses ++ task.name ∷ []
    named s' (Outcome.skips _ e) = rw (e, map-append)
    named s' (Outcome.waits _ _ _ e) = rw (e, map-append)
    named s' (Outcome.fails _ _ _ e) = rw (e, map-append)
    named s' (Outcome.creates _ _ _ _ _ e) = rw (e, map-append)
    named s' (Outcome.refreshes dr obs st h _ _ _ found _ e) =
        rw (e, map-append, name_of_found w task obs _ found)

names-visits :
    (w : Setting) (tasks : List TaskSpec) (s : LoopState)
    → names (for_each (visit w) tasks s).statuses
      ≡ names s.statuses ++ map (λ (t : TaskSpec). t.name) tasks
names-visits w [] s = sym (append-nil _)
names-visits w (t ∷ ts) s = names-visits w ts (visit w t s) ∙ rw (names-visit w t s, append_assoc)

-- There is one status for each task of the specification, under its name and in its order.
pub names-visit_all :
    (w : Setting) (tasks : List TaskSpec)
    → names (visit_all w tasks).statuses ≡ map (λ (t : TaskSpec). t.name) tasks
unfolding visit_all
names-visit_all w tasks = names-visits w tasks start

-- Some status of the list has the name and the phase.
abbrev pub marked : String → String → List TaskStatus → Bool
marked name phase statuses =
    any (λ (st : TaskStatus). (st.name == name) && (st.phase == phase)) statuses

abbrev pub some_phase : String → List TaskStatus → Bool
some_phase phase statuses = any (λ (st : TaskStatus). st.phase == phase) statuses

-- Some task of the name was not skipped.
abbrev pub ran : String → List TaskStatus → Bool
ran name statuses =
    any (λ (st : TaskStatus). (st.name == name) && not (st.phase == "Skipped")) statuses

pub record Consistent (s : LoopState) : Type 0 where
  pub failed : (n : String) → contains n s.failed_tasks ≡ marked n "Failed" s.statuses
  pub succeeded : (n : String) → has_key n s.outputs ≡ marked n "Succeeded" s.statuses
  pub overall : s.overall_failed ≡ some_phase "Failed" s.statuses
  pub desired : (n : String) → has_key n s.desired ≡ true → ran n s.statuses ≡ true

-- A status that is neither a success nor a failure.
report-Consistent :
    (name phase : String) (s : LoopState)
    → (phase == "Failed") ≡ false
    → (phase == "Succeeded") ≡ false
    → Consistent s
    → Consistent (report (bare_status name phase) s)
report-Consistent name phase s nf ns c = record {
  failed = λ n. rw any-append (ground (arith, c.failed n));
  succeeded = λ n. rw any-append (ground (arith, c.succeeded n));
  overall = rw any-append (ground (arith, c.overall));
  desired = λ n h. rw any-append (ground (arith, c.desired n h));
}

-- What a round keeps.
step_Consistent :
    (w : Setting) (task : TaskSpec) (s s' : LoopState)
    → Outcome w task s s'
    → Consistent s
    → Consistent s'
unfolding settle
step_Consistent w task s s' (Outcome.skips _ e) c =
    rw e (report-Consistent task.name "Skipped" s refl refl c)
step_Consistent w task s s' (Outcome.waits _ _ _ e) c =
    rw e (report-Consistent task.name "Pending" s refl refl c)
step_Consistent w task s s' (Outcome.fails _ _ _ e) c = rw e (record {
  failed = λ n. rw any-append (ground (arith, c.failed n));
  succeeded = λ n. rw any-append (ground (arith, c.succeeded n));
  overall = rw any-append (ground (arith, c.overall));
  desired = λ n h. rw any-append (ground (arith, c.desired n h));
})
step_Consistent w task s s' (Outcome.creates dr _ _ _ _ e) c = rw e (record {
  failed = λ n. rw any-append (ground (arith, c.failed n));
  succeeded = λ n. rw any-append (ground (arith, c.succeeded n));
  overall = rw any-append (ground (arith, c.overall));
  desired =
      λ n h. rw any-append (ground (arith, c.desired n, has_key-insert task.name n dr s.desired));
})
step_Consistent w task s s' (Outcome.refreshes dr obs st h _ _ _ found _ e) c = rw e (record {
  failed = λ n. rw any-append (ground (arith, c.failed n, name_of_found w task obs _ found));
  succeeded = λ n. rw any-append (
      ground (
        arith,
        c.succeeded n,
        name_of_found w task obs _ found,
        has_key-insert task.name n st.output s.outputs,
      ));
  overall = rw any-append (ground (arith, c.overall));
  desired = λ n h. rw any-append (
      ground (
        arith,
        c.desired n,
        name_of_found w task obs _ found,
        phase_of_found w task obs _ found,
        has_key-insert task.name n dr s.desired,
      ));
})

start-Consistent : Consistent start
unfolding has_key lookup
start-Consistent = record {
  failed = λ n. refl;
  succeeded = λ n. refl;
  overall = refl;
  desired = λ n h. cc;
}

-- After the loop: a name is in failedTasks exactly if a task of the name failed, in outputs exactly
-- if one succeeded; overallFailed holds exactly if some task failed; and no resource is desired
-- under a name all of whose tasks were skipped, or that no task has.
pub visit_all-Consistent : (w : Setting) (tasks : List TaskSpec) → Consistent (visit_all w tasks)
unfolding visit_all
visit_all-Consistent w tasks =
    for_each_inv Consistent (visit w)
      (λ t s c. step_Consistent w t s (visit w t s) (visit-Outcome w t s) c) tasks start
      start-Consistent

-- ===== src/Function/Phases.antt =====
-- The phase of the workflow, from the phases of its tasks.
use mathop_operator.Base.{
  String, ◌≡◌, refl, ◌↔◌, Bool, true, false, List, [], ◌∷◌, arith, ◌==◌, all, if◌then◌else◌, eq_iff,
  ne_of_eq-false,
}
use mathop_operator.Function.Types.{TaskSpec, TaskStatus}
use mathop_operator.Function.Loop.{Setting, visit_all, all_done, overall_phase}
use mathop_operator.Function.Statuses.{some_phase, visit_all-Consistent}
use mathop_operator.Function.Positions.{length-statuses}

abbrev pub every_phase : String → List TaskStatus → Bool
every_phase phase statuses = all (λ (st : TaskStatus). st.phase == phase) statuses

-- A list that has a status, all of them successes, holds no failure.
pub succeeded_not_failed :
    (statuses : List TaskStatus)
    → every_phase "Succeeded" statuses ≡ true
    → some_phase "Failed" statuses ≡ false
succeeded_not_failed [] h = refl
succeeded_not_failed (st ∷ sts) h =
    let p : (st.phase == "Succeeded") ≡ true = ground (arith, h) in
    let e : st.phase ≡ "Succeeded" = (eq_iff st.phase "Succeeded").0 p in
    rw e (succeeded_not_failed sts (ground (arith, h)))

-- What the phase should be.
abbrev pub phase_of : List TaskStatus → String
phase_of statuses =
    if some_phase "Failed" statuses
    then "Failed"
    else if every_phase "Succeeded" statuses
    then "Succeeded"
    else "Running"

pub overall_phase-phase_of :
    (w : Setting) (t : TaskSpec) (ts : List TaskSpec)
    → overall_phase (visit_all w (t ∷ ts)) ≡ phase_of (visit_all w (t ∷ ts)).statuses
unfolding overall_phase all_done
overall_phase-phase_of w t ts =
    let s = visit_all w (t ∷ ts) in
    rw ((visit_all-Consistent w (t ∷ ts)).overall, length-statuses w (t ∷ ts)) (ground arith)

abbrev pub name_phase : Bool → Bool → String
name_phase failed succeeded =
    if failed then "Failed" else if succeeded then "Succeeded" else "Running"

phases :
    (f s : Bool)
    → (s ≡ true → f ≡ false)
    → ((name_phase f s ≡ "Failed") ↔ (f ≡ true))
      × ((name_phase f s ≡ "Succeeded") ↔ (s ≡ true))
      × ((name_phase f s ≡ "Running") ↔ ((f ≡ false) × (s ≡ false)))
phases true true h = absurd (cc (h refl))
phases true false h = (
  ((λ _. refl), (λ _. refl)),
  ((λ e. absurd (ne_of_eq-false "Failed" "Succeeded" refl e)), (λ e. cc)),
  ((λ e. absurd (ne_of_eq-false "Failed" "Running" refl e)), (λ e. cc)),
)
phases false true h = (
  ((λ e. absurd (ne_of_eq-false "Succeeded" "Failed" refl e)), (λ e. cc)),
  ((λ _. refl), (λ _. refl)),
  ((λ e. absurd (ne_of_eq-false "Succeeded" "Running" refl e)), (λ e. cc)),
)
phases false false h = (
  ((λ e. absurd (ne_of_eq-false "Running" "Failed" refl e)), (λ e. cc)),
  ((λ e. absurd (ne_of_eq-false "Running" "Succeeded" refl e)), (λ e. cc)),
  ((λ _. (refl, refl)), (λ _. refl)),
)

-- A workflow has failed exactly if some task has, even while other tasks still run; it has succeeded
-- exactly if every task has; and it is running exactly if neither holds.
pub overall_phase_iff :
    (w : Setting) (t : TaskSpec) (ts : List TaskSpec)
    → ((overall_phase (visit_all w (t ∷ ts)) ≡ "Failed")
        ↔ (some_phase "Failed" (visit_all w (t ∷ ts)).statuses ≡ true))
      × ((overall_phase (visit_all w (t ∷ ts)) ≡ "Succeeded")
          ↔ (every_phase "Succeeded" (visit_all w (t ∷ ts)).statuses ≡ true))
      × ((overall_phase (visit_all w (t ∷ ts)) ≡ "Running") ↔ (
          (some_phase "Failed" (visit_all w (t ∷ ts)).statuses ≡ false)
          × (every_phase "Succeeded" (visit_all w (t ∷ ts)).statuses ≡ false)))
overall_phase_iff w t ts =
    let statuses = (visit_all w (t ∷ ts)).statuses in
    rw (overall_phase-phase_of w t ts) (
      phases (some_phase "Failed" statuses) (every_phase "Succeeded" statuses)
        (succeeded_not_failed statuses))

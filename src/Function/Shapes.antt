-- ===== src/Function/Shapes.antt =====
-- The shapes that a TaskStatus of function-httptask/fn.go comes in.
use mathop_operator.Base.{
  String, ◌≡◌, refl, ◌⊎◌, inl, inr, Option, some, none, List, false, subst, sym, arith,
  for_each_inv, Each, Each-snoc,
}
use mathop_operator.Base.Int.{ℤ, pos, negsuc, to_int32}
use mathop_operator.Json.{Json, Codec}
use mathop_operator.Function.Heap.{Heap}
use mathop_operator.Function.Types.{TaskSpec, TaskStatus, ObservedResource}
use mathop_operator.Function.Observed.{
  task_status_from_observed, status_of_body, read_code, read_body,
}
use mathop_operator.Function.Loop.{LoopState, Setting, start, settle, visit, visit_all}
use mathop_operator.Function.Reading.{reading_rule, outside_2xx}
use mathop_operator.Function.Outcome.{Outcome, visit-Outcome}

-- The phases that the comment at the field names, each with the fields that are set beside it: a task
-- that waits or was skipped has nothing, a running one neither an output nor an error, a failed one no
-- output, and one that succeeded a code of 2xx and no error.
pub data Shape (st : TaskStatus) : Type 0 where
  idle :
      (st.phase ≡ "Pending") ⊎ (st.phase ≡ "Skipped")
      → st.status_code ≡ none
      → st.output ≡ none
      → st.error ≡ ""
      → Shape st
  running : st.phase ≡ "Running" → st.output ≡ none → st.error ≡ "" → Shape st
  failed : st.phase ≡ "Failed" → st.output ≡ none → Shape st
  succeeded :
      (code : ℤ)
      → st.phase ≡ "Succeeded"
      → st.status_code ≡ some code
      → outside_2xx code ≡ false
      → st.error ≡ ""
      → Shape st

-- A code of 2xx is an int32.
code_kept : (code : ℤ) → outside_2xx code ≡ false → to_int32 code ≡ code
unfolding to_int32
code_kept (pos n) h = ground (arith, h)
code_kept (negsuc n) h = ground (arith, h)

Shape-status_of_body :
    (name : String) (code : ℤ) (o : Option Json) (h : Heap)
    → outside_2xx code ≡ false
    → Shape (status_of_body name code o h).0
unfolding status_of_body
Shape-status_of_body name code (some (Json.obj fs)) h good =
    Shape.succeeded code refl refl good refl
Shape-status_of_body name code (some Json.null) h good = Shape.succeeded code refl refl good refl
Shape-status_of_body name code (some (Json.arr _)) h good = Shape.failed refl refl
Shape-status_of_body name code (some _) h good = Shape.failed refl refl
Shape-status_of_body name code none h good = Shape.failed refl refl

Shape-task_status_from_observed :
    (codec : Codec) (name : String) (res : ObservedResource) (h : Heap)
    → Shape (task_status_from_observed codec name res h).0
Shape-task_status_from_observed codec name res h =
    reading_rule Shape codec name res h (λ _. Shape.failed refl refl)
      (λ _ _. Shape.running refl refl refl) (λ _ _ _. Shape.failed refl refl)
      (λ _ _ _ _. Shape.running refl refl refl)
      (λ _ _ good _.
        let body = codec.decode (read_body res) in
        subst (λ c. Shape (status_of_body name c body h).0) (sym (code_kept (read_code res) good))
          (Shape-status_of_body name (read_code res) body h good))

-- A round adds one status, of one of the shapes.
visit-Shape :
    (w : Setting) (task : TaskSpec) (s s' : LoopState)
    → Outcome w task s s'
    → Each Shape s.statuses
    → Each Shape s'.statuses
unfolding settle
visit-Shape w task s s' (Outcome.skips _ e) each =
    rw e (Each-snoc Shape s.statuses _ each (Shape.idle (inr refl) refl refl refl))
visit-Shape w task s s' (Outcome.waits _ _ _ e) each =
    rw e (Each-snoc Shape s.statuses _ each (Shape.idle (inl refl) refl refl refl))
visit-Shape w task s s' (Outcome.fails _ _ _ e) each =
    rw e (Each-snoc Shape s.statuses _ each (Shape.failed refl refl))
visit-Shape w task s s' (Outcome.creates _ _ _ _ _ e) each =
    rw e (Each-snoc Shape s.statuses _ each (Shape.idle (inl refl) refl refl refl))
visit-Shape w task s s' (Outcome.refreshes _ obs st _ _ _ _ found _ e) each = rw e (
    Each-snoc Shape s.statuses st each
      (subst Shape (sym found) (Shape-task_status_from_observed w.codec task.name obs _)))

-- Every status that the loop leaves has one of the five phases that the comment at the field names, and
-- beside it the fields of that phase alone: a task that waits or was skipped has no code, output or
-- error, a running one no output and no error, a failed one no output, and one that succeeded a code
-- of 2xx and no error.
pub visit_all-Shape :
    (w : Setting) (tasks : List TaskSpec) → Each Shape (visit_all w tasks).statuses
unfolding visit_all
visit_all-Shape w tasks =
    for_each_inv (λ s. Each Shape s.statuses) (visit w)
      (λ t s each. visit-Shape w t s (visit w t s) (visit-Outcome w t s) each) tasks start tt

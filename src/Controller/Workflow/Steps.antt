-- ===== src/Controller/Workflow/Steps.antt =====
-- The loop of WorkflowReconciler.Reconcile over spec.tasks, and the phase that it leads to.
use mathop_operator.Base.{
  if◌then◌else◌, ◌≡◌, refl, true, false, List, [], ◌∷◌, String, map, Bool, any, ◌++◌, ap, ◌||◌,
  ◌==◌, arith, append-nil, ◌∙◌, sym, any-append, inl, append_assoc, inr, subst,
}
use mathop_operator.Controller.Workflow.{
  Environment, LoopState, note_status, apply_steps, status_of_child, child_spec, child_name,
  map_input_from, Trace, WorkflowTaskStatus, Result, ok, Workflow, err, WorkflowTaskSpec, child_key,
  mutate_child, HttpTask, child_applied, WorkflowFieldMapping, FieldMapping, HttpTaskSpec,
}
use mathop_operator.Base.Result.{Result-cases}
use mathop_operator.Controller.Index.{task_index_values, task_index_key, index_value_of}

abbrev pub is_failed : WorkflowTaskStatus → Bool
is_failed ts = ts.phase == "Failed"

abbrev pub is_open : WorkflowTaskStatus → Bool
is_open ts = (ts.phase == "Pending") || (ts.phase == "Running")

-- The flags of the loop say what the statuses say, and the statuses stand for the steps, in order.
abbrev pub Follows : List String → LoopState → Type 0
Follows names s =
    (map (λ (ts : WorkflowTaskStatus). ts.name) s.statuses ≡ names)
    × (s.has_failed ≡ any is_failed s.statuses)
    × (s.has_pending ≡ any is_open s.statuses)

abbrev pub OnOk : (LoopState → Type 0) → Result LoopState → Type 0
OnOk P (ok s) = P s
OnOk P (err e) = Unit

map-append {ℓ κ} :
    {A : Type ℓ} {B : Type κ} (f : A → B) (xs ys : List A) → map f (xs ++ ys) ≡ map f xs ++ map f ys
map-append f [] ys = refl
map-append f (x ∷ xs) ys = ap (λ zs. f x ∷ zs) (map-append f xs ys)

note_status-Follows :
    (names : List String) (ts : WorkflowTaskStatus) (s : LoopState)
    → Follows names s
    → Follows (names ++ ts.name ∷ []) (note_status ts s)
unfolding note_status
note_status-Follows names ts s (n, f, p) = (
  map-append (λ (t : WorkflowTaskStatus). t.name) s.statuses (ts ∷ [])
      ∙ ap (λ xs. xs ++ ts.name ∷ []) n,
  flag (is_failed ts) s.has_failed (any is_failed s.statuses) f
      ∙ sym (any-append is_failed s.statuses (ts ∷ [])),
  flag (is_open ts) s.has_pending (any is_open s.statuses) p
      ∙ sym (any-append is_open s.statuses (ts ∷ [])),
)
  where
    flag : (b c d : Bool) → c ≡ d → (if b then true else c) ≡ (d || (b || false))
    flag b c d e = ground (arith, e)

module _ (env : Environment) (url : String) where
  pub apply_steps-ok :
      (wf : Workflow) (step : WorkflowTaskSpec) (steps : List WorkflowTaskSpec) (s : LoopState)
      (tr : Trace) (child : HttpTask)
      → env.create_or_update tr (child_key env url wf step) (mutate_child env url wf step)
        ≡ ok child
      → apply_steps env url wf (step ∷ steps) s tr
        ≡ apply_steps env url wf steps
            (note_status (status_of_child step child) s)
            (child_applied child ∷ tr)
  unfolding apply_steps
  apply_steps-ok wf step steps s tr child e = rw (e, apply_steps) refl

  pub apply_steps-err :
      (wf : Workflow) (step : WorkflowTaskSpec) (steps : List WorkflowTaskSpec) (s : LoopState)
      (tr : Trace) (m : String)
      → env.create_or_update tr (child_key env url wf step) (mutate_child env url wf step) ≡ err m
      → apply_steps env url wf (step ∷ steps) s tr ≡ (err m, tr)
  unfolding apply_steps
  apply_steps-err wf step steps s tr m e = rw (e, apply_steps) refl

  -- A statement on the loop's outcome holds when it holds of the end and each round keeps it.
  pub apply_steps_ind {ℓ} :
      (P : List WorkflowTaskSpec → LoopState → Trace → Result LoopState × Trace → Type ℓ)
      → (wf : Workflow) → ((s : LoopState) (tr : Trace) → P [] s tr (ok s, tr))
      → ((step : WorkflowTaskSpec) (steps : List WorkflowTaskSpec) (s : LoopState) (tr : Trace)
            (child : HttpTask) (r : Result LoopState × Trace)
          → P steps (note_status (status_of_child step child) s) (child_applied child ∷ tr) r
          → P (step ∷ steps) s tr r)
      → ((step : WorkflowTaskSpec) (steps : List WorkflowTaskSpec) (s : LoopState) (tr : Trace)
            (m : String)
          → P (step ∷ steps) s tr (err m, tr))
      → (steps : List WorkflowTaskSpec) (s : LoopState) (tr : Trace)
      → P steps s tr (apply_steps env url wf steps s tr)
  apply_steps_ind P wf end more stop [] s tr = unfold apply_steps in end s tr
  apply_steps_ind P wf end more stop (step ∷ steps) s tr =
      elim (Result-cases
        (env.create_or_update tr (child_key env url wf step) (mutate_child env url wf step))) [
          | inl (child, e) ↦
              subst (P (step ∷ steps) s tr) (sym (apply_steps-ok wf step steps s tr child e))
                (more step steps s tr child _ (apply_steps_ind P wf end more stop steps _ _))
          | inr (m, e) ↦
              subst (P (step ∷ steps) s tr) (sym (apply_steps-err wf step steps s tr m e))
                (stop step steps s tr m)
        ]

  pub apply_steps-Follows :
      (wf : Workflow) (names : List String) (steps : List WorkflowTaskSpec) (s : LoopState)
      (tr : Trace)
      → Follows names s
      → OnOk
          (Follows (names ++ map (λ (t : WorkflowTaskSpec). t.name) steps))
          (apply_steps env url wf steps s tr).0
  apply_steps-Follows wf names steps s tr =
      apply_steps_ind
        (λ steps s tr r.
          (names : List String)
          → Follows names s
          → OnOk (Follows (names ++ map (λ (t : WorkflowTaskSpec). t.name) steps)) r.0)
        wf (λ s tr names h. rw (append-nil names) h)
        (λ step steps s tr child r ih names h.
          subst (λ ns. OnOk (Follows ns) r.0)
            (append_assoc names (step.name ∷ []) (map (λ (t : WorkflowTaskSpec). t.name) steps))
            (ih (names ++ step.name ∷ [])
              (note_status-Follows names (status_of_child step child) s h)))
        (λ step steps s tr m names h. tt) steps s tr names

-- The index values of a child are the keys under which its sources look for their dependents.
pub task_index_values-child :
    (wf : Workflow) (step : WorkflowTaskSpec) (child : HttpTask)
    → child.spec ≡ child_spec wf step
    → task_index_values child
      ≡ map
          (λ (m : WorkflowFieldMapping). task_index_key (child_name wf m.source_step))
          step.input_from
unfolding task_index_values child_spec map_input_from
task_index_values-child wf step child e =
    ap
      (λ (sp : HttpTaskSpec). map (λ (m : FieldMapping). index_value_of m.source_ref) sp.input_from)
      e
    ∙ go step.input_from
  where
    go :
        (ms : List WorkflowFieldMapping)
        → map (λ (m : FieldMapping). index_value_of m.source_ref) (map_input_from wf ms)
          ≡ map (λ (m : WorkflowFieldMapping). task_index_key (child_name wf m.source_step)) ms
    go [] = refl
    go (m ∷ ms) = ap (λ r. task_index_key (child_name wf m.source_step) ∷ r) (go ms)

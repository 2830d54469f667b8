-- ===== src/Controller/Workflow/Stable.antt =====
-- What a reconcile of a Workflow leaves of it, of internal/controller/workflow_controller.go, when the
-- children stand still.
use mathop_operator.Base.{
  String, ◌≡◌, false, ap, ◌∙◌, refl, Bool-cases, inl, inr, arith, sym, subst, eq-cases,
  if◌then◌else◌, eq_refl, Bool,
}
use mathop_operator.Api.{Workflow}
use mathop_operator.Controller.Workflow.{
  Environment, LoopState, with_ids, with_outcome, with_notified, overall_phase, should_notify,
}

module _ (env : Environment) (url : String) where
  -- with_ids changes nothing the second time.
  with_ids_idem : (wf : Workflow) → with_ids url (with_ids url wf) ≡ with_ids url wf
  unfolding with_ids
  with_ids_idem wf = elim (eq-cases wf.status.transaction_id "") [
    | inl e ↦ elim (eq-cases wf.meta.uid "") [
      | inl f ↦ rw (e.0, f.0) refl
      | inr f ↦ rw (e.0, f.0) refl
    ]
    | inr e ↦ rw (e.0, e.0) refl
  ]

  -- What a reconcile whose loop ends with `s` leaves of the workflow.
  abbrev pub next : Workflow → LoopState → Workflow
  next wf s =
      let w = with_outcome env url (with_ids url wf) s in
      if should_notify env url w (overall_phase s)
      then with_notified env url w (overall_phase s)
      else w

  abbrev pub notifies : Workflow → LoopState → Bool
  notifies wf s = should_notify env url (with_outcome env url (with_ids url wf) s) (overall_phase s)

  outcome_idem :
      (wf : Workflow) (s : LoopState)
      → with_outcome env url (with_ids url (with_outcome env url (with_ids url wf) s)) s
        ≡ with_outcome env url (with_ids url wf) s
  unfolding with_ids
  outcome_idem wf s = ap (λ v. with_outcome env url v s) (with_ids_idem wf)

  notified_idem :
      (wf : Workflow) (s : LoopState)
      → with_outcome env url
          (with_ids url
            (with_notified env url (with_outcome env url (with_ids url wf) s) (overall_phase s)))
          s
        ≡ with_notified env url (with_outcome env url (with_ids url wf) s) (overall_phase s)
  unfolding with_ids
  notified_idem wf s =
      ap (λ v. with_notified env url (with_outcome env url v s) (overall_phase s))
        (with_ids_idem wf)

  -- A workflow that a reconcile leaves as it is, without a notification.
  abbrev pub Steady : Workflow → LoopState → Type 0
  Steady wf s = (notifies wf s ≡ false) × (next wf s ≡ wf)

  fixed_by :
      (wf : Workflow) (s : LoopState)
      → with_outcome env url (with_ids url wf) s ≡ wf
      → should_notify env url wf (overall_phase s) ≡ false
      → Steady wf s
  fixed_by wf s same quiet = (
    ap (λ w. should_notify env url w (overall_phase s)) same ∙ quiet,
    ap
          (λ w.
            if should_notify env url w (overall_phase s)
            then with_notified env url w (overall_phase s)
            else w)
          same
        ∙ rw quiet refl,
  )

  notified_once :
      (wf : Workflow) (phase : String)
      → should_notify env url (with_notified env url wf phase) phase ≡ false
  notified_once wf phase = ground (arith, eq_refl phase)

  -- What one reconcile leaves, the next leaves too.
  pub next-Steady : (wf : Workflow) (s : LoopState) → Steady (next wf s) s
  next-Steady wf s =
      let w = with_outcome env url (with_ids url wf) s in
      elim (Bool-cases (notifies wf s)) [
        | inl e ↦
            let left : next wf s ≡ with_notified env url w (overall_phase s) = rw e refl in
            subst (λ v. Steady v s) (sym left)
              (fixed_by (with_notified env url w (overall_phase s)) s (notified_idem wf s)
                (notified_once w (overall_phase s)))
        | inr e ↦
            let left : next wf s ≡ w = rw e refl in
            subst (λ v. Steady v s) (sym left) (fixed_by w s (outcome_idem wf s) e)
      ]

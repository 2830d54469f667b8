-- ===== src/Controller/Workflow/Notify.antt =====
-- When WorkflowReconciler.Reconcile calls the notification endpoint, and what follows from the answer.
use mathop_operator.Base.{
  absurd_bool, if◌then◌else◌, ◌≡◌, refl, true, false, ◌∷◌, ◌≢◌, ◌↔◌, ◌⊎◌, inl, inr, Option, none,
  some, String, suc, arith, Bool-cases, subst, sym, ◌∙◌, ap,
}
use mathop_operator.Controller.Platform.{found, requeue_after, done, NamespacedName}
use mathop_operator.Controller.Workflow.{
  Environment, LoopState, overall_phase, apply_steps, fresh_loop, Trace, status_updated, reconcile,
  after_get, after_steps, after_status, notify, after_notify, with_ids, Workflow, send_checked,
  send_marshalled, Result, should_notify, ok, with_outcome, Run, with_notified,
}
use mathop_operator.Controller.Workflow.Sends.{
  sends, sends-apply_steps, sends-after_notify, should_notify_iff,
}

-- A reconcile whose loop succeeds with `s`, and whose status the server stores.
module _ (env : Environment) (url : String) (key : NamespacedName) (tr tr' : Trace) (wf : Workflow)
    (s : LoopState) (read : env.get tr key ≡ found wf)
    (loop : apply_steps env url (with_ids url wf) wf.spec.tasks (fresh_loop env url) tr
      ≡ (ok s, tr')) where
  abbrev pub written : Workflow
  written = with_outcome env url (with_ids url wf) s

  abbrev pub Stores : Type 0
  Stores = env.update_status tr' written ≡ ok written

  pub reaches_notify :
      Stores
      → reconcile env url key tr ≡ (
          if should_notify env url written (overall_phase s)
          then after_notify env url written
              (overall_phase s)
              (notify env url written (status_updated written ∷ tr'))
          else (done, status_updated written ∷ tr'))
  unfolding reconcile after_get after_steps after_status
  reaches_notify stores = rw (read, after_get, loop, stores) refl

  -- Once a phase was notified and recorded, a reconcile that finds the same phase writes the status
  -- and ends: it does not notify again.
  pub notified_not_repeated :
      Stores
      → wf.status.notified_phase ≡ overall_phase s
      → reconcile env url key tr ≡ (done, status_updated written ∷ tr')
  unfolding with_ids
  notified_not_repeated stores same = rw (reaches_notify stores, not_again) refl
    where
      not_again : should_notify env url written (overall_phase s) ≡ false
      not_again = elim (Bool-cases (should_notify env url written (overall_phase s))) [
        | inl e ↦ absurd (((should_notify_iff env url written (overall_phase s)).0 e).2 same)
        | inr e ↦ e
      ]

  -- What a reconcile does after the answer `o` to its notification, with the trace `after`.
  abbrev pub FollowsUp : Option String → Trace → Run → Type 0
  FollowsUp (some e) after r = r ≡ (requeue_after 10, after)
  FollowsUp none after r =
      r.1 ≡ status_updated (with_notified env url written (overall_phase s)) ∷ after

  follows_up :
      (o : Option String) (after : Trace)
      → FollowsUp o after (after_notify env url written (overall_phase s) (o, after))
  unfolding after_notify
  follows_up (some e) after = refl
  follows_up none after = refl

  -- A notification that fails is left to a reconcile ten seconds later, with nothing recorded; one that
  -- succeeds is recorded as the last thing the reconcile writes.
  pub notification_followed_up :
      Stores
      → should_notify env url written (overall_phase s) ≡ true
      → FollowsUp
          (notify env url written (status_updated written ∷ tr')).0
          (notify env url written (status_updated written ∷ tr')).1
          (reconcile env url key tr)
  notification_followed_up stores should =
      subst
        (FollowsUp (notify env url written (status_updated written ∷ tr')).0
          (notify env url written (status_updated written ∷ tr')).1)
        (sym (reaches_notify stores ∙ rw should refl)) (follows_up _ _)

  sends-notify :
      (body : String)
      → env.marshal_status written.status ≡ ok body
      → env.check_request "POST" wf.spec.notify_url ≡ none
      → sends (notify env url written (status_updated written ∷ tr')).1 ≡ suc (sends tr')
  unfolding notify send_marshalled send_checked with_ids overall_phase
  sends-notify body encodes valid = rw (encodes, send_marshalled, valid) refl

  sends_loop : sends tr' ≡ sends tr
  sends_loop =
      ap (λ (r : Result LoopState × Trace). sends r.1) (sym loop)
      ∙ sends-apply_steps env url (with_ids url wf) wf.spec.tasks (fresh_loop env url) tr

  quiet :
      Stores
      → should_notify env url written (overall_phase s) ≡ false
      → sends (reconcile env url key tr).1 ≡ sends tr
  quiet stores e = rw (reaches_notify stores, e) sends_loop

  loud :
      Stores
      → (body : String) → env.marshal_status written.status ≡ ok body
      → env.check_request "POST" wf.spec.notify_url ≡ none
      → should_notify env url written (overall_phase s) ≡ true
      → sends (reconcile env url key tr).1 ≡ suc (sends tr)
  loud stores body encodes valid e =
      rw (reaches_notify stores, e)
        (sends-after_notify env url written (overall_phase s) _ _
          ∙ sends-notify body encodes valid
          ∙ ap suc sends_loop)

  -- A reconcile whose request can be built notifies exactly if the phase that it finds is terminal, an
  -- endpoint is given and the phase is not the one that was last recorded as notified.
  pub notifies_iff :
      Stores
      → (body : String) → env.marshal_status written.status ≡ ok body
      → env.check_request "POST" wf.spec.notify_url ≡ none
      → (sends (reconcile env url key tr).1 ≡ suc (sends tr)) ↔ (
          ((overall_phase s ≡ "Succeeded") ⊎ (overall_phase s ≡ "Failed"))
          × (wf.spec.notify_url ≢ "")
          × (wf.status.notified_phase ≢ overall_phase s))
  unfolding with_ids
  notifies_iff stores body encodes valid =
      let phase = overall_phase s in
      let test = should_notify_iff env url written phase in
      elim (Bool-cases (should_notify env url written phase)) [
        | inl e ↦ (λ _. test.0 e, λ _. loud stores body encodes valid e)
        | inr e ↦ (
          λ h. absurd (omega (arith, h, quiet stores e)),
          λ h. absurd (absurd_bool (sym e ∙ test.1 h)),
        )
      ]

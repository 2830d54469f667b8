-- ===== src/Watcher/Progress.antt =====
-- The phases that the tables of function-httptask/watcher/main.go hold, against the notifications.
use mathop_operator.Base.{
  if◌then◌else◌, [], ◌∷◌, String, Option, none, some, List, ◌≡◌, refl, Option-cases, eq-cases, ◌==◌,
  inl, inr, ◌≢◌, subst, ℕ, suc, ◌+◌, true, ◌∙◌, arith,
}
use mathop_operator.Json.{Codec}
use mathop_operator.Watcher.{Database, Pool, WorkflowObject, handle_workflow}
use mathop_operator.Watcher.Rows.{run_phase, handle_workflow-lost, handle_workflow_stores_phase}
use mathop_operator.Watcher.Statements.{objects, next_statement, statements-handle_workflow}
use mathop_operator.Watcher.Events.{
  Notification, added, updated, deleted, unstructured, other, on_event, watch_all, handle,
}

-- What a reader asks the tables for: the phase of each transaction.
abbrev pub Progress : Type 0
Progress = String → Option String

abbrev pub progress : Database → Progress
progress db tx_id = run_phase tx_id db.runs

abbrev pub with_phase : String → String → Progress → Progress
with_phase tx_id phase p tx_id' = if tx_id == tx_id' then some phase else p tx_id'

-- The workflow that a notification is about, where it has a transaction.
abbrev running : WorkflowObject → Option WorkflowObject
running u = if u.transaction_id == "" then none else some u

abbrev pub reported : Notification → Option WorkflowObject
reported (added (unstructured u)) = running u
reported (updated old (unstructured u)) = running u
reported _ = none

abbrev pub after_report : Option WorkflowObject → Progress → Progress
after_report none p = p
after_report (some u) p = with_phase u.transaction_id u.phase p

-- The abstract machine, from the number of the next statement on: it keeps the phase that each
-- notification reports, unless the pool refuses the very statement that would write it. After that
-- statement come those for the tasks of the workflow, up to the first that is refused.
pub data Tracks (pool : Pool) : List Notification → ℕ → Progress → Progress → Type 0 where
  finished : {k : ℕ} {p : Progress} → Tracks pool [] k p p
  silent :
      {n : Notification} {ns : List Notification} {k : ℕ} {p q : Progress}
      → reported n ≡ none
      → Tracks pool ns k p q
      → Tracks pool (n ∷ ns) k p q
  stored :
      {n : Notification} {ns : List Notification} {k : ℕ} {p q : Progress} (u : WorkflowObject)
      → reported n ≡ some u
      → pool k ≡ none
      → Tracks pool ns
          (next_statement pool (objects u.raw_tasks) (suc k))
          (with_phase u.transaction_id u.phase p)
          q
      → Tracks pool (n ∷ ns) k p q
  lost :
      {n : Notification} {ns : List Notification} {k : ℕ} {p q : Progress} (u : WorkflowObject)
      (e : String)
      → reported n ≡ some u
      → pool k ≡ some e
      → Tracks pool ns (suc k) p q
      → Tracks pool (n ∷ ns) k p q

module _ (codec : Codec) (pool : Pool) where
  handle_workflow-stores :
      (u : WorkflowObject) (db : Database)
      → u.transaction_id ≢ ""
      → pool db.statements ≡ none
      → progress (handle_workflow codec pool u db).1
        ≡ with_phase u.transaction_id u.phase (progress db)
  handle_workflow-stores u db ne works =
      λ i tx_id. handle_workflow_stores_phase codec pool u db tx_id ne works i

  handle_workflow-blank :
      (u : WorkflowObject) (db : Database)
      → u.transaction_id == "" ≡ true
      → handle_workflow codec pool u db ≡ (none, db)
  unfolding handle_workflow
  handle_workflow-blank u db e = rw e refl

  -- The machine's state of the tables.
  abbrev From : List Notification → Database → Progress → Type 0
  From ns db q = Tracks pool ns db.statements (progress db) q

  -- One workflow that is handled is one step of the machine.
  Tracks-handled :
      (n : Notification) (ns : List Notification) (u : WorkflowObject) (db : Database)
      (q : Progress)
      → reported n ≡ running u
      → From ns (handle_workflow codec pool u db).1 q
      → From (n ∷ ns) db q
  Tracks-handled n ns u db q r rest = elim (eq-cases u.transaction_id "") [
    | inl e ↦
        silent (r ∙ rw e.0 refl) (subst (λ d. From ns d.1 q) (handle_workflow-blank u db e.0) rest)
    | inr e ↦ elim (Option-cases (pool db.statements)) [
      | inl works ↦ stored u (r ∙ rw e.0 refl) works (
          subst (λ k. Tracks pool ns k (with_phase u.transaction_id u.phase (progress db)) q)
            (statements-handle_workflow codec pool u db e.1 works)
            (subst (λ p. Tracks pool ns (handle_workflow codec pool u db).1.statements p q)
              (handle_workflow-stores u db e.1 works) rest))
      | inr (m, fails) ↦ lost u m (r ∙ rw e.0 refl) fails (
          subst (λ k. Tracks pool ns k (progress db) q) (next_is_suc db.statements)
            (subst (λ d. From ns d.1 q) (handle_workflow-lost codec pool u db m e.1 fails) rest))
    ]
  ]
    where
      next_is_suc : (k : ℕ) → k + 1 ≡ suc k
      next_is_suc k = omega arith

  Tracks-on_event :
      (n : Notification) (ns : List Notification) (db : Database) (q : Progress)
      → From ns (on_event codec pool n db) q
      → From (n ∷ ns) db q
  unfolding on_event handle
  Tracks-on_event (added (unstructured u)) ns db q rest = Tracks-handled _ ns u db q refl rest
  Tracks-on_event (added other) ns db q rest = silent refl rest
  Tracks-on_event (updated old (unstructured u)) ns db q rest = Tracks-handled _ ns u db q refl rest
  Tracks-on_event (updated old other) ns db q rest = silent refl rest
  Tracks-on_event (deleted obj) ns db q rest = silent refl rest

  watch_all_runs :
      (ns : List Notification) (db : Database) → From ns db (progress (watch_all codec pool ns db))
  unfolding watch_all
  watch_all_runs [] db = finished
  watch_all_runs (n ∷ ns) db =
      Tracks-on_event n ns db _ (watch_all_runs ns (on_event codec pool n db))

-- The machine comes to one result: it leaves nothing to choice.
Tracks_determined :
    (pool : Pool) (ns : List Notification) (k : ℕ) (p q r : Progress)
    → Tracks pool ns k p q
    → Tracks pool ns k p r
    → q ≡ r
Tracks_determined pool ns k p q r finished finished = refl
Tracks_determined pool ns k p q r (silent e t) (silent e' t') =
    Tracks_determined pool _ k p q r t t'
Tracks_determined pool ns k p q r (silent e t) (stored u e' w t') = absurd (cc (e, e'))
Tracks_determined pool ns k p q r (silent e t) (lost u m e' w t') = absurd (cc (e, e'))
Tracks_determined pool ns k p q r (stored u e w t) (silent e' t') = absurd (cc (e, e'))
Tracks_determined pool all k p q r (stored {n} {ns} u e w t) (stored u' e' w' t') =
    let same : u ≡ u' = cc (e, e') in
    Tracks_determined pool ns _ _ q r
      (subst
        (λ v.
          Tracks pool ns (next_statement pool (objects v.raw_tasks) (suc k))
            (with_phase v.transaction_id v.phase p) q)
        same t)
      t'
Tracks_determined pool ns k p q r (stored u e w t) (lost u' m e' w' t') = absurd (cc (w, w'))
Tracks_determined pool ns k p q r (lost u m e w t) (silent e' t') = absurd (cc (e, e'))
Tracks_determined pool ns k p q r (lost u m e w t) (stored u' e' w' t') = absurd (cc (w, w'))
Tracks_determined pool ns k p q r (lost u m e w t) (lost u' m' e' w' t') =
    Tracks_determined pool _ _ p q r t t'

-- What the tables answer after the notifications is what the abstract machine comes to, and the one thing
-- that it can come to, from what they answered before: each phase that is reported for a transaction
-- replaces the one that was kept exactly if the statement that writes it is accepted, and nothing
-- else changes a phase.
pub watch_all-Tracks :
    (codec : Codec) (pool : Pool) (ns : List Notification) (db : Database)
    → Tracks pool ns db.statements (progress db) (progress (watch_all codec pool ns db))
      × ((q : Progress)
          → Tracks pool ns db.statements (progress db) q
          → q ≡ progress (watch_all codec pool ns db))
watch_all-Tracks codec pool ns db =
    let runs = watch_all_runs codec pool ns db in
    (runs, λ q t. Tracks_determined pool ns db.statements (progress db) q _ t runs)

-- The phase that is kept after the notifications where nothing fails.
abbrev pub after_reports : List Notification → Progress → Progress
after_reports [] p = p
after_reports (n ∷ ns) p = after_reports ns (after_report (reported n) p)

-- A machine whose statements never fail comes to the phases that were reported last.
pub tracks_without_failure :
    (pool : Pool)
    → ((k : ℕ) → pool k ≡ none)
    → (ns : List Notification) (k : ℕ) (p q : Progress) → Tracks pool ns k p q
    → q ≡ after_reports ns p
tracks_without_failure pool works ns k p q finished = refl
tracks_without_failure pool works ns k p q (silent {n} e t) =
    rw e (tracks_without_failure pool works _ _ p q t)
tracks_without_failure pool works ns k p q (stored {n} u e h t) =
    rw e (tracks_without_failure pool works _ _ _ q t)
tracks_without_failure pool works ns k p q (lost u m e h t) = let never = works k in cc

-- Where no statement fails, the tables answer with the phase that was reported last for each
-- transaction, and with what they answered before where none was.
pub watch_all-reports :
    (codec : Codec) (pool : Pool) (ns : List Notification) (db : Database)
    → ((k : ℕ) → pool k ≡ none)
    → progress (watch_all codec pool ns db) ≡ after_reports ns (progress db)
watch_all-reports codec pool ns db works =
    tracks_without_failure pool works ns _ _ _ (watch_all_runs codec pool ns db)

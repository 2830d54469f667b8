-- ===== src/Watcher/Statements.antt =====
-- The number of the statements that handleWorkflow of function-httptask/watcher/main.go executes.
use mathop_operator.Base.{
  ℕ, zero, suc, String, Option, none, some, ◌≡◌, ◌≢◌, refl, ◌∙◌, ap, arith, Option-cases, inl, inr,
}
use mathop_operator.Json.{Json, Items, Fields, Codec}
use mathop_operator.Watcher.{
  Database, Pool, WorkflowObject, executed, upsert_run, upsert_task, upsert_tasks, handle_workflow,
}
use mathop_operator.Watcher.Rows.{upsert_tasks-done, upsert_tasks-failed, handle_workflow-stored}

-- The tasks that are maps.
abbrev pub objects : Items → ℕ
objects Items.nil = 0
objects (Items.cons (Json.obj t) rest) = suc (objects rest)
objects (Items.cons _ rest) = objects rest

-- The number of the next statement after so many in a row from one on, of which a refused one is the
-- last.
abbrev pub next_statement : Pool → ℕ → ℕ → ℕ
next_statement pool zero k = k
next_statement pool (suc m) k = elim (pool k) [
  | none ↦ next_statement pool m (suc k)
  | some e ↦ suc k
]

statements-executed :
    (o : Option String) (k : ℕ) (before after : Database)
    → before.statements ≡ k
    → after.statements ≡ k
    → ((executed o before after).0 ≡ o) × ((executed o before after).1.statements ≡ k)
statements-executed (some e) k before after b a = (refl, b)
statements-executed none k before after b a = (refl, a)

module _ (codec : Codec) (pool : Pool) where
  statements-upsert_task :
      (tx_id : String) (t : Fields) (db : Database)
      → ((upsert_task codec pool tx_id t db).0 ≡ pool db.statements)
        × ((upsert_task codec pool tx_id t db).1.statements ≡ suc db.statements)
  unfolding upsert_task
  statements-upsert_task tx_id t db =
      statements-executed (pool db.statements) (suc db.statements) _ _ (omega arith) (omega arith)

  statements-upsert_tasks :
      (tx_id : String) (tasks : Items) (db : Database)
      → (upsert_tasks codec pool tx_id tasks db).1.statements
        ≡ next_statement pool (objects tasks) db.statements
  unfolding upsert_tasks
  statements-upsert_tasks tx_id Items.nil db = refl
  statements-upsert_tasks tx_id (Items.cons (Json.obj t) rest) db =
      let one = statements-upsert_task tx_id t db in
      elim (Option-cases (pool db.statements)) [
        | inl works ↦
            ap (λ (r : Option String × Database). r.1.statements)
              (upsert_tasks-done codec pool tx_id t rest db (one.0 ∙ works))
            ∙ statements-upsert_tasks tx_id rest (upsert_task codec pool tx_id t db).1
            ∙ ap (next_statement pool (objects rest)) one.1
            ∙ rw works refl
        | inr (m, fails) ↦
            ap (λ (r : Option String × Database). r.1.statements)
              (upsert_tasks-failed codec pool tx_id m t rest db (one.0 ∙ fails))
            ∙ one.1
            ∙ rw fails refl
      ]
  statements-upsert_tasks tx_id (Items.cons (Json.arr x) rest) db =
      statements-upsert_tasks tx_id rest db
  statements-upsert_tasks tx_id (Items.cons Json.null rest) db =
      statements-upsert_tasks tx_id rest db
  statements-upsert_tasks tx_id (Items.cons (Json.bool x) rest) db =
      statements-upsert_tasks tx_id rest db
  statements-upsert_tasks tx_id (Items.cons (Json.int x) rest) db =
      statements-upsert_tasks tx_id rest db
  statements-upsert_tasks tx_id (Items.cons (Json.float x s) rest) db =
      statements-upsert_tasks tx_id rest db
  statements-upsert_tasks tx_id (Items.cons (Json.str x) rest) db =
      statements-upsert_tasks tx_id rest db

  statements-upsert_run :
      (tx_id name notify_url phase : String) (db : Database)
      → (upsert_run codec pool tx_id name notify_url phase db).1.statements ≡ suc db.statements
  unfolding upsert_run
  statements-upsert_run tx_id name notify_url phase db =
      (statements-executed (pool db.statements) (suc db.statements) _ _ (omega arith)
        (omega arith)).1

  -- After the statement for the run come those for the tasks.
  pub statements-handle_workflow :
      (u : WorkflowObject) (db : Database)
      → u.transaction_id ≢ ""
      → pool db.statements ≡ none
      → (handle_workflow codec pool u db).1.statements
        ≡ next_statement pool (objects u.raw_tasks) (suc db.statements)
  statements-handle_workflow u db ne works =
      ap (λ (r : Option String × Database). r.1.statements)
        (handle_workflow-stored codec pool u db ne works)
      ∙ statements-upsert_tasks u.transaction_id u.raw_tasks _
      ∙ ap (next_statement pool (objects u.raw_tasks))
          (statements-upsert_run u.transaction_id u.name u.notify_url u.phase db)

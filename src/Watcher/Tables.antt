-- ===== src/Watcher/Tables.antt =====
-- The constraints that the schema of function-httptask/watcher/main.go declares.
use mathop_operator.Base.{
  [], ◌∷◌, String, Option, none, List, ◌≡◌, refl, arith, eq_iff, Bool, true, false, ◌||◌,
  Bool-cases, inl, Option-cases, ◌==◌, inr, subst, sym, eq_refl, eq-cases,
}
use mathop_operator.Json.{Items, Fields, Codec}
use mathop_operator.Watcher.{
  RunRow, TaskRow, Database, Pool, WorkflowObject, put_run, put_task, same_task, upsert_run,
  upsert_task, upsert_tasks, handle_workflow,
}
use mathop_operator.Watcher.Rows.{upsert_tasks_inv, handle_workflow-stored, handle_workflow-lost}
use mathop_operator.Watcher.Events.{
  Notification, added, updated, deleted, unstructured, other, on_event, watch_all, handle,
}

abbrev pub has_run : String → List RunRow → Bool
has_run tx_id [] = false
has_run tx_id (q ∷ qs) = (q.transaction_id == tx_id) || has_run tx_id qs

abbrev pub has_task : String → String → List TaskRow → Bool
has_task tx_id name [] = false
has_task tx_id name (q ∷ qs) = same_task q tx_id name || has_task tx_id name qs

-- PRIMARY KEY (transaction_id)
abbrev pub DistinctRuns : List RunRow → Type 0
DistinctRuns [] = Unit
DistinctRuns (q ∷ qs) = (has_run q.transaction_id qs ≡ false) × DistinctRuns qs

-- PRIMARY KEY (transaction_id, task_name)
abbrev pub DistinctTasks : List TaskRow → Type 0
DistinctTasks [] = Unit
DistinctTasks (q ∷ qs) = (has_task q.transaction_id q.task_name qs ≡ false) × DistinctTasks qs

-- REFERENCES workflow_runs(transaction_id)
abbrev pub Referring : List RunRow → List TaskRow → Type 0
Referring runs [] = Unit
Referring runs (t ∷ ts) = (has_run t.transaction_id runs ≡ true) × Referring runs ts

abbrev pub MeetsSchema : Database → Type 0
MeetsSchema db = DistinctRuns db.runs × DistinctTasks db.tasks × Referring db.runs db.tasks

has_run-put_run :
    (r : RunRow) (tx_id : String) (rows : List RunRow)
    → has_run tx_id (put_run r rows) ≡ ((r.transaction_id == tx_id) || has_run tx_id rows)
unfolding put_run
has_run-put_run r tx_id [] = refl
has_run-put_run r tx_id (q ∷ qs) = ground (
  arith,
  eq_iff q.transaction_id r.transaction_id,
  eq_iff q.transaction_id tx_id,
  eq_iff r.transaction_id tx_id,
  has_run-put_run r tx_id qs,
)

has_run-put : (r : RunRow) (rows : List RunRow) → has_run r.transaction_id (put_run r rows) ≡ true
has_run-put r rows =
    ground (arith, has_run-put_run r r.transaction_id rows, eq_refl r.transaction_id)

put_run-DistinctRuns :
    (r : RunRow) (rows : List RunRow) → DistinctRuns rows → DistinctRuns (put_run r rows)
unfolding put_run
put_run-DistinctRuns r [] h = (refl, tt)
put_run-DistinctRuns r (q ∷ qs) h = elim (Bool-cases (q.transaction_id == r.transaction_id)) [
  | inl e ↦ rw e h
  | inr e ↦ rw e (
    ground (
      arith,
      has_run-put_run r q.transaction_id qs,
      eq_iff q.transaction_id r.transaction_id,
      eq_iff r.transaction_id q.transaction_id,
      h.0,
    ),
    put_run-DistinctRuns r qs h.1,
  )
]

has_task-put_task :
    (r : TaskRow) (tx_id name : String) (rows : List TaskRow)
    → has_task tx_id name (put_task r rows) ≡ (same_task r tx_id name || has_task tx_id name rows)
unfolding put_task
has_task-put_task r tx_id name [] = refl
has_task-put_task r tx_id name (q ∷ qs) = ground (
  arith,
  eq_iff q.transaction_id r.transaction_id,
  eq_iff q.transaction_id tx_id,
  eq_iff r.transaction_id tx_id,
  eq_iff q.task_name r.task_name,
  eq_iff q.task_name name,
  eq_iff r.task_name name,
  has_task-put_task r tx_id name qs,
)

put_task-DistinctTasks :
    (r : TaskRow) (rows : List TaskRow) → DistinctTasks rows → DistinctTasks (put_task r rows)
unfolding put_task
put_task-DistinctTasks r [] h = (refl, tt)
put_task-DistinctTasks r (q ∷ qs) h = elim (Bool-cases (same_task q r.transaction_id r.task_name)) [
  | inl e ↦ rw e h
  | inr e ↦ rw e (
    ground (
      arith,
      has_task-put_task r q.transaction_id q.task_name qs,
      eq_iff q.transaction_id r.transaction_id,
      eq_iff r.transaction_id q.transaction_id,
      eq_iff q.task_name r.task_name,
      eq_iff r.task_name q.task_name,
      h.0,
    ),
    put_task-DistinctTasks r qs h.1,
  )
]

put_run-Referring :
    (r : RunRow) (runs : List RunRow) (tasks : List TaskRow)
    → Referring runs tasks
    → Referring (put_run r runs) tasks
put_run-Referring r runs [] h = tt
put_run-Referring r runs (t ∷ ts) h =
    (ground (arith, has_run-put_run r t.transaction_id runs, h.0), put_run-Referring r runs ts h.1)

put_task-Referring :
    (r : TaskRow) (runs : List RunRow) (tasks : List TaskRow)
    → has_run r.transaction_id runs ≡ true
    → Referring runs tasks
    → Referring runs (put_task r tasks)
unfolding put_task
put_task-Referring r runs [] there h = (there, tt)
put_task-Referring r runs (q ∷ qs) there h =
    elim (Bool-cases (same_task q r.transaction_id r.task_name)) [
      | inl e ↦ rw e h
      | inr e ↦ rw e (h.0, put_task-Referring r runs qs there h.1)
    ]

-- The tables meet the schema, and a transaction has a run.
abbrev Recorded : String → Database → Type 0
Recorded tx_id db = MeetsSchema db × (has_run tx_id db.runs ≡ true)

module _ (codec : Codec) (pool : Pool) where
  upsert_task-Recorded :
      (tx_id : String) (t : Fields) (db : Database)
      → Recorded tx_id db
      → Recorded tx_id (upsert_task codec pool tx_id t db).1
  unfolding upsert_task
  upsert_task-Recorded tx_id t db h = elim (Option-cases (pool db.statements)) [
    | inr (m, e) ↦ rw e h
    | inl e ↦ rw e (
      (
        h.0.0,
        put_task-DistinctTasks _ db.tasks h.0.1,
        put_task-Referring _ db.runs db.tasks h.1 h.0.2,
      ),
      h.1,
    )
  ]

  upsert_tasks-Recorded :
      (tx_id : String) (tasks : Items) (db : Database)
      → Recorded tx_id db
      → Recorded tx_id (upsert_tasks codec pool tx_id tasks db).1
  upsert_tasks-Recorded tx_id =
      upsert_tasks_inv codec pool (Recorded tx_id) tx_id
        (λ t db h. upsert_task-Recorded tx_id t db h)

  upsert_run-Recorded :
      (tx_id name notify_url phase : String) (db : Database)
      → pool db.statements ≡ none
      → MeetsSchema db
      → Recorded tx_id (upsert_run codec pool tx_id name notify_url phase db).1
  unfolding upsert_run
  upsert_run-Recorded tx_id name notify_url phase db works h = rw works (
    (put_run-DistinctRuns _ db.runs h.0, h.1, put_run-Referring _ db.runs db.tasks h.2),
    has_run-put _ db.runs,
  )

  handle_workflow-MeetsSchema :
      (u : WorkflowObject) (db : Database)
      → MeetsSchema db
      → MeetsSchema (handle_workflow codec pool u db).1
  unfolding handle_workflow
  handle_workflow-MeetsSchema u db h = elim (eq-cases u.transaction_id "") [
    | inl e ↦ rw e.0 h
    | inr e ↦ elim (Option-cases (pool db.statements)) [
      | inl works ↦
          subst (λ (r : Option String × Database). MeetsSchema r.1)
            (sym (handle_workflow-stored codec pool u db e.1 works))
            (upsert_tasks-Recorded u.transaction_id u.raw_tasks _
              (upsert_run-Recorded u.transaction_id u.name u.notify_url u.phase db works h)).0
      | inr (m, fails) ↦
          subst (λ (r : Option String × Database). MeetsSchema r.1)
            (sym (handle_workflow-lost codec pool u db m e.1 fails)) h
    ]
  ]

  on_event-MeetsSchema :
      (n : Notification) (db : Database) → MeetsSchema db → MeetsSchema (on_event codec pool n db)
  unfolding on_event handle
  on_event-MeetsSchema (added (unstructured u)) db h = handle_workflow-MeetsSchema u db h
  on_event-MeetsSchema (added other) db h = h
  on_event-MeetsSchema (updated old (unstructured u)) db h = handle_workflow-MeetsSchema u db h
  on_event-MeetsSchema (updated old other) db h = h
  on_event-MeetsSchema (deleted obj) db h = h

  -- Whatever notifications come and whatever statements fail, the tables keep to the constraints of
  -- the schema: one row for a transaction, one for a task of it, and no task without the row of its
  -- transaction.
  pub watch_all-MeetsSchema :
      (ns : List Notification) (db : Database)
      → MeetsSchema db
      → MeetsSchema (watch_all codec pool ns db)
  unfolding watch_all
  watch_all-MeetsSchema [] db h = h
  watch_all-MeetsSchema (n ∷ ns) db h =
      watch_all-MeetsSchema ns (on_event codec pool n db) (on_event-MeetsSchema n db h)

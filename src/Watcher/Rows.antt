-- ===== src/Watcher/Rows.antt =====
-- The rows that the watcher of function-httptask/watcher/main.go leaves in its two tables.
use mathop_operator.Base.{
  if◌then◌else◌, [], ◌∷◌, String, Option, none, some, List, eq-false, ◌≡◌, ◌≢◌, refl, arith, eq_iff,
  Bool-cases, inl, Option-cases, ◌==◌, inr, ◌∙◌, ◌+◌, subst, sym, ap,
}
use mathop_operator.Json.{Json, Items, Fields, get, Codec}
use mathop_operator.Watcher.{
  RunRow, TaskRow, Database, Pool, WorkflowObject, put_run, put_task, same_task, upsert_run,
  upsert_task, upsert_tasks, handle_workflow, code_of, executed,
}

-- SELECT phase FROM workflow_runs WHERE transaction_id = …
abbrev pub run_phase : String → List RunRow → Option String
run_phase tx_id [] = none
run_phase tx_id (q ∷ qs) = if q.transaction_id == tx_id then some q.phase else run_phase tx_id qs

run_phase-put_run :
    (r : RunRow) (tx_id : String) (rows : List RunRow)
    → run_phase tx_id (put_run r rows)
      ≡ (if r.transaction_id == tx_id then some r.phase else run_phase tx_id rows)
unfolding put_run
run_phase-put_run r tx_id [] = refl
run_phase-put_run r tx_id (q ∷ qs) = ground (
  arith,
  eq_iff q.transaction_id r.transaction_id,
  eq_iff q.transaction_id tx_id,
  eq_iff r.transaction_id tx_id,
  run_phase-put_run r tx_id qs,
)

-- No code stands in a row.
abbrev pub NoCodes : List TaskRow → Type 0
NoCodes [] = Unit
NoCodes (r ∷ rs) = (r.status_code ≡ none) × NoCodes rs

put_task-NoCodes :
    (r : TaskRow) (rows : List TaskRow)
    → r.status_code ≡ none
    → NoCodes rows
    → NoCodes (put_task r rows)
unfolding put_task
put_task-NoCodes r [] h hs = (h, tt)
put_task-NoCodes r (q ∷ qs) h hs = elim (Bool-cases (same_task q r.transaction_id r.task_name)) [
  | inl e ↦ rw e (h, hs.1)
  | inr e ↦ rw e (hs.0, put_task-NoCodes r qs h hs.1)
]

-- What the dynamic client decodes: a number without a fraction is an int64, and the status code of a
-- task is such a number or is missing.
abbrev pub IsInteger : Option Json → Type 0
IsInteger none = Unit
IsInteger (some (Json.int n)) = Unit
IsInteger _ = ⊥

abbrev pub HasIntegerCodes : Items → Type 0
HasIntegerCodes Items.nil = Unit
HasIntegerCodes (Items.cons (Json.obj t) rest) =
    IsInteger (get "statusCode" t) × HasIntegerCodes rest
HasIntegerCodes (Items.cons _ rest) = HasIntegerCodes rest

code_of_integer : (o : Option Json) → IsInteger o → code_of o ≡ none
code_of_integer none h = refl
code_of_integer (some (Json.int n)) h = refl
code_of_integer (some _) h = absurd h

runs-executed :
    (o : Option String) (db : Database) (tasks : List TaskRow)
    → (executed o
        (record db { statements = db.statements + 1 })
        (record db { statements = db.statements + 1; tasks = tasks })).1.runs
      ≡ db.runs
runs-executed (some e) db tasks = refl
runs-executed none db tasks = refl

executed-NoCodes :
    (o : Option String) (db : Database) (tasks : List TaskRow)
    → NoCodes db.tasks
    → NoCodes tasks
    → NoCodes
        (executed o
          (record db { statements = db.statements + 1 })
          (record db { statements = db.statements + 1; tasks = tasks })).1.tasks
executed-NoCodes (some e) db tasks h hs = h
executed-NoCodes none db tasks h hs = hs

module _ (codec : Codec) (pool : Pool) where
  pub upsert_tasks-done :
      (tx_id : String) (t : Fields) (rest : Items) (db : Database)
      → (upsert_task codec pool tx_id t db).0 ≡ none
      → upsert_tasks codec pool tx_id (Items.cons (Json.obj t) rest) db
        ≡ upsert_tasks codec pool tx_id rest (upsert_task codec pool tx_id t db).1
  unfolding upsert_tasks
  upsert_tasks-done tx_id t rest db e = rw (e, upsert_tasks) refl

  pub upsert_tasks-failed :
      (tx_id m : String) (t : Fields) (rest : Items) (db : Database)
      → (upsert_task codec pool tx_id t db).0 ≡ some m
      → upsert_tasks codec pool tx_id (Items.cons (Json.obj t) rest) db
        ≡ (some m, (upsert_task codec pool tx_id t db).1)
  unfolding upsert_tasks
  upsert_tasks-failed tx_id m t rest db e = rw (e, upsert_tasks) refl

  -- The loop rule: what the statement for every task keeps, the loop keeps, also where it ends early.
  pub upsert_tasks_inv :
      (P : Database → Type 0) (tx_id : String)
      → ((t : Fields) (db : Database) → P db → P (upsert_task codec pool tx_id t db).1)
      → (tasks : Items) (db : Database) → P db
      → P (upsert_tasks codec pool tx_id tasks db).1
  unfolding upsert_tasks
  upsert_tasks_inv P tx_id keep Items.nil db h = h
  upsert_tasks_inv P tx_id keep (Items.cons (Json.obj t) rest) db h =
      let kept = keep t db h in
      elim (Option-cases (upsert_task codec pool tx_id t db).0) [
        | inl e ↦
            subst (λ (r : Option String × Database). P r.1)
              (sym (upsert_tasks-done tx_id t rest db e))
              (upsert_tasks_inv P tx_id keep rest _ kept)
        | inr (m, e) ↦
            subst (λ (r : Option String × Database). P r.1)
              (sym (upsert_tasks-failed tx_id m t rest db e)) kept
      ]
  upsert_tasks_inv P tx_id keep (Items.cons _ rest) db h = upsert_tasks_inv P tx_id keep rest db h

  runs-upsert_task :
      (tx_id : String) (t : Fields) (db : Database)
      → (upsert_task codec pool tx_id t db).1.runs ≡ db.runs
  unfolding upsert_task
  runs-upsert_task tx_id t db = runs-executed (pool db.statements) db _

  pub runs-upsert_tasks :
      (tx_id : String) (tasks : Items) (db : Database)
      → (upsert_tasks codec pool tx_id tasks db).1.runs ≡ db.runs
  runs-upsert_tasks tx_id tasks db =
      upsert_tasks_inv (λ db'. db'.runs ≡ db.runs) tx_id
        (λ t db' h. runs-upsert_task tx_id t db' ∙ h) tasks db refl

  -- A workflow whose statement for the run succeeds goes on to its tasks; where it fails, only the
  -- count of the statements is another.
  pub handle_workflow-stored :
      (u : WorkflowObject) (db : Database)
      → u.transaction_id ≢ ""
      → pool db.statements ≡ none
      → handle_workflow codec pool u db
        ≡ upsert_tasks codec pool u.transaction_id u.raw_tasks
            (upsert_run codec pool u.transaction_id u.name u.notify_url u.phase db).1
  unfolding handle_workflow upsert_run
  handle_workflow-stored u db ne works =
      rw (eq-false u.transaction_id "" ne, works, upsert_run) refl

  pub handle_workflow-lost :
      (u : WorkflowObject) (db : Database) (m : String)
      → u.transaction_id ≢ ""
      → pool db.statements ≡ some m
      → handle_workflow codec pool u db ≡ (some m, record db { statements = db.statements + 1 })
  unfolding handle_workflow upsert_run
  handle_workflow-lost u db m ne fails =
      rw (eq-false u.transaction_id "" ne, fails, upsert_run) refl

  runs-handle_workflow :
      (u : WorkflowObject) (db : Database)
      → u.transaction_id ≢ ""
      → pool db.statements ≡ none
      → (handle_workflow codec pool u db).1.runs
        ≡ (upsert_run codec pool u.transaction_id u.name u.notify_url u.phase db).1.runs
  runs-handle_workflow u db ne works =
      ap (λ r. r.1.runs) (handle_workflow-stored u db ne works)
      ∙ runs-upsert_tasks u.transaction_id u.raw_tasks _

  -- When the statement for the run succeeds, the run's row has the workflow's phase afterwards, and
  -- the rows of other transactions keep theirs, whatever becomes of the statements for the tasks.
  pub handle_workflow_stores_phase :
      (u : WorkflowObject) (db : Database) (tx_id : String)
      → u.transaction_id ≢ ""
      → pool db.statements ≡ none
      → run_phase tx_id (handle_workflow codec pool u db).1.runs
        ≡ (if u.transaction_id == tx_id then some u.phase else run_phase tx_id db.runs)
  unfolding upsert_run
  handle_workflow_stores_phase u db tx_id ne works =
      rw (runs-handle_workflow u db ne works, upsert_run, works) (run_phase-put_run _ tx_id db.runs)

  upsert_task-NoCodes :
      (tx_id : String) (t : Fields) (db : Database)
      → IsInteger (get "statusCode" t)
      → NoCodes db.tasks
      → NoCodes (upsert_task codec pool tx_id t db).1.tasks
  unfolding upsert_task
  upsert_task-NoCodes tx_id t db h hs =
      executed-NoCodes (pool db.statements) db _ hs
        (put_task-NoCodes _ db.tasks (code_of_integer _ h) hs)

  upsert_tasks-NoCodes :
      (tx_id : String) (tasks : Items) (db : Database)
      → HasIntegerCodes tasks
      → NoCodes db.tasks
      → NoCodes (upsert_tasks codec pool tx_id tasks db).1.tasks
  unfolding upsert_tasks
  upsert_tasks-NoCodes tx_id Items.nil db h hs = hs
  upsert_tasks-NoCodes tx_id (Items.cons (Json.obj t) rest) db h hs =
      let kept = upsert_task-NoCodes tx_id t db h.0 hs in
      elim (Option-cases (upsert_task codec pool tx_id t db).0) [
        | inl e ↦
            subst (λ (r : Option String × Database). NoCodes r.1.tasks)
              (sym (upsert_tasks-done tx_id t rest db e))
              (upsert_tasks-NoCodes tx_id rest _ h.1 kept)
        | inr (m, e) ↦
            subst (λ (r : Option String × Database). NoCodes r.1.tasks)
              (sym (upsert_tasks-failed tx_id m t rest db e)) kept
      ]
  upsert_tasks-NoCodes tx_id (Items.cons (Json.arr x) rest) db h hs =
      upsert_tasks-NoCodes tx_id rest db h hs
  upsert_tasks-NoCodes tx_id (Items.cons Json.null rest) db h hs =
      upsert_tasks-NoCodes tx_id rest db h hs
  upsert_tasks-NoCodes tx_id (Items.cons (Json.bool x) rest) db h hs =
      upsert_tasks-NoCodes tx_id rest db h hs
  upsert_tasks-NoCodes tx_id (Items.cons (Json.int x) rest) db h hs =
      upsert_tasks-NoCodes tx_id rest db h hs
  upsert_tasks-NoCodes tx_id (Items.cons (Json.float x s) rest) db h hs =
      upsert_tasks-NoCodes tx_id rest db h hs
  upsert_tasks-NoCodes tx_id (Items.cons (Json.str x) rest) db h hs =
      upsert_tasks-NoCodes tx_id rest db h hs

  -- Where the status codes come as the dynamic client decodes them, as int64, no code is ever stored:
  -- the column stays null in every row, whatever the statements answer.
  pub handle_workflow-NoCodes :
      (u : WorkflowObject) (db : Database)
      → HasIntegerCodes u.raw_tasks
      → NoCodes db.tasks
      → NoCodes (handle_workflow codec pool u db).1.tasks
  unfolding handle_workflow upsert_run
  handle_workflow-NoCodes u db h hs = elim (Bool-cases (u.transaction_id == "")) [
    | inl e ↦ rw e hs
    | inr e ↦ elim (Option-cases (pool db.statements)) [
      | inl works ↦
          rw (e, works, upsert_run) (upsert_tasks-NoCodes u.transaction_id u.raw_tasks _ h hs)
      | inr (m, fails) ↦ rw (e, fails, upsert_run) hs
    ]
  ]

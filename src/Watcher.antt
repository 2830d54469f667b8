-- ===== src/Watcher.antt =====
-- function-httptask/watcher/main.go: a Workflow's progress, written to two tables of Postgres.
pub mod Rows
pub mod Statements
pub mod Startup
pub mod Events
pub mod Tables
pub mod Progress
use mathop_operator.Base.{
  ℕ, suc, ◌+◌, ◌/◌, ◌^◌, ◌*◌, String, ◌≡◌, refl, Bool, true, false, ◌&&◌, List, [], ◌∷◌, Option,
  none, some, arith, ◌==◌, if◌then◌else◌,
}
use mathop_operator.Base.Int.{ℤ, pos, negsuc, sub_ℕ, to_int32}
use mathop_operator.Base.Text.{is_blank}
use mathop_operator.Base.Result.{Result, ok, err}
use mathop_operator.Json.{Json, Items, Fields, get, Codec}

-- A row of workflow_runs, without its time of creation.
pub record RunRow : Type 0 where
  pub transaction_id : String
  pub workflow_name : String
  pub notify_url : Option String
  pub phase : String
  pub updated_at : ℕ

-- A row of workflow_tasks.
pub record TaskRow : Type 0 where
  pub transaction_id : String
  pub task_name : String
  pub phase : String
  pub status_code : Option ℤ
  pub output : Option String
  pub error : Option String
  pub updated_at : ℕ

-- The two tables, and the number of statements executed, which is the time of the next.
pub record Database : Type 0 where
  pub runs : List RunRow
  pub tasks : List TaskRow
  pub statements : ℕ

-- The connection pool: the error of a statement, by its number.
abbrev pub Pool : Type 0
Pool = ℕ → Option String

-- What the program reads of a Workflow object; a text that is missing reads as "", the tasks as [].
pub record WorkflowObject : Type 0 where
  pub name : String
  pub transaction_id : String
  pub phase : String
  pub notify_url : String
  pub raw_tasks : Items

-- nullIfEmpty, nullIfEmptyBytes
unfoldable pub null_if_empty : String → Option String
null_if_empty s = if is_blank s then none else some s

unfoldable pub null_if_empty_bytes : String → Option String
null_if_empty_bytes s = if s == "" then none else some s

-- INSERT … ON CONFLICT (transaction_id) DO UPDATE: the name of a row that is there stays.
unfoldable pub put_run : RunRow → List RunRow → List RunRow
put_run r [] = r ∷ []
put_run r (q ∷ qs) =
    if q.transaction_id == r.transaction_id
    then record q { notify_url = r.notify_url; phase = r.phase; updated_at = r.updated_at } ∷ qs
    else q ∷ put_run r qs

-- INSERT … ON CONFLICT (transaction_id, task_name) DO UPDATE.
abbrev pub same_task : TaskRow → String → String → Bool
same_task q tx_id name = (q.transaction_id == tx_id) && (q.task_name == name)

unfoldable pub put_task : TaskRow → List TaskRow → List TaskRow
put_task r [] = r ∷ []
put_task r (q ∷ qs) =
    if same_task q r.transaction_id r.task_name
    then record q {
      phase = r.phase;
      status_code = r.status_code;
      output = r.output;
      error = r.error;
      updated_at = r.updated_at;
    }
      ∷ qs
    else q ∷ put_task r qs

-- `s, _ := v.(string)`
abbrev pub text_of : Option Json → String
text_of (some (Json.str s)) = s
text_of _ = ""

-- int32 of a float64, towards zero.
abbrev pub truncate : ℤ → ℕ → ℤ
truncate (pos n) scale = pos (n / 10 ^ scale)
truncate (negsuc n) scale = sub_ℕ 0 (suc n / 10 ^ scale)

-- `v, ok := v.(float64)`: an int64 is no float64.
abbrev pub code_of : Option Json → Option ℤ
code_of (some (Json.float mantissa scale)) = some (to_int32 (truncate mantissa scale))
code_of _ = none

abbrev pub output_text : Codec → Option Json → String
output_text codec none = ""
output_text codec (some out) = codec.encode out

-- db.Exec: a statement that fails changes no row.
abbrev pub executed : Option String → Database → Database → Option String × Database
executed (some e) before after = (some e, before)
executed none before after = (none, after)

module _ (codec : Codec) (pool : Pool) where
  -- upsertRun
  unfoldable pub upsert_run :
      String → String → String → String → Database → Option String × Database
  unfolding put_run null_if_empty
  upsert_run tx_id name notify_url phase db =
      let next = record db { statements = db.statements + 1 } in
      executed (pool db.statements) next (record next {
        runs =
            put_run
              (record {
                transaction_id = tx_id;
                workflow_name = name;
                notify_url = null_if_empty notify_url;
                phase = phase;
                updated_at = db.statements;
              })
              db.runs;
      })

  abbrev pub row_of : String → Fields → ℕ → TaskRow
  row_of tx_id t time = record {
    transaction_id = tx_id;
    task_name = text_of (get "name" t);
    phase = text_of (get "phase" t);
    status_code = code_of (get "statusCode" t);
    output = null_if_empty_bytes (output_text codec (get "output" t));
    error = null_if_empty (text_of (get "error" t));
    updated_at = time;
  }

  -- upsertTask
  unfoldable pub upsert_task : String → Fields → Database → Option String × Database
  unfolding put_task null_if_empty null_if_empty_bytes
  upsert_task tx_id t db =
      let next = record db { statements = db.statements + 1 } in
      executed (pool db.statements) next
        (record next { tasks = put_task (row_of tx_id t db.statements) db.tasks })

  -- The loop over the tasks: what is no map is passed over, an error ends it.
  unfoldable pub upsert_tasks : String → Items → Database → Option String × Database
  unfolding upsert_task
  upsert_tasks tx_id Items.nil db = (none, db)
  upsert_tasks tx_id (Items.cons (Json.obj t) rest) db =
      let (error, db') = upsert_task tx_id t db in
      elim error [ some e ↦ (some e, db') | none ↦ upsert_tasks tx_id rest db' ]
  upsert_tasks tx_id (Items.cons _ rest) db = upsert_tasks tx_id rest db

  abbrev after_run : String → Items → Option String × Database → Option String × Database
  after_run tx_id tasks (some e, db) = (some e, db)
  after_run tx_id tasks (none, db) = upsert_tasks tx_id tasks db

  -- handleWorkflow
  unfoldable pub handle_workflow : WorkflowObject → Database → Option String × Database
  unfolding upsert_run upsert_tasks
  handle_workflow u db =
      if u.transaction_id == ""
      then (none, db)
      else after_run u.transaction_id u.raw_tasks
          (upsert_run u.transaction_id u.name u.notify_url u.phase db)

-- ===== src/Watcher/Events.antt =====
-- The event handler of function-httptask/watcher/main.go, over the notifications of its informer.
use mathop_operator.Base.{List, [], ◌∷◌}
use mathop_operator.Json.{Codec}
use mathop_operator.Watcher.{WorkflowObject, Database, Pool, handle_workflow}

-- What an informer hands to a handler: an unstructured object, or another value.
pub data Object : Type 0 where
  unstructured : WorkflowObject → Object
  other : Object

-- An update comes with the old and the new object. No function is given for what was deleted.
pub data Notification : Type 0 where
  added : Object → Notification
  updated : Object → Object → Notification
  deleted : Object → Notification

module _ (codec : Codec) (pool : Pool) where
  -- The function `handle` of main: an error is logged, and the tables stay as the statements left
  -- them.
  unfoldable pub handle : Object → Database → Database
  handle other db = db
  handle (unstructured u) db = (handle_workflow codec pool u db).1

  -- ResourceEventHandlerFuncs
  unfoldable pub on_event : Notification → Database → Database
  unfolding handle
  on_event (added obj) db = handle obj db
  on_event (updated old obj) db = handle obj db
  on_event (deleted obj) db = db

  -- The notifications arrive one after the other.
  unfoldable pub watch_all : List Notification → Database → Database
  unfolding on_event
  watch_all [] db = db
  watch_all (n ∷ ns) db = watch_all ns (on_event n db)

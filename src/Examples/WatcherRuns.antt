-- ===== src/Examples/WatcherRuns.antt =====
-- Notifications that reach the watcher, of which one finds its statement refused.
use mathop_operator.Base.{none, some, [], ◌∷◌, List, if◌then◌else◌, ◌≡◌}
use mathop_operator.Base.{eqb}
use mathop_operator.Watcher.{WorkflowObject, Pool}
use mathop_operator.Watcher.Events.{
  Notification, added, updated, deleted, unstructured, other, watch_all,
}
use mathop_operator.Watcher.Tables.{MeetsSchema, watch_all-MeetsSchema}
use mathop_operator.Watcher.Progress.{Tracks, Progress, progress, watch_all-Tracks}
use mathop_operator.Examples.Data.{codec}
use mathop_operator.Examples.ServerRuns.{ended, empty}

abbrev running : WorkflowObject
running = record ended { phase = "Running" }

abbrev notifications : List Notification
notifications =
    added (unstructured running)
    ∷ added other
    ∷ updated (unstructured running) (unstructured running)
    ∷ updated (unstructured running) (unstructured ended)
    ∷ deleted (unstructured ended)
    ∷ []

-- The third statement, for the second report of the run, is refused.
abbrev refuses_third : Pool
refuses_third n = if eqb n 2 then some "connection reset" else none

watch_all-MeetsSchema_example : MeetsSchema (watch_all codec refuses_third notifications empty)
watch_all-MeetsSchema_example =
    watch_all-MeetsSchema codec refuses_third notifications empty (tt, tt, tt)

watch_all-Tracks_example :
    Tracks refuses_third notifications 0
      (progress empty)
      (progress (watch_all codec refuses_third notifications empty))
    × ((q : Progress)
        → Tracks refuses_third notifications 0 (progress empty) q
        → q ≡ progress (watch_all codec refuses_third notifications empty))
watch_all-Tracks_example = watch_all-Tracks codec refuses_third notifications empty

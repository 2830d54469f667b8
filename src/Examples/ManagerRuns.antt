-- ===== src/Examples/ManagerRuns.antt =====
-- A start of the manager whose first index is refused, and the options of its servers.
use mathop_operator.Base.{none, some, [], ◌∷◌, ◌≡◌, true, any, ◌↔◌}
use mathop_operator.Controller.Setup.{index_squares}
use mathop_operator.Manager.{register, Runtime, default_flags, main, manager_options}
use mathop_operator.Manager.Options.{apply_all, is_provided, manager_options-Protected}
use mathop_operator.Manager.Startup.{is_start, AllAccepted, needed, starts_iff}

abbrev accepts : Runtime
accepts log c = none

abbrev refuses_indexes : Runtime
refuses_indexes log (register (index_squares key values)) = some "cache is closed"
refuses_indexes log c = none

manager_options-Protected_example :
    ((apply_all
        (manager_options default_flags).metrics.tls_opts
        (record { next_protos = "h2" ∷ [] })).next_protos
      ≡ "http/1.1" ∷ [])
    × ((apply_all
          (manager_options default_flags).webhook_server.tls_opts
          (record { next_protos = "h2" ∷ [] })).next_protos
        ≡ "http/1.1" ∷ [])
    × (is_provided (manager_options default_flags).metrics.filter_provider
        ≡ (manager_options default_flags).metrics.secure_serving)
manager_options-Protected_example =
    manager_options-Protected default_flags (record { next_protos = "h2" ∷ [] })

starts_iff_example :
    (any is_start (main refuses_indexes default_flags).1 ≡ true)
    ↔ AllAccepted refuses_indexes (needed default_flags) []
starts_iff_example = starts_iff refuses_indexes default_flags

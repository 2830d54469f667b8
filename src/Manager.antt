-- ===== src/Manager.antt =====
-- cmd/main.go: the flags, the options of the manager's servers, and the calls that set it up.
pub mod Options
pub mod Startup
use mathop_operator.Base.{
  ℕ, String, Bool, true, false, List, [], ◌∷◌, Option, none, some, ◌==◌, if◌then◌else◌, map, ◌++◌,
}
use mathop_operator.Controller.Setup.{
  Registration, setup_add, setup_square, setup_subtract, setup_workflow, setup_http_task,
}

-- The variables of the flags; those of the logger are left out.
pub record Flags : Type 0 where
  pub metrics_addr : String
  pub probe_addr : String
  pub enable_leader_election : Bool
  pub secure_metrics : Bool
  pub webhook_cert_path : String
  pub webhook_cert_name : String
  pub webhook_cert_key : String
  pub metrics_cert_path : String
  pub metrics_cert_name : String
  pub metrics_cert_key : String
  pub enable_http2 : Bool

abbrev pub default_flags : Flags
default_flags = record {
  metrics_addr = "0";
  probe_addr = ":8081";
  enable_leader_election = false;
  secure_metrics = true;
  webhook_cert_path = "";
  webhook_cert_name = "tls.crt";
  webhook_cert_key = "tls.key";
  metrics_cert_path = "";
  metrics_cert_name = "tls.crt";
  metrics_cert_key = "tls.key";
  enable_http2 = false;
}

-- tls.Config, by the protocols that a server offers.
pub record TlsConfig : Type 0 where
  pub next_protos : List String

-- filters.WithAuthenticationAndAuthorization
pub data FilterProvider : Type 0 where
  authentication_and_authorization : FilterProvider

pub record WebhookOptions : Type 0 where
  pub tls_opts : List (TlsConfig → TlsConfig)
  pub cert_dir : String
  pub cert_name : String
  pub key_name : String

pub record MetricsOptions : Type 0 where
  pub bind_address : String
  pub secure_serving : Bool
  pub tls_opts : List (TlsConfig → TlsConfig)
  pub filter_provider : Option FilterProvider
  pub cert_dir : String
  pub cert_name : String
  pub key_name : String

-- ctrl.Options
pub record ManagerOptions : Type 0 where
  pub metrics : MetricsOptions
  pub webhook_server : WebhookOptions
  pub health_probe_bind_address : String
  pub leader_election : Bool
  pub leader_election_id : String

-- disableHTTP2
unfoldable pub disable_http2 : TlsConfig → TlsConfig
disable_http2 c = record c { next_protos = "http/1.1" ∷ [] }

unfoldable pub initial_tls_opts : Bool → List (TlsConfig → TlsConfig)
unfolding disable_http2
initial_tls_opts enable_http2 = if enable_http2 then [] else disable_http2 ∷ []

unfoldable pub webhook_options : Flags → WebhookOptions
unfolding initial_tls_opts
webhook_options f =
    let o : WebhookOptions = record {
      tls_opts = initial_tls_opts f.enable_http2;
      cert_dir = "";
      cert_name = "";
      key_name = "";
    } in
    if f.webhook_cert_path == "" then o else record o {
      cert_dir = f.webhook_cert_path;
      cert_name = f.webhook_cert_name;
      key_name = f.webhook_cert_key;
    }

unfoldable pub metrics_options : Flags → MetricsOptions
unfolding initial_tls_opts
metrics_options f =
    let o : MetricsOptions = record {
      bind_address = f.metrics_addr;
      secure_serving = f.secure_metrics;
      tls_opts = initial_tls_opts f.enable_http2;
      filter_provider = if f.secure_metrics then some authentication_and_authorization else none;
      cert_dir = "";
      cert_name = "";
      key_name = "";
    } in
    if f.metrics_cert_path == "" then o else record o {
      cert_dir = f.metrics_cert_path;
      cert_name = f.metrics_cert_name;
      key_name = f.metrics_cert_key;
    }

unfoldable pub manager_options : Flags → ManagerOptions
unfolding webhook_options metrics_options
manager_options f = record {
  metrics = metrics_options f;
  webhook_server = webhook_options f;
  health_probe_bind_address = f.probe_addr;
  leader_election = f.enable_leader_election;
  leader_election_id = "1f30eed5.example.com";
}

-- The calls of controller-runtime that can fail: GetConfigOrDie, NewManager, those of the
-- SetupWithManager functions, and Add for the status server by its address, AddHealthzCheck,
-- AddReadyzCheck and Start.
pub data Call : Type 0 where
  get_config : Call
  new_manager : ManagerOptions → Call
  register : Registration → Call
  add_status_server : String → Call
  add_healthz_check : String → Call
  add_readyz_check : String → Call
  start : Call

-- The last call made is the first of the list; a call's error may depend on those before it.
abbrev pub Runtime : Type 0
Runtime = List Call → Call → Option String

-- main ends after Start, or with os.Exit(1), where a message and the error are logged.
pub data Exit : Type 0 where
  returned : Exit
  exit_1 : String → String → Exit

-- A step of main: the message of its exit, which names the controller, and the calls that it makes.
abbrev pub Step : Type 0
Step = String × List Call

-- The steps before Start, in the order of main.
unfoldable pub setup_steps : Flags → List Step
unfolding manager_options setup_add setup_square setup_subtract setup_workflow setup_http_task
setup_steps f =
    ("unable to get kubeconfig", get_config ∷ [])
    ∷ ("Failed to start manager", new_manager (manager_options f) ∷ [])
    ∷ ("Failed to create controller: add", map register setup_add)
    ∷ ("Failed to create controller: square", map register setup_square)
    ∷ ("Failed to create controller: subtract", map register setup_subtract)
    ∷ ("unable to create controller: Workflow", map register setup_workflow)
    ∷ ("unable to add status server", add_status_server ":8090" ∷ [])
    ∷ ("Failed to create controller: httptask", map register setup_http_task)
    ∷ ("Failed to set up health check", add_healthz_check "healthz" ∷ [])
    ∷ ("Failed to set up ready check", add_readyz_check "readyz" ∷ [])
    ∷ []

module _ (runtime : Runtime) where
  -- A function that makes calls one after the other and returns the first error.
  abbrev after_call :
      (List Call → Option String × List Call)
      → Option String
      → List Call
      → Option String × List Call
  after_call rest (some e) log = (some e, log)
  after_call rest none log = rest log

  unfoldable pub call_all : List Call → List Call → Option String × List Call
  call_all [] log = (none, log)
  call_all (c ∷ cs) log = after_call (call_all cs) (runtime log c) (c ∷ log)

  -- `if err := …; err != nil { setupLog.Error(err, msg); os.Exit(1) }`, and the rest of main.
  abbrev after_step :
      String → (List Call → Exit × List Call) → Option String × List Call → Exit × List Call
  after_step msg rest (some e, log) = (exit_1 msg e, log)
  after_step msg rest (none, log) = rest log

  unfoldable pub run_steps : List Step → List Call → Exit × List Call
  unfolding call_all
  run_steps [] log = (returned, log)
  run_steps ((msg, cs) ∷ steps) log = after_step msg (run_steps steps) (call_all cs log)

  -- main, from the parsed flags on
  unfoldable pub main : Flags → Exit × List Call
  unfolding run_steps setup_steps
  main f = run_steps (setup_steps f ++ ("Failed to run manager", start ∷ []) ∷ []) []

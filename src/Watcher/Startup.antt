-- ===== src/Watcher/Startup.antt =====
-- main of function-httptask/watcher/main.go up to the informer, with mustEnv and
-- buildDynamicClient. `Config` and `Client` are what client-go hands out.
use mathop_operator.Base.{
  String, Option, none, some, ◌==◌, if◌then◌else◌, ◌≡◌, refl, ◌↔◌, ◌≢◌, inl, inr, eq-cases, ap,
  subst, sym,
}
use mathop_operator.Base.Text.{◌<>◌}
use mathop_operator.Base.Result.{Result, ok, err}

-- os.Getenv, pgxpool.New, the Exec of the schema, client-go's functions for a configuration and a
-- client, and AddEventHandler; what only fails or succeeds gives its error.
pub record Surroundings (Config Client : Type 0) : Type 0 where
  pub getenv : String → String
  pub connect : String → Option String
  pub create_tables : Option String
  pub in_cluster_config : Result Config
  pub build_config_from_file : String → Result Config
  pub new_for_config : Config → Result Client
  pub add_event_handler : Client → Option String

-- log.Fatalf, or the loop that waits for ever while the informer calls the handler.
pub data Started (Client : Type 0) : Type 0 where
  fatal : String → Started Client
  watching : Client → Started Client

module _ {Config Client : Type 0} (s : Surroundings Config Client) where
  -- mustEnv
  unfoldable pub must_env : String → Result String
  must_env k =
      let v = s.getenv k in if v == "" then err ("missing required env var " <> k) else ok v

  abbrev pub kubeconfig_path : String
  kubeconfig_path =
      let path = s.getenv "KUBECONFIG" in
      if path == "" then s.getenv "HOME" <> "/.kube/config" else path

  abbrev client_of : Result Config → Result Client
  client_of (err e) = err e
  client_of (ok cfg) = s.new_for_config cfg

  abbrev after_in_cluster : Result Config → Result Client
  after_in_cluster (err _) = client_of (s.build_config_from_file kubeconfig_path)
  after_in_cluster (ok cfg) = client_of (ok cfg)

  -- buildDynamicClient
  unfoldable pub build_dynamic_client : Result Client
  build_dynamic_client = after_in_cluster s.in_cluster_config

  -- After AddEventHandler.
  abbrev after_handler : Client → Option String → Started Client
  after_handler client (some e) = fatal ("cannot add event handler: " <> e)
  after_handler client none = watching client

  abbrev after_client : Result Client → Started Client
  after_client (err e) = fatal ("cannot build kube client: " <> e)
  after_client (ok client) = after_handler client (s.add_event_handler client)

  abbrev after_tables : Option String → Started Client
  after_tables (some e) = fatal ("cannot ensure schema: " <> e)
  after_tables none = after_client build_dynamic_client

  abbrev after_connect : Option String → Started Client
  after_connect (some e) = fatal ("cannot connect to postgres: " <> e)
  after_connect none = after_tables s.create_tables

  abbrev after_env : Result String → Started Client
  after_env (err e) = fatal e
  after_env (ok url) = after_connect (s.connect url)

  -- main
  unfoldable pub main : Started Client
  unfolding must_env build_dynamic_client
  main = after_env (must_env "DATABASE_URL")

  after_handler_iff :
      (c client : Client) (o : Option String)
      → (after_handler c o ≡ watching client) ↔ ((c ≡ client) × (o ≡ none))
  after_handler_iff c client (some e) = ((λ p. cc), (λ h. let accepted = h.1 in cc))
  after_handler_iff c client none = ((λ p. (cc, refl)), (λ h. let same = h.0 in cc))

  after_client_iff :
      (r : Result Client) (client : Client)
      → (after_client r ≡ watching client) ↔ ((r ≡ ok client) × (s.add_event_handler client ≡ none))
  after_client_iff (err e) client = ((λ p. cc), (λ h. let is_ok = h.0 in cc))
  after_client_iff (ok c) client =
      let last = after_handler_iff c client (s.add_event_handler c) in
      (
        (λ p. let q = last.0 p in (ap ok q.0, subst (λ x. s.add_event_handler x ≡ none) q.0 q.1)),
        (λ h.
            let same : c ≡ client = (let is_ok = h.0 in cc) in
            last.1 (same, subst (λ x. s.add_event_handler x ≡ none) (sym same) h.1)),
      )

  after_tables_iff :
      (o : Option String) (client : Client)
      → (after_tables o ≡ watching client)
        ↔ ((o ≡ none) × (build_dynamic_client ≡ ok client) × (s.add_event_handler client ≡ none))
  after_tables_iff (some e) client = ((λ p. cc), (λ h. let accepted = h.0 in cc))
  after_tables_iff none client =
      let later = after_client_iff build_dynamic_client client in
      ((λ p. let q = later.0 p in (refl, q.0, q.1)), (λ h. later.1 (h.1, h.2)))

  after_connect_iff :
      (o : Option String) (client : Client)
      → (after_connect o ≡ watching client) ↔ (
          (o ≡ none)
          × (s.create_tables ≡ none)
          × (build_dynamic_client ≡ ok client)
          × (s.add_event_handler client ≡ none))
  after_connect_iff (some e) client = ((λ p. cc), (λ h. let accepted = h.0 in cc))
  after_connect_iff none client =
      let later = after_tables_iff s.create_tables client in
      ((λ p. let q = later.0 p in (refl, q.0, q.1, q.2)), (λ h. later.1 (h.1, h.2, h.3)))

  -- The program comes to watch exactly if the database's address is given, the pool, the tables and
  -- the handler are accepted, and a client was built, and it watches with that client.
  pub main-watching :
      (client : Client)
      → (main ≡ watching client) ↔ (
          (s.getenv "DATABASE_URL" ≢ "")
          × (s.connect (s.getenv "DATABASE_URL") ≡ none)
          × (s.create_tables ≡ none)
          × (build_dynamic_client ≡ ok client)
          × (s.add_event_handler client ≡ none))
  unfolding main must_env
  main-watching client = elim (eq-cases (s.getenv "DATABASE_URL") "") [
    | inl e ↦ rw e.0 ((λ p. cc), (λ h. absurd (h.0 e.1)))
    | inr e ↦
        let later = after_connect_iff (s.connect (s.getenv "DATABASE_URL")) client in
        rw e.0 (
          (λ p. let q = later.0 p in (e.1, q.0, q.1, q.2, q.3)),
          (λ h. later.1 (h.1, h.2, h.3, h.4)),
        )
  ]

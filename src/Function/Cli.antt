-- ===== src/Function/Cli.antt =====
-- The command line of function-httptask/main.go.
use mathop_operator.Base.{String, Bool, false, Option, none, some, ℕ, ◌<◌, ◌≡◌, ◌*◌, arith}
use mathop_operator.Base.Int.{ℤ, pos, ◌*ℤ◌, to_int64}

-- CLI; a size in MB.
pub record Cli : Type 0 where
  pub debug : Bool
  pub network : String
  pub address : String
  pub tls_certs_dir : String
  pub insecure : Bool
  pub max_recv_message_size : ℤ

-- The defaults of its tags, with TLS_SERVER_CERTS_DIR of the environment.
unfoldable pub default_cli : String → Cli
default_cli tls_server_certs_dir = record {
  debug = false;
  network = "tcp";
  address = ":9443";
  tls_certs_dir = tls_server_certs_dir;
  insecure = false;
  max_recv_message_size = pos 4;
}

-- The options of function.Serve; a size in bytes.
pub record ServeOptions : Type 0 where
  pub network : String
  pub address : String
  pub mtls_certificates : String
  pub insecure : Bool
  pub max_recv_message_size : ℤ

-- `c.MaxRecvMessageSize*1024*1024` on a 64-bit int.
unfoldable pub bytes_of_mb : ℤ → ℤ
bytes_of_mb n = to_int64 (to_int64 (n *ℤ pos 1024) *ℤ pos 1024)

unfoldable pub serve_options : Cli → ServeOptions
unfolding bytes_of_mb
serve_options c = record {
  network = c.network;
  address = c.address;
  mtls_certificates = c.tls_certs_dir;
  insecure = c.insecure;
  max_recv_message_size = bytes_of_mb c.max_recv_message_size;
}

-- After function.NewLogger.
abbrev after_logger : (ServeOptions → Option String) → Cli → Option String → Option String
after_logger serve c (some e) = some e
after_logger serve c none = serve (serve_options c)

-- Run: the error of NewLogger, by the debug flag, or of Serve.
unfoldable pub run : (Bool → Option String) → (ServeOptions → Option String) → Cli → Option String
unfolding serve_options
run new_logger serve c = after_logger serve c (new_logger c.debug)

-- A size of up to eight million million MB, and none below zero, is served as it is in bytes.
pub bytes_of_mb_exact : (n : ℕ) → n < 0x800_0000_0000 → bytes_of_mb (pos n) ≡ pos (n * 0x10_0000)
unfolding bytes_of_mb ◌*ℤ◌ to_int64
bytes_of_mb_exact n h = ground arith

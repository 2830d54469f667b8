-- ===== src/Manager/Options.antt =====
-- What the options of cmd/main.go make of the servers' protection.
use mathop_operator.Base.{
  Bool, true, false, List, [], ◌∷◌, Option, none, some, ◌==◌, if◌then◌else◌, ◌≡◌, refl, Bool-cases,
  inl, inr,
}
use mathop_operator.Manager.{
  Flags, TlsConfig, FilterProvider, initial_tls_opts, webhook_options, metrics_options,
  manager_options, disable_http2,
}

-- A server applies its options to its configuration one after the other.
abbrev pub apply_all : List (TlsConfig → TlsConfig) → TlsConfig → TlsConfig
apply_all [] c = c
apply_all (o ∷ os) c = apply_all os (o c)

abbrev pub is_provided : Option FilterProvider → Bool
is_provided (some _) = true
is_provided none = false

webhook_options-tls_opts :
    (f : Flags) → (webhook_options f).tls_opts ≡ initial_tls_opts f.enable_http2
unfolding webhook_options
webhook_options-tls_opts f = elim (Bool-cases (f.webhook_cert_path == "")) [
  | inl e ↦ rw e refl
  | inr e ↦ rw e refl
]

metrics_options-tls_opts :
    (f : Flags) → (metrics_options f).tls_opts ≡ initial_tls_opts f.enable_http2
unfolding metrics_options
metrics_options-tls_opts f = elim (Bool-cases (f.metrics_cert_path == "")) [
  | inl e ↦ rw e refl
  | inr e ↦ rw e refl
]

apply_all-initial :
    (b : Bool) (c : TlsConfig)
    → (apply_all (initial_tls_opts b) c).next_protos
      ≡ (if b then c.next_protos else "http/1.1" ∷ [])
unfolding initial_tls_opts disable_http2
apply_all-initial true c = refl
apply_all-initial false c = refl

filter_provided :
    (f : Flags)
    → is_provided (metrics_options f).filter_provider ≡ (metrics_options f).secure_serving
unfolding metrics_options
filter_provided f = elim (Bool-cases f.secure_metrics) [
  | inl s ↦ elim (Bool-cases (f.metrics_cert_path == "")) [
    | inl e ↦ rw (e, s) refl
    | inr e ↦ rw (e, s) refl
  ]
  | inr s ↦ elim (Bool-cases (f.metrics_cert_path == "")) [
    | inl e ↦ rw (e, s) refl
    | inr e ↦ rw (e, s) refl
  ]
]

-- Whatever configuration the two servers start from, their options leave them HTTP/1.1 alone unless
-- HTTP/2 is enabled, and then the protocols they had; and the metrics are served securely exactly if
-- a filter authenticates and authorizes their readers.
pub manager_options-Protected :
    (f : Flags) (c : TlsConfig)
    → let protos = if f.enable_http2 then c.next_protos else "http/1.1" ∷ [] in
      ((apply_all (manager_options f).metrics.tls_opts c).next_protos ≡ protos)
      × ((apply_all (manager_options f).webhook_server.tls_opts c).next_protos ≡ protos)
      × (is_provided (manager_options f).metrics.filter_provider
          ≡ (manager_options f).metrics.secure_serving)
unfolding manager_options
manager_options-Protected f c = (
  rw (metrics_options-tls_opts f) (apply_all-initial f.enable_http2 c),
  rw (webhook_options-tls_opts f) (apply_all-initial f.enable_http2 c),
  filter_provided f,
)

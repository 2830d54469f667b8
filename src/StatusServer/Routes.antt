-- ===== src/StatusServer/Routes.antt =====
-- Which handler of internal/statusserver/server.go answers a request, and at which transaction.
use mathop_operator.Base.{String, Bool, false, List, some, ◌≡◌, refl, map, if◌then◌else◌, ◌==◌}
use mathop_operator.Base.Text.{
  ◌<>◌, trim_prefix-append, has_prefix, has_prefix-append, has_prefix-append_same, has_prefix-parts,
}
use mathop_operator.StatusServer.{
  Backend, Signal, serve, match_pattern, patterns, longer, reply_of, handle_page, handle_stream,
  handle_workflow_json, event_of, stream, lookup_workflow, http_error, page, json_reply,
  event_stream, page_handler, stream_handler, json_handler,
}

page_pattern :
    (t : String) → match_pattern ("/workflows/" <> t) patterns ≡ some ("/workflows/", page_handler)
unfolding match_pattern longer has_prefix
page_pattern t =
    rw
      (
        has_prefix-append "/workflows/" "/workflows/" t refl,
        has_prefix-parts "/api/workflows/stream/" "/workflows/" t refl,
        has_prefix-parts "/api/workflows/" "/workflows/" t refl,
      )
      refl

stream_pattern :
    (t : String)
    → match_pattern ("/api/workflows/stream/" <> t) patterns
      ≡ some ("/api/workflows/stream/", stream_handler)
unfolding match_pattern longer has_prefix
stream_pattern t =
    rw
      (
        has_prefix-parts "/workflows/" "/api/workflows/stream/" t refl,
        has_prefix-append "/api/workflows/stream/" "/api/workflows/stream/" t refl,
        has_prefix-append "/api/workflows/" "/api/workflows/stream/" t refl,
      )
      refl

json_pattern :
    (t : String)
    → has_prefix "stream/" t ≡ false
    → match_pattern ("/api/workflows/" <> t) patterns ≡ some ("/api/workflows/", json_handler)
unfolding match_pattern longer has_prefix
json_pattern t no_stream =
    rw
      (
        has_prefix-parts "/workflows/" "/api/workflows/" t refl,
        has_prefix-append_same "/api/workflows/" "stream/" t,
        no_stream,
        has_prefix-append "/api/workflows/" "/api/workflows/" t refl,
      )
      refl

-- A request below one of the three paths is answered by the handler of that path at the rest of it as
-- the transaction: the page, the stream of its status, or the status as JSON, where the rest does not
-- itself begin with stream/.
pub serve-routes :
    (b : Backend) (flushes : Bool) (signals : List Signal) (t : String)
    → (serve b flushes ("/workflows/" <> t) signals
        ≡ (if t == "" then http_error "usage: /workflows/{transactionID}" 400 else page t))
      × (serve b flushes ("/api/workflows/stream/" <> t) signals ≡ (
          if flushes
          then event_stream (stream b.marshal_status "" (map (event_of t) signals))
          else http_error "streaming unsupported" 500))
      × (has_prefix "stream/" t ≡ false
          → serve b flushes ("/api/workflows/" <> t) signals ≡ json_reply b (lookup_workflow b t))
unfolding serve reply_of handle_page handle_stream handle_workflow_json
serve-routes b flushes signals t = (
  rw (page_pattern t, trim_prefix-append "/workflows/" t) refl,
  rw (stream_pattern t, trim_prefix-append "/api/workflows/stream/" t) refl,
  (λ no_stream. rw (json_pattern t no_stream, trim_prefix-append "/api/workflows/" t) refl),
)

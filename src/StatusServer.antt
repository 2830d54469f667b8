-- ===== src/StatusServer.antt =====
-- internal/statusserver/server.go: the handlers over workflows that are found by transaction id.
pub mod Stream
pub mod Routes
pub mod Lookup
use mathop_operator.Base.{
  ℕ, String, ◌≡◌, refl, Bool, true, false, ◌||◌, List, [], ◌∷◌, Option, none, some, arith, ◌==◌,
  Dict, if◌then◌else◌, map, ltb,
}
use Prim.Native.String.{len}
use mathop_operator.Base.Text.{◌<>◌, trim_prefix, has_prefix}
use mathop_operator.Base.Result.{Result, ok, err}
use mathop_operator.Api.{WorkflowStatus, Workflow}

-- The client's List at the index of the transaction id, and json.Marshal of a status.
pub record Backend : Type 0 where
  pub list_by_transaction : String → Result (List Workflow)
  pub marshal_status : WorkflowStatus → Result String

-- What a handler writes: http.Error, or headers and a body.
pub data Reply : Type 0 where
  http_error : String → ℕ → Reply
  json : Result String → Reply
  page : String → Reply
  event_stream : List String → Reply

-- lookupWorkflow
unfoldable pub first_of_list : Result (List Workflow) → Result Workflow
first_of_list (err e) = err e
first_of_list (ok []) = err "not found"
first_of_list (ok (wf ∷ wfs)) = ok wf

unfoldable pub lookup_workflow : Backend → String → Result Workflow
unfolding first_of_list
lookup_workflow b tx_id = first_of_list (b.list_by_transaction tx_id)

-- handleWorkflowJSON, after the lookup and from the path on
abbrev pub json_reply : Backend → Result Workflow → Reply
json_reply b (err e) = http_error "no workflow found with that transaction id" 404
json_reply b (ok wf) = json (b.marshal_status wf.status)

unfoldable pub handle_workflow_json : Backend → String → Reply
unfolding lookup_workflow
handle_workflow_json b path = json_reply b (lookup_workflow b (trim_prefix "/api/workflows/" path))

-- handlePage: the page is the template at the transaction id.
unfoldable pub handle_page : String → Reply
handle_page path =
    let tx_id = trim_prefix "/workflows/" path in
    if tx_id == "" then http_error "usage: /workflows/{transactionID}" 400 else page tx_id

-- The loop of handleStream gets the ticks of its timer until the request is cancelled; each tick
-- comes with what the lookup finds then.
pub data Event : Type 0 where
  cancelled : Event
  tick : Result Workflow → Event

abbrev pub payload_text : Result String → String
payload_text (ok text) = text
payload_text (err e) = ""

abbrev pub ends_stream : String → Bool
ends_stream phase = (phase == "Succeeded") || (phase == "Failed")

-- The payloads that the loop writes, as frames of the stream, from the last one written on.
unfoldable pub stream : (WorkflowStatus → Result String) → String → List Event → List String
stream marshal last [] = []
stream marshal last (cancelled ∷ events) = []
stream marshal last (tick (err e) ∷ events) = stream marshal last events
stream marshal last (tick (ok wf) ∷ events) =
    let payload = payload_text (marshal wf.status) in
    let rest = if ends_stream wf.status.phase then [] else stream marshal payload events in
    if payload == last then rest else payload ∷ rest

-- While a stream is open, its timer fires and finds the workflows as they are then, or the request
-- is cancelled.
pub data Signal : Type 0 where
  closed : Signal
  second : (String → Result (List Workflow)) → Signal

abbrev pub event_of : String → Signal → Event
event_of tx_id closed = cancelled
event_of tx_id (second list) = tick (first_of_list (list tx_id))

-- handleStream; the test is `w.(http.Flusher)`.
unfoldable pub handle_stream : Backend → Bool → String → List Signal → Reply
handle_stream b flushes path signals =
    let tx_id = trim_prefix "/api/workflows/stream/" path in
    if flushes
    then event_stream (stream b.marshal_status "" (map (event_of tx_id) signals))
    else http_error "streaming unsupported" 500

-- The handlers that Start gives to the ServeMux.
pub data Handler : Type 0 where
  page_handler : Handler
  stream_handler : Handler
  json_handler : Handler

abbrev pub patterns : List (String × Handler)
patterns =
    ("/workflows/", page_handler)
    ∷ ("/api/workflows/stream/", stream_handler)
    ∷ ("/api/workflows/", json_handler)
    ∷ []

-- ServeMux: a pattern that ends in a slash matches the paths that begin with it, and of two that
-- match the longer wins. The path is one that ServeMux has cleaned.
unfoldable pub longer : String × Handler → Option (String × Handler) → String × Handler
longer (p, h) none = (p, h)
longer (p, h) (some (q, k)) = if ltb (len q) (len p) then (p, h) else (q, k)

unfoldable pub match_pattern : String → List (String × Handler) → Option (String × Handler)
unfolding longer has_prefix
match_pattern path [] = none
match_pattern path ((p, h) ∷ ps) =
    let best = match_pattern path ps in
    if has_prefix p path then some (longer (p, h) best) else best

unfoldable pub reply_of : Backend → Bool → String → List Signal → Option (String × Handler) → Reply
unfolding handle_page handle_stream handle_workflow_json
reply_of b flushes path signals none = http_error "404 page not found" 404
reply_of b flushes path signals (some (_, page_handler)) = handle_page path
reply_of b flushes path signals (some (_, stream_handler)) = handle_stream b flushes path signals
reply_of b flushes path signals (some (_, json_handler)) = handle_workflow_json b path

-- A request to the server that Start runs.
unfoldable pub serve : Backend → Bool → String → List Signal → Reply
unfolding match_pattern reply_of
serve b flushes path signals = reply_of b flushes path signals (match_pattern path patterns)

-- How Start waits: until the context is done, or ListenAndServe gives its error.
pub data Ending : Type 0 where
  context_done : Ending
  listen_error : String → Ending

-- Start; the error of Shutdown is `shutdown`.
unfoldable pub start : Option String → Ending → Option String
start shutdown context_done = shutdown
start shutdown (listen_error e) = some e

-- NeedLeaderElection
unfoldable pub need_leader_election : Bool
need_leader_election = false

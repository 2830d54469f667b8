-- ===== src/Function/Report.antt =====
-- toUnstructuredSlice, buildNotifyRequest and the notification of RunFunction, of
-- function-httptask/fn.go.
use mathop_operator.Base.{
  ℕ, String, ◌&&◌, ◌||◌, not, List, [], ◌∷◌, Option, none, some, ◌==◌, length, Dict, insert,
  if◌then◌else◌,
}
use mathop_operator.Base.Int.{ℤ}
use mathop_operator.Base.Result.{Result, ok, err}
use mathop_operator.Json.{Json, Items, Fields, put, Codec}
use mathop_operator.Function.Heap.{Heap, unload_map}
use mathop_operator.Function.Types.{TaskStatus, DisposableRequest, Composite}
use mathop_operator.Function.Request.{json_cycle}
use mathop_operator.Function.Loop.{LoopState}

-- The fields of a TaskStatus by its json tags; `omitempty` drops a nil code, a nil or empty map and
-- an empty text.
abbrev error_field : String → Fields
error_field e = if e == "" then Fields.end else Fields.field "error" (Json.str e) Fields.end

abbrev output_field : Fields → Fields → Fields
output_field Fields.end rest = rest
output_field out rest = Fields.field "output" (Json.obj out) rest

abbrev code_field : Option ℤ → Fields → Fields
code_field none rest = rest
code_field (some c) rest = Fields.field "statusCode" (Json.int c) rest

abbrev pub output_tree : Heap → Option ℕ → Option Fields
output_tree h none = some Fields.end
output_tree h (some r) = unload_map (length h) h r

unfoldable pub status_json : Heap → TaskStatus → Option Json
status_json h s = elim (output_tree h s.output) [
  | none ↦ none
  | some out ↦ some (
      Json.obj (
        Fields.field "name" (Json.str s.name) (
          Fields.field "phase" (Json.str s.phase)
            (code_field s.status_code (output_field out (error_field s.error))))))
]

unfoldable pub statuses_json : Heap → List TaskStatus → Option Items
unfolding status_json
statuses_json h [] = some Items.nil
statuses_json h (s ∷ ss) = elim (status_json h s) [
  | none ↦ none
  | some x ↦ elim (statuses_json h ss) [ none ↦ none | some xs ↦ some (Items.cons x xs) ]
]

-- toUnstructuredSlice, with its error dropped as its caller does: the slice is nil then.
abbrev slice_of : Option Json → Items
slice_of (some (Json.arr xs)) = xs
slice_of _ = Items.nil

unfoldable pub to_unstructured_slice : Codec → Heap → List TaskStatus → Items
unfolding statuses_json
to_unstructured_slice codec h statuses = elim (statuses_json h statuses) [
  | none ↦ Items.nil
  | some xs ↦ slice_of (codec.decode (codec.encode (Json.arr xs)))
]

unfoldable pub build_notify_request :
    Codec
    → String
    → String
    → String
    → Heap
    → List TaskStatus
    → String
    → String
    → Result DisposableRequest
unfolding statuses_json
build_notify_request codec workflow_name tx_id phase h tasks notify_url provider_config =
    elim (statuses_json h tasks) [
      | none ↦ err json_cycle
      | some xs ↦ ok (record {
        api_version = "http.crossplane.io/v1alpha2";
        kind = "DisposableRequest";
        provider_config_name = provider_config;
        url = notify_url;
        method = "POST";
        body = codec.encode (
            Json.obj (
              put "tasks" (Json.arr xs) (
                put "phase" (Json.str phase) (
                  put "transactionID" (Json.str tx_id)
                    (put "workflow" (Json.str workflow_name) Fields.end)))));
        headers = ("Content-Type", "application/json" ∷ []) ∷ [];
      })
    ]

abbrev pub notify_key : String
notify_key = "__notify__"

abbrev pub add_request : Result DisposableRequest → Dict DisposableRequest → Dict DisposableRequest
add_request (err e) desired = desired
add_request (ok nr) desired = insert notify_key nr desired

-- The notification, once the phase is one that ends a workflow.
unfoldable pub with_notify :
    Codec → Composite → String → LoopState → String → Dict DisposableRequest
unfolding build_notify_request
with_notify codec xr phase s provider_config =
    if ((phase == "Succeeded") || (phase == "Failed")) && not (xr.notify_url == "")
    then add_request
        (build_notify_request codec xr.name xr.uid phase s.heap s.statuses xr.notify_url
          provider_config)
        s.desired
    else s.desired

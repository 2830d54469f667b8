-- ===== src/Controller/Merge.antt =====
-- The request body of an HTTPTask: spec.input with the fields of spec.inputFrom, by
-- HTTPTaskReconciler.Reconcile of internal/controller/httptask_controller.go.
pub mod Inputs
pub mod Targets
use mathop_operator.Base.{
  String, Bool, true, false, ◌&&◌, ◌||◌, not, List, [], ◌∷◌, Option, none, some, ◌==◌,
  if◌then◌else◌,
}
use mathop_operator.Base.Int.{ℤ, pos, to_int32, ltb_ℤ, leb_ℤ}
use mathop_operator.Base.Text.{◌<>◌, show_ℤ}
use mathop_operator.Base.Result.{Result, ok, err}
use mathop_operator.Json.{Json, Fields, Codec}
use mathop_operator.Json.Paths.{get_json_field, set_json_field}
use mathop_operator.Api.{Condition, FieldMapping, HttpTask}
use mathop_operator.Controller.Platform.{
  NamespacedName, HttpRequest, HttpResponse, Fetch, found, not_found, failed, updated,
  status_updated, sent, Trace, Environment, Helpers, Reconciled, done, requeue_after, with_error,
}
use mathop_operator.Controller.Index.{task_referenced_by_others}

-- A request body: a map, or the nil map that a raw null decodes to.
abbrev pub Body : Type 0
Body = Option Fields

abbrev pub body_json : Body → Json
body_json none = Json.null
body_json (some m) = Json.obj m

-- What the loop over spec.inputFrom ends with: a body, or a condition with its reason and message
-- that fail or waiting sets, or a write to a nil map.
pub data Merged : Type 0 where
  merged : Body → Merged
  fails : String → String → Merged
  waits : String → String → Merged
  panics : Merged

-- json.Unmarshal of a text into a map.
unfoldable pub unmarshal_map : Codec → String → Option Body
unmarshal_map codec raw = elim (codec.decode raw) [
  | some (Json.obj m) ↦ some (some m)
  | some Json.null ↦ some none
  | _ ↦ none
]

abbrev pub field_of : Body → String → Option Json
field_of none path = none
field_of (some m) path = get_json_field m path

-- The body that spec.input gives: an empty map where there is none.
unfoldable pub initial_body : Codec → String → Option Body
unfolding unmarshal_map
initial_body codec raw = if raw == "" then some (some Fields.end) else unmarshal_map codec raw

module _ (codec : Codec) (env : Environment HttpTask) where
  open codec use {map_error, quote}

  -- The write of a mapping's value: a write to a nil map panics.
  unfoldable pub put_value : FieldMapping → Option Json → Body → Merged
  put_value m none body = waits "WaitingOnSource" (
      "field "
      <> quote m.source_field
      <> " not present yet in task "
      <> quote m.source_ref.name
      <> " output")
  put_value m (some val) none = panics
  put_value m (some val) (some b) = merged (some (set_json_field b m.target_field val))

  -- The value of one mapping in the output of its source.
  unfoldable pub merge_value : FieldMapping → String → Option Body → Body → Merged
  unfolding put_value
  merge_value m raw none body =
      fails "InvalidSourceOutput"
        ("task " <> quote m.source_ref.name <> " output is not a JSON object: " <> map_error raw)
  merge_value m raw (some output) body = put_value m (field_of output m.source_field) body

  -- One round of the loop.
  unfoldable pub merge_one : FieldMapping → Fetch HttpTask → Body → Merged
  unfolding merge_value unmarshal_map
  merge_one m (found source) body =
      if source.status.output == ""
      then waits "WaitingOnSource" ("task " <> quote m.source_ref.name <> " has no output yet")
      else merge_value m source.status.output (unmarshal_map codec source.status.output) body
  merge_one m _ body =
      fails "SourceNotFound" ("referenced task " <> quote m.source_ref.name <> " not found")

  abbrev pub source_key : String → FieldMapping → NamespacedName
  source_key namespace m = record { namespace = namespace; name = m.source_ref.name }

  -- The loop over spec.inputFrom. It stops at the first mapping that gives no value.
  unfoldable pub merge_inputs : String → Trace HttpTask → List FieldMapping → Body → Merged
  unfolding merge_one
  merge_inputs namespace tr [] body = merged body
  merge_inputs namespace tr (m ∷ ms) body =
      let step = merge_one m (env.get tr (source_key namespace m)) body in
      elim step [
        | merged body' ↦ merge_inputs namespace tr ms body'
        | fails reason msg ↦ fails reason msg
        | waits reason msg ↦ waits reason msg
        | panics ↦ panics
      ]

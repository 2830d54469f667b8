-- ===== src/Function/Request.antt =====
-- buildDisposableRequest of function-httptask/fn.go.
use mathop_operator.Base.{
  ℕ, String, List, [], ◌∷◌, Option, none, some, ◌==◌, length, Dict, lookup, insert, for_each,
  if◌then◌else◌,
}
use mathop_operator.Base.Text.{◌<>◌}
use mathop_operator.Base.Result.{Result, ok, err}
use mathop_operator.Json.{Json, Codec}
use mathop_operator.Function.Heap.{
  Heap, allocate, load_fields, unload_map, get_json_field, set_json_field,
}
use mathop_operator.Function.Types.{FieldMapping, TaskSpec, DisposableRequest}

-- outputs: for each task that succeeded, its response.
abbrev pub Outputs : Type 0
Outputs = Dict (Option ℕ)

abbrev pub json_cycle : String
json_cycle = "json: unsupported value: encountered a cycle via map[string]interface {}"

-- headers[k] = []string{v}
abbrev pub set_header : String × String → Dict (List String) → Dict (List String)
set_header (k, v) hs = insert k (v ∷ []) hs

-- The content type, under the defaults, under the task's own headers.
unfoldable pub merge_headers : Dict String → Dict String → Dict (List String)
merge_headers defaults own =
    for_each set_header own
      (for_each set_header defaults (("Content-Type", "application/json" ∷ []) ∷ []))

module _ (codec : Codec) where
  open codec use {encode, quote}

  -- The loop over task.InputFrom: its error, if one stops it, and the heap that it leaves.
  unfoldable pub map_fields :
      String → Outputs → ℕ → List FieldMapping → Heap → Result (Unit {0}) × Heap
  map_fields name outputs body [] h = (ok tt, h)
  map_fields name outputs body (m ∷ ms) h = elim (lookup m.source_task outputs) [
    | none ↦ (
      err (
          "task "
          <> quote m.source_task
          <> " has not completed yet (referenced by "
          <> quote name
          <> ")"),
      h,
    )
    | some src ↦ elim (get_json_field h src m.source_field) [
      | none ↦ (
        err (
            "field "
            <> quote m.source_field
            <> " not present in task "
            <> quote m.source_task
            <> "'s output"),
        h,
      )
      | some val ↦ map_fields name outputs body ms (set_json_field body m.target_field val h)
    ]
  ]

  -- json.Marshal of the body, and the resource around it.
  unfoldable pub request_of :
      TaskSpec → Dict String → String → Result (Unit {0}) → ℕ → Heap → Result DisposableRequest
  request_of task default_headers provider_config (err e) body h = err e
  request_of task default_headers provider_config (ok _) body h =
      elim (unload_map (length h) h body) [
        | none ↦ err json_cycle
        | some fields ↦ ok (record {
          api_version = "http.crossplane.io/v1alpha2";
          kind = "DisposableRequest";
          provider_config_name = provider_config;
          url = task.endpoint;
          method = if task.method == "" then "POST" else task.method;
          body = encode (Json.obj fields);
          headers = merge_headers default_headers task.headers;
        })
      ]

  -- The body starts as a copy of task.Input: a new map with the same values.
  unfoldable pub build_disposable_request :
      TaskSpec → Dict String → String → Outputs → Heap → Result DisposableRequest × Heap
  unfolding allocate
  build_disposable_request task default_headers provider_config outputs h =
      let (entries, h₁) = load_fields task.input [] h in
      let (body, h₂) = allocate entries h₁ in
      let (mapped, h₃) = map_fields task.name outputs body task.input_from h₂ in
      (request_of task default_headers provider_config mapped body h₃, h₃)

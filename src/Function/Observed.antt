-- ===== src/Function/Observed.antt =====
-- taskStatusFromObserved of function-httptask/fn.go.
use mathop_operator.Base.{
  String, Bool, false, ◌&&◌, ◌||◌, not, [], Option, none, some, ◌==◌, if◌then◌else◌,
}
use mathop_operator.Base.Int.{ℤ, pos, to_int32, ltb_ℤ, leb_ℤ, eqb_ℤ}
use mathop_operator.Base.Text.{◌<>◌, show_ℤ}
use mathop_operator.Json.{Json, Codec}
use mathop_operator.Function.Heap.{Heap, allocate, load_fields}
use mathop_operator.Function.Types.{TaskStatus, ObservedResource}

-- A value whose error is dropped: the zero value stands for it.
abbrev pub or_empty : Option String → String
or_empty none = ""
or_empty (some s) = s

abbrev pub or_zero : Option ℤ → ℤ
or_zero none = pos 0
or_zero (some n) = n

abbrev pub bare_status : String → String → TaskStatus
bare_status name phase = record {
  name = name;
  phase = phase;
  status_code = none;
  output = none;
  error = "";
}

-- What the function reads of the resource.
abbrev pub read_error : ObservedResource → String
read_error res = or_empty (res.get_string "status.error")

abbrev pub read_code : ObservedResource → ℤ
read_code res = or_zero (res.get_integer "status.response.statusCode")

abbrev pub read_body : ObservedResource → String
read_body res = or_empty (res.get_string "status.response.body")

abbrev pub read_synced : ObservedResource → Option Json
read_synced res = res.get_value "status.synced"

-- `syncedBool, ok := synced.(bool); ok && !syncedBool`
abbrev pub is_unsynced : Option Json → Bool
is_unsynced (some (Json.bool b)) = not b
is_unsynced _ = false

-- json.Unmarshal of the body into a map: an object fills it, null leaves it nil.
unfoldable pub status_of_body : String → ℤ → Option Json → Heap → TaskStatus × Heap
unfolding allocate
status_of_body name c (some (Json.obj fields)) h =
    let (entries, h₁) = load_fields fields [] h in
    let (out, h₂) = allocate entries h₁ in
    (record (bare_status name "Succeeded") { status_code = some c; output = some out }, h₂)
status_of_body name c (some Json.null) h =
    (record (bare_status name "Succeeded") { status_code = some c }, h)
status_of_body name c _ h = (
  record (bare_status name "Failed") {
    status_code = some c;
    error = "response body is not a JSON object";
  },
  h,
)

module _ (codec : Codec) where
  open codec use {decode}

  unfoldable pub task_status_from_observed : String → ObservedResource → Heap → TaskStatus × Heap
  task_status_from_observed name res h =
      let err_msg = read_error res in
      let code = read_code res in
      let body = read_body res in
      let c = to_int32 code in
      if not (err_msg == "")
      then (record (bare_status name "Failed") { error = err_msg }, h)
      else if eqb_ℤ code (pos 0) && (body == "")
      then (bare_status name "Running", h)
      else if ltb_ℤ code (pos 200) || leb_ℤ (pos 300) code
      then (
        record (bare_status name "Failed") {
          status_code = some c;
          error = "endpoint returned HTTP " <> show_ℤ code <> ": " <> body;
        },
        h,
      )
      else if is_unsynced (read_synced res)
      then (record (bare_status name "Running") { status_code = some c }, h)
      else status_of_body name c (decode body) h

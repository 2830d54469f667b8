-- ===== src/Json.antt =====
-- The dynamic values of encoding/json, as trees: what a text decodes to when nothing is shared.
-- A float64 is a decimal mantissa and the number of its decimal places; nothing is computed with it.
pub mod Paths
use mathop_operator.Base.{
  ℕ, String, ◌≡◌, refl, Bool, Option, none, some, arith, ◌==◌, eq_iff, eq_refl,
}
use mathop_operator.Base.{if◌then◌else◌}
use mathop_operator.Base.Int.{ℤ}

mutual
  pub data Json : Type 0 where
    null : Json
    bool : Bool → Json
    int : ℤ → Json
    float : ℤ → ℕ → Json
    str : String → Json
    arr : Items → Json
    obj : Fields → Json

  pub data Items : Type 0 where
    nil : Items
    cons : Json → Items → Items

  pub data Fields : Type 0 where
    end : Fields
    field : String → Json → Fields → Fields

-- `v, ok := m[k]`
unfoldable pub get : String → Fields → Option Json
get k end = none
get k (field j v fs) = if j == k then some v else get k fs

-- `m[k] = v`
unfoldable pub put : String → Json → Fields → Fields
put k v end = field k v end
put k v (field j w fs) = if j == k then field k v fs else field j w (put k v fs)

pub get-put :
    (k j : String) (v : Json) (m : Fields)
    → get j (put k v m) ≡ (if k == j then some v else get j m)
unfolding get put
get-put k j v end = refl
get-put k j v (field i w fs) = ground (arith, eq_iff k j, eq_iff i k, eq_iff i j, get-put k j v fs)

pub get-put_self : (k : String) (v : Json) (m : Fields) → get k (put k v m) ≡ some v
get-put_self k v m = simp (get-put, eq_refl)

-- What the program asks of encoding/json, crypto/sha256 and the verb %q: texts for values. These
-- are arguments of the model; where a proof needs a law of them, it is a named hypothesis.
pub record Codec : Type 0 where
  -- json.Marshal of a tree
  pub encode : Json → String
  -- json.Unmarshal into an interface{}; `none` is its error
  pub decode : String → Option Json
  -- the text of json.Unmarshal's error where a text does not decode into a map
  pub map_error : String → String
  -- the verb %q
  pub quote : String → String
  -- hex.EncodeToString of sha256.Sum256
  pub sha256_hex : String → String

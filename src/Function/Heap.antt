-- ===== src/Function/Heap.antt =====
-- Go's maps as objects on a heap, for function-httptask/fn.go: a map that a task's output holds can
-- be reached from a request body too, and setJSONField then writes to both.
use mathop_operator.Base.{
  ℕ, zero, suc, String, Bool, List, [], ◌∷◌, ◌++◌, Option, none, some, length, get_elem?, set, Dict,
  lookup, insert,
}
use mathop_operator.Base.Int.{ℤ}
use mathop_operator.Base.Text.{split_dots}
use mathop_operator.Json.{Json, Items, Fields}

-- interface{} values. A map is the number of its object; a slice is never written to.
mutual
  pub data Value : Type 0 where
    null : Value
    bool : Bool → Value
    int : ℤ → Value
    float : ℤ → ℕ → Value
    str : String → Value
    slice : Elems → Value
    object : ℕ → Value

  pub data Elems : Type 0 where
    nil : Elems
    cons : Value → Elems → Elems

-- The objects, by number. A new map takes the next number.
abbrev pub Heap : Type 0
Heap = List (Dict Value)

abbrev pub map_at : Option (Dict Value) → Dict Value
map_at none = []
map_at (some m) = m

unfoldable pub read : Heap → ℕ → Dict Value
read h r = map_at (get_elem? h r)

-- `m[k] = v` on the object.
unfoldable pub write : Heap → ℕ → String → Value → Heap
unfolding read
write h r k v = set h r (insert k v (read h r))

-- A new map that holds the given entries: its number, and the heap with it.
unfoldable pub allocate : Dict Value → Heap → ℕ × Heap
allocate m h = (length h, h ++ m ∷ [])

-- json.Unmarshal into an interface{}: every object of the tree is a new map.
unfoldable mutual
  pub load : Json → Heap → Value × Heap
  load Json.null h = (Value.null, h)
  load (Json.bool b) h = (Value.bool b, h)
  load (Json.int n) h = (Value.int n, h)
  load (Json.float m e) h = (Value.float m e, h)
  load (Json.str s) h = (Value.str s, h)
  load (Json.arr xs) h = let (es, h') = load_items xs h in (Value.slice es, h')
  load (Json.obj fs) h =
      let (m, h') = load_fields fs [] h in (Value.object (length h'), h' ++ m ∷ [])

  pub load_items : Items → Heap → Elems × Heap
  load_items Items.nil h = (Elems.nil, h)
  load_items (Items.cons x xs) h =
      let (v, h') = load x h in let (es, h'') = load_items xs h' in (Elems.cons v es, h'')

  pub load_fields : Fields → Dict Value → Heap → Dict Value × Heap
  load_fields Fields.end m h = (m, h)
  load_fields (Fields.field k x fs) m h = let (v, h') = load x h in load_fields fs (insert k v m) h'

-- What json.Marshal gives for a slice, for a map and for one element more, by what it gives for the
-- parts; `none` is its error on a map that holds itself.
abbrev pub slice_json : Option Items → Option Json
slice_json none = none
slice_json (some xs) = some (Json.arr xs)

abbrev pub map_json : Option Fields → Option Json
map_json none = none
map_json (some fs) = some (Json.obj fs)

abbrev pub cons_json : Option Json → Option Items → Option Items
cons_json (some x) (some xs) = some (Items.cons x xs)
cons_json _ _ = none

abbrev pub field_json : String → Option Json → Option Fields → Option Fields
field_json k (some x) (some fs) = some (Fields.field k x fs)
field_json k _ _ = none

-- json.Marshal walks the maps; `below` reads the map of a number.
unfoldable mutual
  pub unload : (ℕ → Option Fields) → Value → Option Json
  unload below Value.null = some Json.null
  unload below (Value.bool b) = some (Json.bool b)
  unload below (Value.int n) = some (Json.int n)
  unload below (Value.float m e) = some (Json.float m e)
  unload below (Value.str s) = some (Json.str s)
  unload below (Value.slice es) = slice_json (unload_elems below es)
  unload below (Value.object r) = map_json (below r)

  pub unload_elems : (ℕ → Option Fields) → Elems → Option Items
  unload_elems below Elems.nil = some Items.nil
  unload_elems below (Elems.cons v es) = cons_json (unload below v) (unload_elems below es)

unfoldable pub unload_dict : (ℕ → Option Fields) → Dict Value → Option Fields
unload_dict below [] = some Fields.end
unload_dict below ((k, v) ∷ m) = field_json k (unload below v) (unload_dict below m)

-- The fuel is the number of maps: a walk that enters more maps than there are has entered one of
-- them inside itself.
unfoldable pub unload_map : ℕ → Heap → ℕ → Option Fields
unload_map zero h r = none
unload_map (suc f) h r = unload_dict (unload_map f h) (read h r)

-- The loop of getJSONField over the parts of the path.
unfoldable pub walk : Heap → List String → Value → Option Value
walk h [] cur = some cur
walk h (p ∷ ps) (Value.object r) = elim (lookup p (read h r)) [ none ↦ none | some v ↦ walk h ps v ]
walk h (p ∷ ps) _ = none

-- getJSONField on a map that may be nil, which has no keys.
unfoldable pub get_json_field : Heap → Option ℕ → String → Option Value
get_json_field h none path = none
get_json_field h (some r) path = walk h (split_dots path) (Value.object r)

-- `next, ok := cur[p].(map[string]interface{})`, and a new map under the key where it is none.
unfoldable pub enter : String → ℕ → Heap → ℕ × Heap
enter p cur h = elim (lookup p (read h cur)) [
  | some (Value.object r) ↦ (r, h)
  | _ ↦ (length h, write (h ++ [] ∷ []) cur p (Value.object (length h)))
]

-- The loop of setJSONField over the parts of the path.
unfoldable pub set_parts : List String → Value → ℕ → Heap → Heap
unfolding enter
set_parts [] value cur h = h
set_parts (p ∷ []) value cur h = write h cur p value
set_parts (p ∷ q ∷ ps) value cur h =
    let (next, h') = enter p cur h in set_parts (q ∷ ps) value next h'

-- setJSONField
unfoldable pub set_json_field : ℕ → String → Value → Heap → Heap
set_json_field cur path value h = set_parts (split_dots path) value cur h

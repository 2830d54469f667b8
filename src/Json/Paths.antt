-- ===== src/Json/Paths.antt =====
-- internal/controller/jsonpath.go, over trees: in HTTPTaskReconciler every map is freshly decoded,
-- so no map is reached by two paths and an update of a tree is what the update in place does.
use mathop_operator.Base.{
  String, ◌≡◌, ◌≢◌, refl, ◌⊎◌, inl, inr, List, [], ◌∷◌, Option, none, some, arith, eq_iff,
}
use mathop_operator.Base.Text.{split_dots, split_dots-cons}
use mathop_operator.Json.{Json, Fields, get, put, end, get-put, get-put_self}

-- The loop of getJSONField over the parts of the path.
unfoldable pub walk : List String → Json → Option Json
walk [] cur = some cur
walk (p ∷ ps) (Json.obj m) = elim (get p m) [ none ↦ none | some v ↦ walk ps v ]
walk (p ∷ ps) _ = none

-- getJSONField
unfoldable pub get_json_field : Fields → String → Option Json
get_json_field m path = walk (split_dots path) (Json.obj m)

-- The map under a key, or a new one where there is none.
abbrev pub child : Option Json → Fields
child (some (Json.obj m)) = m
child _ = end

-- The loop of setJSONField over the parts of the path.
unfoldable pub set_parts : List String → Json → Fields → Fields
set_parts [] value cur = cur
set_parts (p ∷ []) value cur = put p value cur
set_parts (p ∷ q ∷ ps) value cur =
    put p (Json.obj (set_parts (q ∷ ps) value (child (get p cur)))) cur

-- setJSONField
unfoldable pub set_json_field : Fields → String → Json → Fields
set_json_field m path value = set_parts (split_dots path) value m

walk-set_parts_self :
    (p : String) (ps : List String) (v : Json) (m : Fields)
    → walk (p ∷ ps) (Json.obj (set_parts (p ∷ ps) v m)) ≡ some v
unfolding walk set_parts
walk-set_parts_self p [] v m = ground (arith, get-put_self p v m)
walk-set_parts_self p (q ∷ ps) v m =
    let inner = set_parts (q ∷ ps) v (child (get p m)) in
    ground (arith, get-put_self p (Json.obj inner) m, walk-set_parts_self q ps v (child (get p m)))

-- A field that was set is read back, whatever the path and whatever stood in its way.
pub get_json_field-set_json_field :
    (m : Fields) (path : String) (v : Json) → get_json_field (set_json_field m path v) path ≡ some v
unfolding get_json_field set_json_field
get_json_field-set_json_field m path v =
    let (p, ps, e) = split_dots-cons path in rw e (walk-set_parts_self p ps v m)

-- Two paths part before either ends: neither is the other, nor runs through the other.
abbrev pub Apart : List String → List String → Type 0
Apart (p ∷ ps) (q ∷ qs) = (p ≢ q) ⊎ ((p ≡ q) × Apart ps qs)
Apart _ _ = ⊥

walk-child :
    (q : String) (qs : List String) (o : Option Json)
    → walk (q ∷ qs) (Json.obj (child o)) ≡ (elim o [ none ↦ none | some v ↦ walk (q ∷ qs) v ])
unfolding walk get
walk-child q qs none = refl
walk-child q qs (some (Json.obj m)) = refl
walk-child q qs (some _) = refl

walk-set_parts-Apart :
    (ps qs : List String) (v : Json) (m : Fields)
    → Apart ps qs
    → walk qs (Json.obj (set_parts ps v m)) ≡ walk qs (Json.obj m)
unfolding walk set_parts
walk-set_parts-Apart [] qs v m h = absurd h
walk-set_parts-Apart (p ∷ ps) [] v m h = absurd h
walk-set_parts-Apart (p ∷ []) (q ∷ qs) v m (inl ne) = ground (arith, get-put p q v m, eq_iff p q)
walk-set_parts-Apart (p ∷ []) (q ∷ qs) v m (inr h) = absurd h.1
walk-set_parts-Apart (p ∷ p' ∷ ps) (q ∷ qs) v m (inl ne) =
    ground (arith, get-put p q (Json.obj (set_parts (p' ∷ ps) v (child (get p m)))) m, eq_iff p q)
walk-set_parts-Apart (p ∷ p' ∷ ps) (q ∷ []) v m (inr h) = absurd h.1
walk-set_parts-Apart (p ∷ p' ∷ ps) (q ∷ q' ∷ qs) v m (inr (e, h)) =
    let inner = set_parts (p' ∷ ps) v (child (get p m)) in
    ground (
      arith,
      e,
      get-put_self p (Json.obj inner) m,
      walk-set_parts-Apart (p' ∷ ps) (q' ∷ qs) v (child (get p m)) h,
      walk-child q' qs (get p m),
    )

-- Setting one path leaves every path that parts from it before its end as it was.
pub get_json_field-set_json_field-Apart :
    (m : Fields) (path other : String) (v : Json)
    → Apart (split_dots path) (split_dots other)
    → get_json_field (set_json_field m path v) other ≡ get_json_field m other
unfolding get_json_field set_json_field
get_json_field-set_json_field-Apart m path other v h =
    walk-set_parts-Apart (split_dots path) (split_dots other) v m h

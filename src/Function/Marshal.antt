-- ===== src/Function/Marshal.antt =====
-- json.Marshal of a map in function-httptask/fn.go: the fuel of unload_map is enough.
use mathop_operator.Base.{
  ap, ℕ, zero, suc, ◌<◌, ◌≡◌, refl, some, Option, [], ◌∷◌, Dict, length, arith,
}
use mathop_operator.Json.{Json, Items, Fields}
use mathop_operator.Function.Heap.{
  Heap, Value, Elems, read, unload, unload_elems, unload_dict, unload_map, slice_json, map_json,
}

-- Every map that a value holds has a number below `n`.
abbrev mutual
  pub RefsBelow : ℕ → Value → Type 0
  RefsBelow n (Value.object r) = r < n
  RefsBelow n (Value.slice es) = ElemsBelow n es
  RefsBelow n _ = Unit

  pub ElemsBelow : ℕ → Elems → Type 0
  ElemsBelow n Elems.nil = Unit
  ElemsBelow n (Elems.cons v es) = RefsBelow n v × ElemsBelow n es

abbrev pub DictBelow : ℕ → Dict Value → Type 0
DictBelow n [] = Unit
DictBelow n ((k, v) ∷ m) = RefsBelow n v × DictBelow n m

-- Every map holds maps that were made before it.
abbrev pub IsOrdered : Heap → Type 0
IsOrdered h = (r : ℕ) → DictBelow r (read h r)

module _ (n : ℕ) (below : ℕ → Option Fields)
    (known : (r : ℕ) → r < n → (fs : Fields) × (below r ≡ some fs)) where
  mutual
    unfolding unload unload_elems

    unload-some : (v : Value) → RefsBelow n v → (x : Json) × (unload below v ≡ some x)
    unload-some Value.null h = (Json.null, refl)
    unload-some (Value.bool b) h = (Json.bool b, refl)
    unload-some (Value.int k) h = (Json.int k, refl)
    unload-some (Value.float m e) h = (Json.float m e, refl)
    unload-some (Value.str s) h = (Json.str s, refl)
    unload-some (Value.slice es) h =
        let (xs, e) = unload_elems-some es h in (Json.arr xs, ap slice_json e)
    unload-some (Value.object r) h = let (fs, e) = known r h in (Json.obj fs, ap map_json e)

    unload_elems-some :
        (es : Elems) → ElemsBelow n es → (xs : Items) × (unload_elems below es ≡ some xs)
    unload_elems-some Elems.nil h = (Items.nil, refl)
    unload_elems-some (Elems.cons v es) h =
        let (x, e) = unload-some v h.0 in
        let (xs, e') = unload_elems-some es h.1 in (Items.cons x xs, rw (e, e') refl)

  unload_dict-some :
      (m : Dict Value) → DictBelow n m → (fs : Fields) × (unload_dict below m ≡ some fs)
  unfolding unload_dict
  unload_dict-some [] h = (Fields.end, refl)
  unload_dict-some ((k, v) ∷ m) h =
      let (x, e) = unload-some v h.0 in
      let (fs, e') = unload_dict-some m h.1 in (Fields.field k x fs, rw (e, e') refl)

unload_map-some :
    (h : Heap)
    → IsOrdered h
    → (fuel r : ℕ) → r < fuel
    → (fs : Fields) × (unload_map fuel h r ≡ some fs)
unfolding unload_map
unload_map-some h ordered zero r lt = absurd (omega (arith, lt))
unload_map-some h ordered (suc fuel) r lt =
    unload_dict-some r (unload_map fuel h)
      (λ q lt'. unload_map-some h ordered fuel q (omega (arith, lt, lt'))) (read h r) (ordered r)

-- On a heap where every map holds only maps that were made before it, the number of maps is fuel enough
-- to marshal each of them.
pub unload_map_enough :
    (h : Heap) (r : ℕ)
    → IsOrdered h
    → r < length h
    → (fs : Fields) × (unload_map (length h) h r ≡ some fs)
unload_map_enough h r ordered lt = unload_map-some h ordered (length h) r lt

-- ===== src/Function/Ordered.antt =====
-- Heaps of function-httptask/fn.go on which every map holds only maps that were made before it: what
-- decoding, a new map and a write of an older value leave of that.
use mathop_operator.Base.{
  ap, ℕ, zero, suc, ◌<◌, ◌≤◌, ◌≡◌, ◌≢◌, refl, some, [], ◌∷◌, ◌++◌, Dict, length, arith, lookup,
  insert, String, get_elem?, set, eq-cases, inl, inr, length-append, subst, sym, ◌⊎◌, ◌∙◌,
}
use mathop_operator.Json.{Json, Items, Fields}
use mathop_operator.Function.Heap.{
  Heap, Value, Elems, read, write, map_at, load, load_items, load_fields,
}
use mathop_operator.Function.Marshal.{RefsBelow, ElemsBelow, DictBelow, IsOrdered}
use mathop_operator.Function.Sharing.{
  load-Keeps, load_items-Keeps, get_elem?-append_left, get_elem?-set_other, length-set,
  get_elem?-set,
}

compare-cases : (m n : ℕ) → (m < n) ⊎ ((m ≡ n) ⊎ (n < m))
compare-cases m n = ground arith

module _ (n n' : ℕ) (le : n ≤ n') where
  mutual
    pub RefsBelow-mono : (v : Value) → RefsBelow n v → RefsBelow n' v
    RefsBelow-mono Value.null h = tt
    RefsBelow-mono (Value.bool b) h = tt
    RefsBelow-mono (Value.int k) h = tt
    RefsBelow-mono (Value.float m e) h = tt
    RefsBelow-mono (Value.str s) h = tt
    RefsBelow-mono (Value.slice es) h = ElemsBelow-mono es h
    RefsBelow-mono (Value.object r) h = omega (arith, le, h)

    ElemsBelow-mono : (es : Elems) → ElemsBelow n es → ElemsBelow n' es
    ElemsBelow-mono Elems.nil h = tt
    ElemsBelow-mono (Elems.cons v es) h = (RefsBelow-mono v h.0, ElemsBelow-mono es h.1)

  pub DictBelow-mono : (m : Dict Value) → DictBelow n m → DictBelow n' m
  DictBelow-mono [] h = tt
  DictBelow-mono ((k, v) ∷ m) h = (RefsBelow-mono v h.0, DictBelow-mono m h.1)

pub DictBelow-insert :
    (n : ℕ) (k : String) (v : Value) (m : Dict Value)
    → RefsBelow n v
    → DictBelow n m
    → DictBelow n (insert k v m)
unfolding insert
DictBelow-insert n k v [] hv h = (hv, tt)
DictBelow-insert n k v ((j, w) ∷ m) hv h = elim (eq-cases j k) [
  | inl e ↦ rw e.0 (hv, h.1)
  | inr e ↦ rw e.0 (h.0, DictBelow-insert n k v m hv h.1)
]

pub DictBelow-lookup :
    (n : ℕ) (k : String) (v : Value) (m : Dict Value)
    → DictBelow n m
    → lookup k m ≡ some v
    → RefsBelow n v
unfolding lookup
DictBelow-lookup n k v [] h e = cc
DictBelow-lookup n k v ((j, w) ∷ m) h e = elim (eq-cases j k) [
  | inl s ↦
      let there : lookup k ((j, w) ∷ m) ≡ some w = rw s.0 refl in
      let same : w ≡ v = cc in subst (RefsBelow n) same h.0
  | inr s ↦
      DictBelow-lookup n k v m h.1
        (let later : lookup k m ≡ lookup k ((j, w) ∷ m) = rw s.0 refl in later ∙ e)
]

read-append_end : (h : Heap) (m : Dict Value) → read (h ++ m ∷ []) (length h) ≡ m
unfolding read
read-append_end [] m = refl
read-append_end (x ∷ h) m = read-append_end h m

read-out : (h : Heap) (r : ℕ) → length h ≤ r → read h r ≡ []
unfolding read
read-out [] r le = refl
read-out (x ∷ h) zero le = absurd (omega (arith, le))
read-out (x ∷ h) (suc r) le = read-out h r (omega (arith, le))

-- A new map after those of an ordered heap.
pub IsOrdered-append :
    (h : Heap) (m : Dict Value) → IsOrdered h → DictBelow (length h) m → IsOrdered (h ++ m ∷ [])
unfolding read
IsOrdered-append h m ordered below r = elim (compare-cases r (length h)) [
  | inl lt ↦
      subst (DictBelow r) (sym (ap map_at (get_elem?-append_left h (m ∷ []) r lt))) (ordered r)
  | inr (inl e) ↦ rw e (subst (DictBelow (length h)) (sym (read-append_end h m)) below)
  | inr (inr gt) ↦
      subst (DictBelow r)
        (sym (read-out (h ++ m ∷ []) r (omega (arith, length-append h (m ∷ []), gt)))) tt
]

-- A write of a value whose maps are older than the map that is written.
pub IsOrdered-write :
    (h : Heap) (r : ℕ) (k : String) (v : Value)
    → IsOrdered h
    → RefsBelow r v
    → IsOrdered (write h r k v)
unfolding write read
IsOrdered-write h r k v ordered below q = elim (compare-cases q r) [
  | inl lt ↦ untouched (λ e. omega (arith, lt, e))
  | inr (inl same) ↦ rw same (elim (compare-cases r (length h)) [
    | inl lt ↦
        subst (DictBelow r) (sym (ap map_at (get_elem?-set h r (insert k v (read h r)) lt)))
          (DictBelow-insert r k v (read h r) below (ordered r))
    | inr le ↦
        subst (DictBelow r)
          (sym (
            read-out (set h r (insert k v (read h r))) r
              (omega (arith, length-set h r (insert k v (read h r)), not_below le))))
          tt
  ])
  | inr (inr gt) ↦ untouched (λ e. omega (arith, gt, e))
]
  where
    untouched :
        r ≢ q → DictBelow q (map_at (get_elem? (set h r (insert k v (map_at (get_elem? h r)))) q))
    untouched ne =
        subst (DictBelow q) (sym (ap map_at (get_elem?-set_other h r q (insert k v (read h r)) ne)))
          (ordered q)

    not_below : (r ≡ length h) ⊎ (length h < r) → length h ≤ r
    not_below (inl e) = omega (arith, e)
    not_below (inr lt) = omega (arith, lt)

mutual
  unfolding load load_items load_fields

  pub load-IsOrdered :
      (x : Json) (h : Heap)
      → IsOrdered h
      → IsOrdered (load x h).1 × RefsBelow (length (load x h).1) (load x h).0
  load-IsOrdered Json.null h o = (o, tt)
  load-IsOrdered (Json.bool b) h o = (o, tt)
  load-IsOrdered (Json.int n) h o = (o, tt)
  load-IsOrdered (Json.float m e) h o = (o, tt)
  load-IsOrdered (Json.str s) h o = (o, tt)
  load-IsOrdered (Json.arr xs) h o = load_items-IsOrdered xs h o
  load-IsOrdered (Json.obj fs) h o =
      let r = load_fields-IsOrdered fs [] h o tt in
      (
        IsOrdered-append (load_fields fs [] h).1 (load_fields fs [] h).0 r.0 r.1,
        omega (arith, length-append (load_fields fs [] h).1 ((load_fields fs [] h).0 ∷ [])),
      )

  pub load_items-IsOrdered :
      (xs : Items) (h : Heap)
      → IsOrdered h
      → IsOrdered (load_items xs h).1 × ElemsBelow (length (load_items xs h).1) (load_items xs h).0
  load_items-IsOrdered Items.nil h o = (o, tt)
  load_items-IsOrdered (Items.cons x xs) h o =
      let r = load-IsOrdered x h o in
      let rs = load_items-IsOrdered xs (load x h).1 r.0 in
      let old =
        RefsBelow-mono (length (load x h).1) (length (load_items xs (load x h).1).1)
          (load_items-Keeps xs (load x h).1).0 (load x h).0 r.1 in
      (rs.0, (old, rs.1))

  pub load_fields-IsOrdered :
      (fs : Fields) (m : Dict Value) (h : Heap)
      → IsOrdered h
      → DictBelow (length h) m
      → IsOrdered (load_fields fs m h).1
        × DictBelow (length (load_fields fs m h).1) (load_fields fs m h).0
  load_fields-IsOrdered Fields.end m h o below = (o, below)
  load_fields-IsOrdered (Fields.field k x fs) m h o below =
      let r = load-IsOrdered x h o in
      load_fields-IsOrdered fs (insert k (load x h).0 m) (load x h).1 r.0 (
        DictBelow-insert (length (load x h).1) k (load x h).0 m r.1
          (DictBelow-mono (length h) (length (load x h).1) (load-Keeps x h).0 m below))

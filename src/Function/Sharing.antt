-- ===== src/Function/Sharing.antt =====
-- Which maps buildDisposableRequest of function-httptask/fn.go changes: a request body shares the values
-- that it takes from an output.
use mathop_operator.Base.{
  ℕ, zero, suc, ◌≤◌, ◌<◌, String, ◌≡◌, ◌≢◌, refl, List, [], ◌∷◌, ◌++◌, some, arith, length,
  get_elem?, set, length-append, ◌∙◌, ap, Dict, insert, Option-cases, inl, inr, lookup,
  lookup-insert_self,
}
use mathop_operator.Base.Text.{split_dots}
use mathop_operator.Json.{Json, Items, Fields, Codec}
use mathop_operator.Function.Heap.{
  Heap, Value, read, write, allocate, load, load_items, load_fields, set_json_field, set_parts,
  get_json_field, map_at, enter,
}
use mathop_operator.Function.Types.{FieldMapping, TaskSpec}
use mathop_operator.Function.Request.{Outputs, map_fields, build_disposable_request}

-- The maps of the first heap are in the second as they were.
abbrev pub Keeps : Heap → Heap → Type 0
Keeps h h' = (length h ≤ length h') × ((r : ℕ) → r < length h → get_elem? h' r ≡ get_elem? h r)

Keeps-refl : (h : Heap) → Keeps h h
Keeps-refl h = (omega arith, λ r lt. refl)

Keeps-trans : (a b c : Heap) → Keeps a b → Keeps b c → Keeps a c
Keeps-trans a b c p q = (omega (arith, p.0, q.0), λ r lt. q.1 r (omega (arith, p.0, lt)) ∙ p.1 r lt)

pub get_elem?-append_left {ℓ} :
    {A : Type ℓ} (xs ys : List A) (r : ℕ) → r < length xs → get_elem? (xs ++ ys) r ≡ get_elem? xs r
get_elem?-append_left [] ys r lt = absurd (omega (arith, lt))
get_elem?-append_left (x ∷ xs) ys zero lt = refl
get_elem?-append_left (x ∷ xs) ys (suc r) lt = get_elem?-append_left xs ys r (omega (arith, lt))

pub Keeps-append : (h : Heap) (m : Dict Value) → Keeps h (h ++ m ∷ [])
Keeps-append h m =
    (omega (arith, length-append h (m ∷ [])), λ r lt. get_elem?-append_left h (m ∷ []) r lt)

-- Decoding adds maps and changes none.
mutual
  unfolding load load_items load_fields

  pub load-Keeps : (x : Json) (h : Heap) → Keeps h (load x h).1
  load-Keeps Json.null h = Keeps-refl h
  load-Keeps (Json.bool b) h = Keeps-refl h
  load-Keeps (Json.int n) h = Keeps-refl h
  load-Keeps (Json.float m e) h = Keeps-refl h
  load-Keeps (Json.str s) h = Keeps-refl h
  load-Keeps (Json.arr xs) h = load_items-Keeps xs h
  load-Keeps (Json.obj fs) h =
      Keeps-trans h (load_fields fs [] h).1
        ((load_fields fs [] h).1 ++ (load_fields fs [] h).0 ∷ []) (load_fields-Keeps fs [] h)
        (Keeps-append (load_fields fs [] h).1 (load_fields fs [] h).0)

  pub load_items-Keeps : (xs : Items) (h : Heap) → Keeps h (load_items xs h).1
  load_items-Keeps Items.nil h = Keeps-refl h
  load_items-Keeps (Items.cons x xs) h =
      Keeps-trans h (load x h).1 (load_items xs (load x h).1).1 (load-Keeps x h)
        (load_items-Keeps xs (load x h).1)

  pub load_fields-Keeps : (fs : Fields) (m : Dict Value) (h : Heap) → Keeps h (load_fields fs m h).1
  load_fields-Keeps Fields.end m h = Keeps-refl h
  load_fields-Keeps (Fields.field k x fs) m h =
      Keeps-trans h (load x h).1 (load_fields fs (insert k (load x h).0 m) (load x h).1).1
        (load-Keeps x h) (load_fields-Keeps fs (insert k (load x h).0 m) (load x h).1)

pub get_elem?-set_other {ℓ} :
    {A : Type ℓ} (xs : List A) (i j : ℕ) (v : A) → i ≢ j → get_elem? (set xs i v) j ≡ get_elem? xs j
get_elem?-set_other [] i j v ne = refl
get_elem?-set_other (x ∷ xs) zero zero v ne = absurd (ne refl)
get_elem?-set_other (x ∷ xs) zero (suc j) v ne = refl
get_elem?-set_other (x ∷ xs) (suc i) zero v ne = refl
get_elem?-set_other (x ∷ xs) (suc i) (suc j) v ne =
    get_elem?-set_other xs i j v (λ e. ne (ap suc e))

pub length-set {ℓ} : {A : Type ℓ} (xs : List A) (i : ℕ) (v : A) → length (set xs i v) ≡ length xs
length-set [] i v = refl
length-set (x ∷ xs) zero v = refl
length-set (x ∷ xs) (suc i) v = ap suc (length-set xs i v)

-- A target of one part, without a dot.
abbrev pub IsPlain : List String → Type 0
IsPlain (p ∷ []) = Unit
IsPlain _ = ⊥

abbrev pub ArePlain : List FieldMapping → Type 0
ArePlain [] = Unit
ArePlain (m ∷ ms) = IsPlain (split_dots m.target_field) × ArePlain ms

-- A write at a plain target changes the body alone.
set_parts-plain :
    (ps : List String) (v : Value) (body r : ℕ) (h : Heap)
    → IsPlain ps
    → body ≢ r
    → get_elem? (set_parts ps v body h) r ≡ get_elem? h r
unfolding set_parts write
set_parts-plain [] v body r h plain ne = absurd plain
set_parts-plain (p ∷ []) v body r h plain ne = get_elem?-set_other h body r _ ne
set_parts-plain (p ∷ q ∷ ps) v body r h plain ne = absurd plain

module _ (codec : Codec) (name : String) (outputs : Outputs) (body r : ℕ) (ne : body ≢ r) where
  map_fields-plain :
      (ms : List FieldMapping) (h : Heap)
      → ArePlain ms
      → get_elem? (map_fields codec name outputs body ms h).1 r ≡ get_elem? h r
  unfolding map_fields set_json_field
  map_fields-plain [] h plain = refl
  map_fields-plain (m ∷ ms) h plain = elim (Option-cases (lookup m.source_task outputs)) [
    | inl absent ↦ rw (absent, map_fields) refl
    | inr (src, there) ↦ elim (Option-cases (get_json_field h src m.source_field)) [
      | inl missing ↦ rw (there, missing, map_fields) refl
      | inr (v, found) ↦
          rw (there, found, map_fields)
            (map_fields-plain ms (set_json_field body m.target_field v h) plain.1
              ∙ set_parts-plain (split_dots m.target_field) v body r h plain.0 ne)
    ]
  ]

-- A request whose mappings have targets without dots is built in a new map: every map that was there
-- before, so the output of every task, is as it was, whether the build succeeds or not.
pub build_keeps_maps :
    (codec : Codec) (task : TaskSpec) (default_headers : Dict String) (provider_config : String)
    (outputs : Outputs) (h : Heap) (r : ℕ)
    → ArePlain task.input_from
    → r < length h
    → read (build_disposable_request codec task default_headers provider_config outputs h).1 r
      ≡ read h r
unfolding build_disposable_request allocate read
build_keeps_maps codec task default_headers provider_config outputs h r plain lt =
    let (m, h₁) = load_fields task.input [] h in
    let keeps : Keeps h h₁ = load_fields-Keeps task.input [] h in
    ap map_at (
      map_fields-plain codec task.name outputs (length h₁) r (λ e. omega (arith, keeps.0, lt, e))
        task.input_from (h₁ ++ m ∷ []) plain
      ∙ (Keeps-append h₁ m).1 r (omega (arith, keeps.0, lt))
      ∙ keeps.1 r lt)

pub get_elem?-set {ℓ} :
    {A : Type ℓ} (xs : List A) (i : ℕ) (v : A) → i < length xs → get_elem? (set xs i v) i ≡ some v
get_elem?-set [] i v lt = absurd (omega (arith, lt))
get_elem?-set (x ∷ xs) zero v lt = refl
get_elem?-set (x ∷ xs) (suc i) v lt = get_elem?-set xs i v (omega (arith, lt))

-- A target of two parts whose first is a map that the body shares with an output writes into that map:
-- the output has the value too.
pub shared_map_written :
    (body r : ℕ) (path p q : String) (v : Value) (h : Heap)
    → split_dots path ≡ p ∷ q ∷ []
    → lookup p (read h body) ≡ some (Value.object r)
    → r < length h
    → lookup q (read (set_json_field body path v h) r) ≡ some v
unfolding set_json_field set_parts enter write read
shared_map_written body r path p q v h parts shared inside =
    rw (parts, set_parts, enter, shared)
      (ap (λ o. lookup q (map_at o)) (get_elem?-set h r (insert q v (read h r)) inside)
        ∙ lookup-insert_self q v (read h r))

-- ===== src/Function/Acyclic.antt =====
-- The heaps of RunFunction in function-httptask/fn.go where no mapping has a dotted target: no map comes
-- to hold itself, so that every request body and every output can be marshalled.
use mathop_operator.Base.{
  ℕ, ◌<◌, ◌≤◌, ◌≡◌, refl, some, none, Option, Option-cases, List, [], ◌∷◌, ◌++◌, Dict, length,
  arith, lookup, insert, String, eq-cases, inl, inr, length-append, subst, ◌∙◌,
}
use mathop_operator.Base.Text.{split_dots}
use mathop_operator.Base.Result.{Result, ok, err}
use mathop_operator.Json.{Codec}
use mathop_operator.Function.Heap.{
  Heap, Value, read, write, walk, get_json_field, set_json_field, set_parts, load_fields, allocate,
}
use mathop_operator.Function.Types.{FieldMapping, TaskSpec, DisposableRequest}
use mathop_operator.Function.Request.{Outputs, map_fields, request_of, build_disposable_request}
use mathop_operator.Function.Marshal.{RefsBelow, IsOrdered, unload_map_enough}
use mathop_operator.Function.Sharing.{IsPlain, ArePlain, length-set, load_fields-Keeps}
use mathop_operator.Function.Ordered.{
  DictBelow-lookup, RefsBelow-mono, IsOrdered-append, IsOrdered-write, load_fields-IsOrdered,
}

-- A response is nil, or one of the first maps.
abbrev pub ResponseBelow : ℕ → Option ℕ → Type 0
ResponseBelow n none = Unit
ResponseBelow n (some r) = r < n

abbrev pub OutputsBelow : ℕ → Outputs → Type 0
OutputsBelow n [] = Unit
OutputsBelow n ((k, o) ∷ outs) = ResponseBelow n o × OutputsBelow n outs

pub ResponseBelow-mono : (n n' : ℕ) (o : Option ℕ) → n ≤ n' → ResponseBelow n o → ResponseBelow n' o
ResponseBelow-mono n n' none le h = tt
ResponseBelow-mono n n' (some r) le h = omega (arith, le, h)

pub OutputsBelow-mono :
    (n n' : ℕ) (outs : Outputs) → n ≤ n' → OutputsBelow n outs → OutputsBelow n' outs
OutputsBelow-mono n n' [] le h = tt
OutputsBelow-mono n n' ((k, o) ∷ outs) le h =
    (ResponseBelow-mono n n' o le h.0, OutputsBelow-mono n n' outs le h.1)

pub OutputsBelow-insert :
    (n : ℕ) (k : String) (o : Option ℕ) (outs : Outputs)
    → ResponseBelow n o
    → OutputsBelow n outs
    → OutputsBelow n (insert k o outs)
unfolding insert
OutputsBelow-insert n k o [] ho h = (ho, tt)
OutputsBelow-insert n k o ((j, p) ∷ outs) ho h = elim (eq-cases j k) [
  | inl e ↦ rw e.0 (ho, h.1)
  | inr e ↦ rw e.0 (h.0, OutputsBelow-insert n k o outs ho h.1)
]

OutputsBelow-lookup :
    (n : ℕ) (k : String) (o : Option ℕ) (outs : Outputs)
    → OutputsBelow n outs
    → lookup k outs ≡ some o
    → ResponseBelow n o
unfolding lookup
OutputsBelow-lookup n k o [] h e = cc
OutputsBelow-lookup n k o ((j, p) ∷ outs) h e = elim (eq-cases j k) [
  | inl s ↦
      let there : lookup k ((j, p) ∷ outs) ≡ some p = rw s.0 refl in
      let same : p ≡ o = cc in subst (ResponseBelow n) same h.0
  | inr s ↦
      OutputsBelow-lookup n k o outs h.1
        (let later : lookup k outs ≡ lookup k ((j, p) ∷ outs) = rw s.0 refl in later ∙ e)
]

-- What a path finds in an old map holds old maps.
walk-RefsBelow :
    (n : ℕ) (h : Heap)
    → IsOrdered h
    → (ps : List String) (cur v : Value) → RefsBelow n cur
    → walk h ps cur ≡ some v
    → RefsBelow n v
unfolding walk
walk-RefsBelow n h o [] cur v below e = let same : cur ≡ v = cc in subst (RefsBelow n) same below
walk-RefsBelow n h o (p ∷ ps) (Value.object r) v below e =
    elim (Option-cases (lookup p (read h r))) [
      | inl absent ↦
          let nothing : walk h (p ∷ ps) (Value.object r) ≡ none = rw (absent, walk) refl in cc
      | inr (w, there) ↦
          walk-RefsBelow n h o ps w v
            (RefsBelow-mono r n (omega (arith, below)) w
              (DictBelow-lookup r p w (read h r) (o r) there))
            (let next : walk h ps w ≡ walk h (p ∷ ps) (Value.object r) = rw (there, walk) refl in
              next ∙ e)
    ]
walk-RefsBelow n h o (p ∷ ps) Value.null v below e = cc
walk-RefsBelow n h o (p ∷ ps) (Value.bool b) v below e = cc
walk-RefsBelow n h o (p ∷ ps) (Value.int b) v below e = cc
walk-RefsBelow n h o (p ∷ ps) (Value.float b c) v below e = cc
walk-RefsBelow n h o (p ∷ ps) (Value.str b) v below e = cc
walk-RefsBelow n h o (p ∷ ps) (Value.slice b) v below e = cc

get_json_field-RefsBelow :
    (n : ℕ) (h : Heap) (src : Option ℕ) (path : String) (v : Value)
    → IsOrdered h
    → ResponseBelow n src
    → get_json_field h src path ≡ some v
    → RefsBelow n v
unfolding get_json_field
get_json_field-RefsBelow n h none path v o below e = cc
get_json_field-RefsBelow n h (some r) path v o below e =
    walk-RefsBelow n h o (split_dots path) (Value.object r) v below e

-- A write at a plain target keeps the heap ordered, and its size.
set_parts-IsOrdered :
    (ps : List String) (v : Value) (body : ℕ) (h : Heap)
    → IsPlain ps
    → IsOrdered h
    → RefsBelow body v
    → IsOrdered (set_parts ps v body h) × (length (set_parts ps v body h) ≡ length h)
unfolding set_parts write
set_parts-IsOrdered [] v body h plain o below = absurd plain
set_parts-IsOrdered (p ∷ []) v body h plain o below =
    (IsOrdered-write h body p v o below, length-set h body _)
set_parts-IsOrdered (p ∷ q ∷ ps) v body h plain o below = absurd plain

module _ (codec : Codec) (name : String) (outputs : Outputs) (body : ℕ)
    (old : OutputsBelow body outputs) where
  map_fields-IsOrdered :
      (ms : List FieldMapping) (h : Heap)
      → ArePlain ms
      → IsOrdered h
      → IsOrdered (map_fields codec name outputs body ms h).1
        × (length (map_fields codec name outputs body ms h).1 ≡ length h)
  unfolding map_fields set_json_field
  map_fields-IsOrdered [] h plain o = (o, refl)
  map_fields-IsOrdered (m ∷ ms) h plain o = elim (Option-cases (lookup m.source_task outputs)) [
    | inl absent ↦ rw (absent, map_fields) (o, refl)
    | inr (src, there) ↦ elim (Option-cases (get_json_field h src m.source_field)) [
      | inl missing ↦ rw (there, missing, map_fields) (o, refl)
      | inr (v, found) ↦
          let written = set_parts-IsOrdered (split_dots m.target_field) v body h plain.0 o (
            get_json_field-RefsBelow body h src m.source_field v o
              (OutputsBelow-lookup body m.source_task src outputs old there) found) in
          let rest =
            map_fields-IsOrdered ms (set_json_field body m.target_field v h) plain.1 written.0 in
          rw (there, found, map_fields) (rest.0, rest.1 ∙ written.1)
    ]
  ]

request_of-marshals :
    (codec : Codec) (task : TaskSpec) (default_headers : Dict String) (provider_config : String)
    (mapped : Result (Unit {0})) (body : ℕ) (h : Heap)
    → IsOrdered h
    → body < length h
    → mapped ≡ ok tt
    → (dr : DisposableRequest) × (request_of codec task default_headers provider_config mapped body
          h
        ≡ ok dr)
unfolding request_of
request_of-marshals codec task default_headers provider_config (err e) body h o lt done = cc
request_of-marshals codec task default_headers provider_config (ok _) body h o lt done =
    let (fs, e) = unload_map_enough h body o lt in rw (e, request_of) (_, refl)

-- The loop over the mappings of a build, with the heap that it starts from.
module _ (codec : Codec) (task : TaskSpec) (default_headers : Dict String)
    (provider_config : String) (outputs : Outputs) (h : Heap) where
  abbrev pub mapped : Result (Unit {0}) × Heap
  mapped =
      let (entries, h₁) = load_fields task.input [] h in
      map_fields codec task.name outputs (length h₁) task.input_from (h₁ ++ entries ∷ [])

  pub build-marshals :
      ArePlain task.input_from
      → IsOrdered h
      → OutputsBelow (length h) outputs
      → IsOrdered (build_disposable_request codec task default_headers provider_config outputs h).1
        × (length h
            ≤ length
                (build_disposable_request codec task default_headers provider_config outputs h).1)
        × (mapped.0 ≡ ok tt
            → (dr : DisposableRequest) × ((build_disposable_request codec task default_headers
                  provider_config outputs h).0
                ≡ ok dr))
  unfolding build_disposable_request allocate
  build-marshals plain o old =
      let (entries, h₁) = load_fields task.input [] h in
      let loaded = load_fields-IsOrdered task.input [] h o tt in
      let grown : length h ≤ length h₁ = (load_fields-Keeps task.input [] h).0 in
      let looped =
        map_fields-IsOrdered codec task.name outputs (length h₁)
          (OutputsBelow-mono (length h) (length h₁) outputs grown old) task.input_from
          (h₁ ++ entries ∷ []) plain (IsOrdered-append h₁ entries loaded.0 loaded.1) in
      let size = length-append h₁ (entries ∷ []) in
      (
        looped.0,
        omega (arith, grown, looped.1, size),
        request_of-marshals codec task default_headers provider_config mapped.0 (length h₁) mapped.1
            looped.0 (omega (arith, looped.1, size)),
      )

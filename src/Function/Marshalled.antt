-- ===== src/Function/Marshalled.antt =====
-- What the loop of RunFunction in function-httptask/fn.go keeps of its heap, and that all it marshals
-- can be marshalled.
use mathop_operator.Base.{
  ℕ, ◌≤◌, ◌≡◌, refl, some, none, Option, List, [], ◌∷◌, ◌++◌, length, arith, String, Bool-cases,
  inl, inr, subst, sym, ◌==◌, length-append, not, ◌||◌, ◌&&◌, if_ind, for_each,
}
use mathop_operator.Base.Int.{ℤ, pos, to_int32, eqb_ℤ, ltb_ℤ, leb_ℤ}
use mathop_operator.Base.Result.{Result, ok}
use mathop_operator.Json.{Json, Items, Fields, Codec}
use mathop_operator.Function.Heap.{Heap, allocate, load_fields, read}
use mathop_operator.Function.Types.{TaskSpec, TaskStatus, DisposableRequest, ObservedResource}
use mathop_operator.Function.Observed.{
  bare_status, status_of_body, task_status_from_observed, read_error, read_code, read_body,
  read_synced, is_unsynced,
}
use mathop_operator.Function.Loop.{LoopState, Setting, start, build, settle, visit, visit_all}
use mathop_operator.Function.Report.{status_json, statuses_json, output_tree}
use mathop_operator.Function.Outcome.{Outcome, visit-Outcome}
use mathop_operator.Function.Marshal.{IsOrdered, unload_map_enough}
use mathop_operator.Function.Sharing.{ArePlain, load_fields-Keeps}
use mathop_operator.Function.Ordered.{IsOrdered-append, load_fields-IsOrdered}
use mathop_operator.Function.Acyclic.{
  ResponseBelow, OutputsBelow, ResponseBelow-mono, OutputsBelow-mono, OutputsBelow-insert, mapped,
  build-marshals,
}

-- The outputs of the statuses are among the first maps.
abbrev pub StatusesBelow : ℕ → List TaskStatus → Type 0
StatusesBelow n [] = Unit
StatusesBelow n (st ∷ sts) = ResponseBelow n st.output × StatusesBelow n sts

StatusesBelow-append :
    (n n' : ℕ) (st : TaskStatus) (sts : List TaskStatus)
    → n ≤ n'
    → ResponseBelow n' st.output
    → StatusesBelow n sts
    → StatusesBelow n' (sts ++ st ∷ [])
StatusesBelow-append n n' st [] le h hs = (h, tt)
StatusesBelow-append n n' st (t ∷ sts) le h hs =
    (ResponseBelow-mono n n' t.output le hs.0, StatusesBelow-append n n' st sts le h hs.1)

-- The heap is ordered, and every output is one of its maps.
pub record Sound (s : LoopState) : Type 0 where
  pub ordered : IsOrdered s.heap
  pub outputs : OutputsBelow (length s.heap) s.outputs
  pub statuses : StatusesBelow (length s.heap) s.statuses

-- What a heap with more maps must be for a status that was read on it.
record Read (h : Heap) (r : TaskStatus × Heap) : Type 0 where
  ordered : IsOrdered r.1
  grown : length h ≤ length r.1
  below : ResponseBelow (length r.1) r.0.output

unread : (st : TaskStatus) (h : Heap) → IsOrdered h → st.output ≡ none → Read h (st, h)
unread st h o e = record {
  ordered = o;
  grown = omega arith;
  below = subst (ResponseBelow (length h)) (sym e) tt;
}

status_of_body-Read :
    (name : String) (c : ℤ) (tree : Option Json) (h : Heap)
    → IsOrdered h
    → Read h (status_of_body name c tree h)
unfolding status_of_body allocate
status_of_body-Read name c none h o = unread _ h o refl
status_of_body-Read name c (some (Json.obj fields)) h o =
    let (entries, h₁) = load_fields fields [] h in
    let loaded = load_fields-IsOrdered fields [] h o tt in
    let size = length-append h₁ (entries ∷ []) in
    record {
      ordered = IsOrdered-append h₁ entries loaded.0 loaded.1;
      grown = omega (arith, (load_fields-Keeps fields [] h).0, size);
      below = omega (arith, size);
    }
status_of_body-Read name c (some Json.null) h o = unread _ h o refl
status_of_body-Read name c (some (Json.arr _)) h o = unread _ h o refl
status_of_body-Read name c (some (Json.bool _)) h o = unread _ h o refl
status_of_body-Read name c (some (Json.int _)) h o = unread _ h o refl
status_of_body-Read name c (some (Json.float _ _)) h o = unread _ h o refl
status_of_body-Read name c (some (Json.str _)) h o = unread _ h o refl

task_status_from_observed-Read :
    (codec : Codec) (name : String) (res : ObservedResource) (h : Heap)
    → IsOrdered h
    → Read h (task_status_from_observed codec name res h)
unfolding task_status_from_observed
task_status_from_observed-Read codec name res h o = elim (Bool-cases (not (read_error res == ""))) [
  | inl e ↦ rw (e, task_status_from_observed) (unread _ h o refl)
  | inr e ↦ elim (Bool-cases (eqb_ℤ (read_code res) (pos 0) && (read_body res == ""))) [
    | inl f ↦ rw (e, f, task_status_from_observed) (unread _ h o refl)
    | inr f ↦
        elim (Bool-cases (ltb_ℤ (read_code res) (pos 200) || leb_ℤ (pos 300) (read_code res))) [
          | inl g ↦ rw (e, f, g, task_status_from_observed) (unread _ h o refl)
          | inr g ↦ elim (Bool-cases (is_unsynced (read_synced res))) [
            | inl u ↦ rw (e, f, g, u, task_status_from_observed) (unread _ h o refl)
            | inr u ↦
                rw (e, f, g, u, task_status_from_observed)
                  (status_of_body-Read name (to_int32 (read_code res))
                    (codec.decode (read_body res)) h o)
          ]
        ]
  ]
]

-- A status that is added on a heap with more maps keeps the state sound.
Sound-reported :
    (s s' : LoopState) (st : TaskStatus)
    → Sound s
    → length s.heap ≤ length s'.heap
    → IsOrdered s'.heap
    → OutputsBelow (length s'.heap) s'.outputs
    → ResponseBelow (length s'.heap) st.output
    → s'.statuses ≡ s.statuses ++ st ∷ []
    → Sound s'
Sound-reported s s' st sound le o outs below e = record {
  ordered = o;
  outputs = outs;
  statuses =
      subst (StatusesBelow (length s'.heap)) (sym e) (
        StatusesBelow-append (length s.heap) (length s'.heap) st s.statuses le below
          sound.statuses);
}

OutputsBelow-settle :
    (n : ℕ) (task : TaskSpec) (st : TaskStatus) (s : LoopState)
    → ResponseBelow n st.output
    → OutputsBelow n s.outputs
    → OutputsBelow n (settle task st s).outputs
unfolding settle
OutputsBelow-settle n task st s below outs =
    if_ind (OutputsBelow n) (st.phase == "Succeeded")
      (λ _. OutputsBelow-insert n task.name st.output s.outputs below outs) (λ _. outs)

module _ (w : Setting) (task : TaskSpec) (plain : ArePlain task.input_from) (s : LoopState)
    (sound : Sound s) where
  built :
      IsOrdered (build w task s).1
      × (length s.heap ≤ length (build w task s).1)
      × ((mapped w.codec task w.default_headers w.provider_config s.outputs s.heap).0 ≡ ok tt
          → (dr : DisposableRequest) × ((build w task s).0 ≡ ok dr))
  built =
      build-marshals w.codec task w.default_headers w.provider_config s.outputs s.heap plain
        sound.ordered sound.outputs

  built_outputs : OutputsBelow (length (build w task s).1) s.outputs
  built_outputs =
      OutputsBelow-mono (length s.heap) (length (build w task s).1) s.outputs built.1 sound.outputs

  step_Sound : (s' : LoopState) → Outcome w task s s' → Sound s'
  unfolding settle
  step_Sound s' (Outcome.skips _ e) = rw e (
      Sound-reported s _ (bare_status task.name "Skipped") sound (omega arith) sound.ordered
        sound.outputs tt refl)
  step_Sound s' (Outcome.waits _ _ _ e) = rw e (
      Sound-reported s _ (bare_status task.name "Pending") sound (omega arith) sound.ordered
        sound.outputs tt refl)
  step_Sound s' (Outcome.fails m _ _ e) = rw e (
      Sound-reported s _ (record (bare_status task.name "Failed") { error = m }) sound built.1
        built.0 built_outputs tt refl)
  step_Sound s' (Outcome.creates dr _ _ _ _ e) = rw e (
      Sound-reported s _ (bare_status task.name "Pending") sound built.1 built.0 built_outputs tt
        refl)
  step_Sound s' (Outcome.refreshes dr obs st h _ _ _ found left e) =
      let r = task_status_from_observed w.codec task.name obs (build w task s).1 in
      let read : Read (build w task s).1 r =
        task_status_from_observed-Read w.codec task.name obs (build w task s).1 built.0 in
      rw (e, found, left)
        (Sound-reported s _ r.0 sound (omega (arith, built.1, read.grown)) read.ordered
          (OutputsBelow-settle (length r.1) task r.0 s read.below (
            OutputsBelow-mono (length (build w task s).1) (length r.1) s.outputs read.grown
              built_outputs))
          read.below refl)

-- No mapping of the tasks has a dotted target.
abbrev pub AllPlain : List TaskSpec → Type 0
AllPlain [] = Unit
AllPlain (t ∷ ts) = ArePlain t.input_from × AllPlain ts

visits-Sound :
    (w : Setting) (tasks : List TaskSpec) (s : LoopState)
    → AllPlain tasks
    → Sound s
    → Sound (for_each (visit w) tasks s)
visits-Sound w [] s plain sound = sound
visits-Sound w (t ∷ ts) s plain sound =
    visits-Sound w ts (visit w t s) plain.1
      (step_Sound w t plain.0 s sound (visit w t s) (visit-Outcome w t s))

visit_all-Sound : (w : Setting) (tasks : List TaskSpec) → AllPlain tasks → Sound (visit_all w tasks)
unfolding visit_all read
visit_all-Sound w tasks plain =
    visits-Sound w tasks start plain (record { ordered = λ r. tt; outputs = tt; statuses = tt })

output_tree-some :
    (h : Heap) (o : Option ℕ)
    → IsOrdered h
    → ResponseBelow (length h) o
    → (fs : Fields) × (output_tree h o ≡ some fs)
output_tree-some h none ordered below = (Fields.end, refl)
output_tree-some h (some r) ordered below = unload_map_enough h r ordered below

statuses_json-some :
    (h : Heap) (sts : List TaskStatus)
    → IsOrdered h
    → StatusesBelow (length h) sts
    → (xs : Items) × (statuses_json h sts ≡ some xs)
unfolding statuses_json status_json
statuses_json-some h [] ordered below = (Items.nil, refl)
statuses_json-some h (st ∷ sts) ordered below =
    let (fs, e) = output_tree-some h st.output ordered below.0 in
    let (xs, e') = statuses_json-some h sts ordered below.1 in
    rw (e, e', statuses_json, status_json) (_, refl)

-- The loop over the mappings of a build for one task more.
abbrev pub mapped_after : Setting → LoopState → TaskSpec → Result (Unit {0})
mapped_after w s task = (mapped w.codec task w.default_headers w.provider_config s.outputs s.heap).0

-- Where no mapping of the tasks has a dotted target, no map comes to hold itself: after the loop over
-- any tasks the statuses can be marshalled, and the build for one task more, whose mapped fields are all
-- there, gives its request, since its body can be marshalled.
pub visit_all-marshals :
    (w : Setting) (tasks : List TaskSpec) (task : TaskSpec)
    → AllPlain tasks
    → ArePlain task.input_from
    → mapped_after w (visit_all w tasks) task ≡ ok tt
    → ((xs : Items) × (statuses_json (visit_all w tasks).heap (visit_all w tasks).statuses
          ≡ some xs))
      × ((dr : DisposableRequest) × ((build w task (visit_all w tasks)).0 ≡ ok dr))
visit_all-marshals w tasks task plain plain' there =
    let sound = visit_all-Sound w tasks plain in
    (
      statuses_json-some _ _ sound.ordered sound.statuses,
      (built w task plain' (visit_all w tasks) sound).2 there,
    )

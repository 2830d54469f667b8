-- ===== src/Controller/Merge/Inputs.antt =====
-- What the loop of HTTPTaskReconciler.Reconcile over spec.inputFrom puts into the request body.
use mathop_operator.Base.{
  ◌≡◌, none, some, Option, [], ◌∷◌, List, String, inl, inr, refl, ◌≢◌, eq-cases, subst, sym, ◌∙◌,
  eq-false, ◌↔◌,
}
use mathop_operator.Json.{Codec, Json, Fields}
use mathop_operator.Json.Paths.{get_json_field, set_json_field}
use mathop_operator.Controller.Platform.{Fetch, found, not_found, failed, Trace, Environment}
use mathop_operator.Api.{HttpTask, FieldMapping}
use mathop_operator.Controller.Merge.{
  Body, Merged, merged, fails, waits, panics, merge_value, merge_one, merge_inputs, unmarshal_map,
  put_value,
}

-- The value that a mapping takes from its source: the source is there, its output is not empty and
-- decodes to a map, and the field is in it.
abbrev pub Gives : Codec → Fetch HttpTask → FieldMapping → Json → Type 0
Gives codec (found source) m v =
    (source.status.output ≢ "")
    × ((output : Fields) × (unmarshal_map codec source.status.output ≡ some (some output))
        × (get_json_field output m.source_field ≡ some v))
Gives codec _ m v = ⊥

module _ (codec : Codec) (env : Environment HttpTask) where
  abbrev pub source_of : String → Trace HttpTask → FieldMapping → Fetch HttpTask
  source_of namespace tr m = env.get tr (record { namespace = namespace; name = m.source_ref.name })

  -- A body that has one mapping's value more.
  abbrev pub Adds : Fetch HttpTask → FieldMapping → Body → Body → Type 0
  Adds f m before after =
      (b : Fields) × (v : Json) × (before ≡ some b)
      × Gives codec f m v
      × (after ≡ some (set_json_field b m.target_field v))

  abbrev OnMerged : (Body → Type 0) → Merged → Type 0
  OnMerged P (merged after) = P after
  OnMerged P _ = Unit

  put_value-merged :
      (m : FieldMapping) (o : Option Json) (body : Body)
      → OnMerged
          (λ after.
            (b : Fields) × (v : Json) × (body ≡ some b)
            × (o ≡ some v)
            × (after ≡ some (set_json_field b m.target_field v)))
          (put_value codec env m o body)
  unfolding put_value
  put_value-merged m none body = tt
  put_value-merged m (some v) none = tt
  put_value-merged m (some v) (some b) = (b, v, refl, refl, refl)

  OnMerged-map :
      {P Q : Body → Type 0}
      → ((after : Body) → P after → Q after)
      → (r : Merged) → OnMerged P r
      → OnMerged Q r
  OnMerged-map f (merged after) h = f after h
  OnMerged-map f (fails a b) h = tt
  OnMerged-map f (waits a b) h = tt
  OnMerged-map f panics h = tt

  merge_value-Adds :
      (source : HttpTask) (m : FieldMapping) (o : Option Body) (body : Body)
      → source.status.output ≢ ""
      → unmarshal_map codec source.status.output ≡ o
      → OnMerged (Adds (found source) m body) (merge_value codec env m source.status.output o body)
  unfolding merge_value
  merge_value-Adds source m none body ne e = tt
  merge_value-Adds source m (some none) body ne e = unfold put_value in tt
  merge_value-Adds source m (some (some output)) body ne e =
      OnMerged-map (λ after h. let (b, v, p, q, r) = h in (b, v, p, (ne, (output, e, q)), r))
        (put_value codec env m (get_json_field output m.source_field) body)
        (put_value-merged m (get_json_field output m.source_field) body)

  merge_one-Adds :
      (f : Fetch HttpTask) (m : FieldMapping) (body : Body)
      → OnMerged (Adds f m body) (merge_one codec env m f body)
  unfolding merge_one
  merge_one-Adds not_found m body = tt
  merge_one-Adds (failed e) m body = tt
  merge_one-Adds (found source) m body = elim (eq-cases source.status.output "") [
    | inl (e, _) ↦ rw (e, OnMerged) tt
    | inr (e, ne) ↦
        subst (OnMerged (Adds (found source) m body)) (sym (rw e refl))
          (merge_value-Adds source m (unmarshal_map codec source.status.output) body ne refl)
  ]

  -- The bodies that the loop goes through, one mapping after the other.
  abbrev pub Chain : String → Trace HttpTask → List FieldMapping → Body → Body → Type 0
  Chain namespace tr [] before after = after ≡ before
  Chain namespace tr (m ∷ ms) before after =
      (mid : Body) × Adds (source_of namespace tr m) m before mid × Chain namespace tr ms mid after

  -- The rest of the loop after one round.
  next_round : String → Trace HttpTask → List FieldMapping → Merged → Merged
  next_round namespace tr ms (merged body) = merge_inputs codec env namespace tr ms body
  next_round namespace tr ms (fails reason msg) = fails reason msg
  next_round namespace tr ms (waits reason msg) = waits reason msg
  next_round namespace tr ms panics = panics

  merge_inputs-next_round :
      (namespace : String) (tr : Trace HttpTask) (m : FieldMapping) (ms : List FieldMapping)
      (before : Body) (r : Merged)
      → merge_one codec env m (source_of namespace tr m) before ≡ r
      → merge_inputs codec env namespace tr (m ∷ ms) before ≡ next_round namespace tr ms r
  unfolding merge_inputs next_round
  merge_inputs-next_round namespace tr m ms before (merged b) e = rw (merge_inputs, e) refl
  merge_inputs-next_round namespace tr m ms before (fails a b) e = rw (merge_inputs, e) refl
  merge_inputs-next_round namespace tr m ms before (waits a b) e = rw (merge_inputs, e) refl
  merge_inputs-next_round namespace tr m ms before panics e = rw (merge_inputs, e) refl

  Chain-step :
      (namespace : String) (tr : Trace HttpTask) (m : FieldMapping) (ms : List FieldMapping)
      (before : Body) (r : Merged)
      → merge_one codec env m (source_of namespace tr m) before ≡ r
      → OnMerged (Adds (source_of namespace tr m) m before) r
      → ((mid : Body)
          → OnMerged (Chain namespace tr ms mid) (merge_inputs codec env namespace tr ms mid))
      → OnMerged
          (Chain namespace tr (m ∷ ms) before)
          (merge_inputs codec env namespace tr (m ∷ ms) before)
  unfolding next_round
  Chain-step namespace tr m ms before r e adds rest =
      subst (OnMerged (Chain namespace tr (m ∷ ms) before))
        (sym (merge_inputs-next_round namespace tr m ms before r e)) (go r adds)
    where
      go :
          (r : Merged)
          → OnMerged (Adds (source_of namespace tr m) m before) r
          → OnMerged (Chain namespace tr (m ∷ ms) before) (next_round namespace tr ms r)
      go (merged mid) adds =
          OnMerged-map (λ after h. (mid, adds, h)) (merge_inputs codec env namespace tr ms mid)
            (rest mid)
      go (fails a b) adds = tt
      go (waits a b) adds = tt
      go panics adds = tt

  merge_inputs-Chain :
      (namespace : String) (tr : Trace HttpTask) (ms : List FieldMapping) (before : Body)
      → OnMerged (Chain namespace tr ms before) (merge_inputs codec env namespace tr ms before)
  merge_inputs-Chain namespace tr [] before = unfold merge_inputs in refl
  merge_inputs-Chain namespace tr (m ∷ ms) before =
      Chain-step namespace tr m ms before _ refl (merge_one-Adds _ m before)
        (λ mid. merge_inputs-Chain namespace tr ms mid)

  Adds-merge_one :
      (f : Fetch HttpTask) (m : FieldMapping) (before after : Body)
      → Adds f m before after
      → merge_one codec env m f before ≡ merged after
  unfolding merge_one merge_value put_value
  Adds-merge_one not_found m before after (b, v, p, g, q) = absurd g
  Adds-merge_one (failed e) m before after (b, v, p, g, q) = absurd g
  Adds-merge_one (found source) m before after (b, v, p, (ne, (output, decoded, field)), q) =
      rw (eq-false source.status.output "" ne, decoded, merge_value, field, p, put_value, q) refl

  Chain-merge_inputs :
      (namespace : String) (tr : Trace HttpTask) (ms : List FieldMapping) (before after : Body)
      → Chain namespace tr ms before after
      → merge_inputs codec env namespace tr ms before ≡ merged after
  unfolding next_round
  Chain-merge_inputs namespace tr [] before after e = unfold merge_inputs in rw e refl
  Chain-merge_inputs namespace tr (m ∷ ms) before after (mid, adds, rest) =
      merge_inputs-next_round namespace tr m ms before (merged mid)
        (Adds-merge_one _ m before mid adds)
      ∙ Chain-merge_inputs namespace tr ms mid after rest

  -- The loop gives a body exactly if each mapping in turn finds its source with an output that decodes to
  -- a map and has the field, and the body is the one with these values at their targets, in order.
  pub merge_inputs_iff :
      (namespace : String) (tr : Trace HttpTask) (ms : List FieldMapping) (before after : Body)
      → (merge_inputs codec env namespace tr ms before ≡ merged after)
        ↔ Chain namespace tr ms before after
  merge_inputs_iff namespace tr ms before after = (
    (λ h.
        subst (OnMerged (Chain namespace tr ms before)) h
          (merge_inputs-Chain namespace tr ms before)),
    Chain-merge_inputs namespace tr ms before after,
  )

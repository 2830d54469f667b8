-- ===== src/Controller/Merge/Targets.antt =====
-- What of spec.inputFrom can be read in the body that HTTPTaskReconciler.Reconcile sends.
use mathop_operator.Base.{◌≡◌, some, [], ◌∷◌, List, String, refl, subst, sym, ◌∙◌, ◌++◌, ap}
use mathop_operator.Base.Text.{split_dots}
use mathop_operator.Json.{Codec, Json, Fields}
use mathop_operator.Json.Paths.{
  get_json_field, set_json_field, Apart, get_json_field-set_json_field,
  get_json_field-set_json_field-Apart,
}
use mathop_operator.Controller.Platform.{Trace, Environment}
use mathop_operator.Api.{HttpTask, FieldMapping}
use mathop_operator.Controller.Merge.{Body, merged, merge_inputs}
use mathop_operator.Controller.Merge.Inputs.{Gives, Chain, merge_inputs_iff, source_of}

module _ (codec : Codec) (env : Environment HttpTask) where
  -- A mapping whose target parts from those of the mappings after it.
  abbrev pub IsLastAt : FieldMapping → List FieldMapping → Type 0
  IsLastAt m [] = Unit
  IsLastAt m (m' ∷ ms) =
      Apart (split_dots m'.target_field) (split_dots m.target_field) × IsLastAt m ms

  Chain-keeps :
      (namespace : String) (tr : Trace HttpTask) (m : FieldMapping) (ms : List FieldMapping)
      (before : Fields) (after : Body)
      → IsLastAt m ms
      → Chain codec env namespace tr ms (some before) after
      → (b : Fields) × (after ≡ some b)
        × (get_json_field b m.target_field ≡ get_json_field before m.target_field)
  Chain-keeps namespace tr m [] before after last h = (before, h, refl)
  Chain-keeps namespace tr m (m' ∷ ms) before after last (mid, (b, v, p, g, q), rest) =
      let (c, e, same) =
        Chain-keeps namespace tr m ms (set_json_field b m'.target_field v) after last.1
          (subst (λ x. Chain codec env namespace tr ms x after) q rest) in
      (
        c,
        e,
        same
            ∙ get_json_field-set_json_field-Apart b m'.target_field m.target_field v last.0
            ∙ ap (λ x. get_json_field x m.target_field) (some_inj b before (sym p)),
      )
    where
      some_inj : (x y : Fields) → some x ≡ some y → x ≡ y
      some_inj x y e = cc e

  Chain-holds :
      (namespace : String) (tr : Trace HttpTask) (earlier later : List FieldMapping)
      (m : FieldMapping) (before after : Body)
      → IsLastAt m later
      → Chain codec env namespace tr (earlier ++ m ∷ later) before after
      → (b : Fields) × (v : Json) × (after ≡ some b)
        × Gives codec (source_of codec env namespace tr m) m v
        × (get_json_field b m.target_field ≡ some v)
  Chain-holds namespace tr [] later m before after last (mid, (b, v, p, g, q), rest) =
      let (c, e, same) =
        Chain-keeps namespace tr m later (set_json_field b m.target_field v) after last
          (subst (λ x. Chain codec env namespace tr later x after) q rest) in
      (c, v, e, g, same ∙ get_json_field-set_json_field b m.target_field v)
  Chain-holds namespace tr (m' ∷ earlier) later m before after last (mid, adds, rest) =
      Chain-holds namespace tr earlier later m mid after last rest

  -- When the loop gives a body, every mapping whose target parts from the later ones finds its source
  -- with an output that decodes to a map, and the body has the source's field at the target.
  pub mapped_value_stands :
      (namespace : String) (tr : Trace HttpTask) (earlier later : List FieldMapping)
      (m : FieldMapping) (before after : Body)
      → merge_inputs codec env namespace tr (earlier ++ m ∷ later) before ≡ merged after
      → IsLastAt m later
      → (b : Fields) × (v : Json) × (after ≡ some b)
        × Gives codec (env.get tr (record { namespace = namespace; name = m.source_ref.name })) m v
        × (get_json_field b m.target_field ≡ some v)
  mapped_value_stands namespace tr earlier later m before after h last =
      Chain-holds namespace tr earlier later m before after last
        ((merge_inputs_iff codec env namespace tr (earlier ++ m ∷ later) before after).0 h)

-- ===== src/Controller/Operands/Protection.antt =====
-- Which Squares keep an Add or a Subtract from going away, by the objects of the store: referencedBySquare
-- of internal/controller/refcheck.go over the index of square_controller.go.
use mathop_operator.Base.{
  String, List, [], ◌∷◌, ◌≡◌, ◌≢◌, ◌↔◌, ◌⊎◌, inl, inr, refl, true, eq-cases, contains,
}
use mathlib.Core.List.{Memᴰ}
use mathlib.Core.List.Memᴰ
use mathop_operator.Base.Result.{ok}
use mathop_operator.Api.{Operands, Square, scheme_group_version}
use mathop_operator.Controller.Platform.{NamespacedName, found, updated, Trace, Helpers}
use mathop_operator.Controller.Index.{source_ref_index_value, index_value_of}
use mathop_operator.Controller.Index.Listing.{Lists}
use mathop_operator.Controller.Square.{square_index_values}
use mathop_operator.Controller.Operands.{Server, Operation, in_use_finalizer, reconcile}
use mathop_operator.Controller.Operands.Deletion.{squares, released, released_iff_no_square}

-- The Square names a source, and it is the one of the index key.
abbrev pub Squares : String → Square → Type 0
Squares key sq = (sq.source_ref.name ≢ "") × (index_value_of sq.source_ref ≡ key)

indexed_iff :
    (key : String) (sq : Square) → (contains key (square_index_values sq) ≡ true) ↔ Squares key sq
unfolding square_index_values
indexed_iff key sq = elim (eq-cases sq.source_ref.name "") [
  | inl e ↦ rw e.0 ((λ h. cc), (λ h. absurd (h.0 e.1)))
  | inr e ↦ rw e.0 (elim (eq-cases (index_value_of sq.source_ref) key) [
    | inl k ↦ rw k.0 ((λ h. (e.1, k.1)), (λ h. refl))
    | inr k ↦ rw k.0 ((λ h. cc), (λ h. absurd (k.1 h.1)))
  ])
]

module _ (lib : Helpers) (server : Server) (op : Operation) (key : NamespacedName)
    (tr : Trace Operands) (obj : Operands) (read : server.get tr key ≡ found obj)
    (deleting : obj.meta.deleting ≡ true)
    (protected : lib.contains_finalizer obj.meta.finalizers in_use_finalizer ≡ true)
    (store : List Square)
    (lists : Lists
      (λ sq. Memᴰ sq store × (sq.meta.namespace ≡ obj.meta.namespace))
      square_index_values
      (server.list_squares tr obj.meta.namespace)) where
  abbrev pub source_key : String
  source_key = source_ref_index_value scheme_group_version op.kind obj.meta.name

  -- Where the list of the Squares is answered, a protected Add or Subtract under deletion is let go, by
  -- the removal of its finalizer, exactly if no Square of its namespace in the store has it as its
  -- source; while one does, nothing is written.
  pub protected_while_squared :
      (items : List Square)
      → squares lib server op key tr obj read deleting protected ≡ ok items
      → (((sq : Square)
            → Memᴰ sq store
            → sq.meta.namespace ≡ obj.meta.namespace
            → ¬ Squares source_key sq)
          × ((reconcile lib server op key tr).1
              ≡ updated (released lib server op key tr obj read deleting protected) ∷ tr))
        ⊎ (((sq : Square) × Memᴰ sq store
              × (sq.meta.namespace ≡ obj.meta.namespace)
              × Squares source_key sq)
            × ((reconcile lib server op key tr).1 ≡ tr))
  protected_while_squared [] answered =
      elim (released_iff_no_square lib server op key tr obj read deleting protected) [
        | inl r ↦ inl (
          (λ sq stored same refers. Memᴰ.not-nil (
              lists.complete source_key [] answered sq (stored, same)
                ((indexed_iff source_key sq).1 refers))),
          r.1,
        )
        | inr r ↦ absurd (r.0 answered)
      ]
  protected_while_squared (sq ∷ rest) answered =
      let at = lists.sound source_key (sq ∷ rest) answered sq (Memᴰ.head refl) in
      elim (released_iff_no_square lib server op key tr obj read deleting protected) [
        | inl r ↦ let nothing = r.0 in cc
        | inr r ↦ inr ((sq, at.0.0, at.0.1, (indexed_iff source_key sq).0 at.1), r.1)
      ]

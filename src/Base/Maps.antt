-- ===== src/Base/Maps.antt =====
-- Go's maps with string keys, as association lists. `insert` is `m[k] = v`, `lookup` is `v, ok := m[k]`.
-- The order of a range over a map is unspecified in Go; here it is the order of insertion.
use Prim.Native.String.{String}
use mathlib.Core.Path.{◌≡◌, refl}
use mathlib.Core.Bool.{Bool, true, false}
use mathlib.Core.Option.{Option, none, some}
use mathlib.Core.List.{List, [], ◌∷◌}
use native.Mathlib.Omega.{arith}
use text.Mathlib.Text.{◌==◌}
use text.Mathlib.TextEquality.{eq_iff}
use text.Mathlib.TextPositions.{eq_refl}
use mathop_operator.Base.Tests.{if◌then◌else◌}

abbrev pub Dict {ℓ} : Type ℓ → Type ℓ
Dict V = List (String × V)

module _ {ℓ} {V : Type ℓ} where
  unfoldable pub lookup : String → Dict V → Option V
  lookup k [] = none
  lookup k ((j, v) ∷ m) = if j == k then some v else lookup k m

  unfoldable pub insert : String → V → Dict V → Dict V
  insert k v [] = (k, v) ∷ []
  insert k v ((j, w) ∷ m) = if j == k then (k, v) ∷ m else (j, w) ∷ insert k v m

  abbrev present : Option V → Bool
  present none = false
  present (some v) = true

  -- `_, ok := m[k]`
  unfoldable pub has_key : String → Dict V → Bool
  has_key k m = present (lookup k m)

  -- A read after a write of the key `at`.
  pub lookup-insert :
      (at asked : String) (new : V) (entries : Dict V)
      → lookup asked (insert at new entries)
        ≡ (if at == asked then some new else lookup asked entries)
  unfolding insert lookup
  lookup-insert at asked new [] = refl
  lookup-insert at asked new ((key, old) ∷ entries) =
      let rest = lookup-insert at asked new entries in
      ground (arith, rest, eq_iff key at, eq_iff key asked, eq_iff at asked)

  pub lookup-insert_self : (k : String) (v : V) (m : Dict V) → lookup k (insert k v m) ≡ some v
  lookup-insert_self k v m = simp (lookup-insert, eq_refl)

  pub lookup-nil : (k : String) → lookup k [] ≡ none
  unfolding lookup
  lookup-nil k = refl

  pub has_key-insert :
      (k j : String) (v : V) (m : Dict V)
      → has_key j (insert k v m) ≡ (if k == j then true else has_key j m)
  unfolding has_key
  has_key-insert k j v m = rw lookup-insert (ground arith)

  pub has_key-lookup : (k : String) (m : Dict V) {v : V} → lookup k m ≡ some v → has_key k m ≡ true
  unfolding has_key
  has_key-lookup k m h = rw h

pub ruleset dict_laws = (lookup-insert, has_key-insert, eq_refl)

-- ===== src/Controller/Transfer/Watches.antt =====
-- What DynamicWatcher.Ensure leaves behind.
use mathop_operator.Base.{
  ◌≡◌, none, some, Option, [], ◌∷◌, String, true, Bool-cases, subst, eq_refl, inl, refl, inr, false,
  List, ◌++◌, ap,
}
use mathop_operator.Controller.Transfer.{
  GroupVersionKind, Cluster, Seen, gvk_eq, is_seen, ensure, after_watch, after_mapping,
}

gvk_eq_refl : (g : GroupVersionKind) → gvk_eq g g ≡ true
gvk_eq_refl g = rw (eq_refl g.group, eq_refl g.version, eq_refl g.kind) refl

is_seen_self : (gvk : GroupVersionKind) (seen : Seen) → is_seen gvk (gvk ∷ seen) ≡ true
unfolding is_seen
is_seen_self gvk seen = rw (gvk_eq_refl gvk) refl

-- What a call leaves: the kind is seen after a success, and an error leaves what was seen.
abbrev pub Leaves : GroupVersionKind → Seen → Option String → Seen → Type 0
Leaves gvk seen none after = is_seen gvk after ≡ true
Leaves gvk seen (some e) after = after ≡ seen

module _ (c : Cluster) where
  after_watch-Leaves :
      (gvk : GroupVersionKind) (seen : Seen) (o : Option String)
      → Leaves gvk seen (after_watch c gvk seen o).0 (after_watch c gvk seen o).1
  unfolding after_watch
  after_watch-Leaves gvk seen (some e) = refl
  after_watch-Leaves gvk seen none = is_seen_self gvk seen

  after_mapping-Leaves :
      (gvk : GroupVersionKind) (seen : Seen) (o : Option String)
      → Leaves gvk seen (after_mapping c gvk seen o).0 (after_mapping c gvk seen o).1
  unfolding after_mapping
  after_mapping-Leaves gvk seen (some e) = refl
  after_mapping-Leaves gvk seen none = after_watch-Leaves gvk seen (c.watch gvk)

  -- After a call of Ensure without an error the kind is taken for watched; after a call with an error
  -- nothing more is taken for watched than before, so that the next call tries again.
  pub ensure-Leaves :
      (gvk : GroupVersionKind) (seen : Seen)
      → Leaves gvk seen (ensure c gvk seen).0 (ensure c gvk seen).1
  unfolding ensure
  ensure-Leaves gvk seen = elim (Bool-cases (is_seen gvk seen)) [
    | inl e ↦ rw e e
    | inr e ↦ rw e (after_mapping-Leaves gvk seen (c.rest_mapping gvk))
  ]

  -- After a call of Ensure without an error, a second one asks for no watch and changes nothing.
  pub ensure_again :
      (gvk : GroupVersionKind) (seen : Seen)
      → (ensure c gvk seen).0 ≡ none
      → ensure c gvk (ensure c gvk seen).1 ≡ (none, (ensure c gvk seen).1, [])
  ensure_again gvk seen e =
      let seen' = (ensure c gvk seen).1 in
      let there = subst (λ o. Leaves gvk seen o seen') e (ensure-Leaves gvk seen) in
      unfold ensure in rw there refl

-- No kind stands twice in the list.
abbrev pub DistinctKinds : Seen → Type 0
DistinctKinds [] = Unit
DistinctKinds (g ∷ gs) = (is_seen g gs ≡ false) × DistinctKinds gs

-- The watches of a call that were accepted.
abbrev accepted : Option String → List GroupVersionKind → List GroupVersionKind
accepted none asked = asked
accepted (some e) asked = []

-- Calls of Ensure one after the other, as the mutex orders them, each with the cluster as it is then:
-- the kinds seen, and the watches that were accepted, the last one first.
abbrev pub after_calls :
    List (Cluster × GroupVersionKind) → Seen × List GroupVersionKind → Seen × List GroupVersionKind
after_calls [] r = r
after_calls ((c, gvk) ∷ calls) (seen, watches) =
    let (e, seen', asked) = ensure c gvk seen in
    after_calls calls (seen', accepted e asked ++ watches)

-- The watches that are there are the kinds seen, each once.
abbrev OnePerKind : Seen × List GroupVersionKind → Type 0
OnePerKind (seen, watches) = (watches ≡ seen) × DistinctKinds seen

-- What a call leaves of a sound watcher.
abbrev Left : List GroupVersionKind → Option String × Seen × List GroupVersionKind → Type 0
Left watches (e, seen, asked) = OnePerKind (seen, accepted e asked ++ watches)

module _ (c : Cluster) (gvk : GroupVersionKind) (seen : Seen) (watches : List GroupVersionKind)
    (new : is_seen gvk seen ≡ false) (one : OnePerKind (seen, watches)) where
  after_watch-Left : (o : Option String) → Left watches (after_watch c gvk seen o)
  unfolding after_watch
  after_watch-Left (some e) = one
  after_watch-Left none = (ap (λ gs. gvk ∷ gs) one.0, (new, one.1))

  after_mapping-Left : (o : Option String) → Left watches (after_mapping c gvk seen o)
  unfolding after_mapping
  after_mapping-Left (some e) = one
  after_mapping-Left none = after_watch-Left (c.watch gvk)

ensure-Left :
    (c : Cluster) (gvk : GroupVersionKind) (seen : Seen) (watches : List GroupVersionKind)
    → OnePerKind (seen, watches)
    → Left watches (ensure c gvk seen)
unfolding ensure
ensure-Left c gvk seen watches one = elim (Bool-cases (is_seen gvk seen)) [
  | inl e ↦ rw e one
  | inr e ↦ rw e (after_mapping-Left c gvk seen watches e one (c.rest_mapping gvk))
]

calls-OnePerKind :
    (calls : List (Cluster × GroupVersionKind)) (r : Seen × List GroupVersionKind)
    → OnePerKind r
    → OnePerKind (after_calls calls r)
calls-OnePerKind [] r one = one
calls-OnePerKind ((c, gvk) ∷ calls) (seen, watches) one =
    calls-OnePerKind calls _ (ensure-Left c gvk seen watches one)

-- Whatever kinds are asked for in whatever order, and whichever calls the cluster refuses, a watcher that
-- starts with none has one accepted watch for each kind that it takes for watched, and no kind is
-- watched twice.
pub watches-OnePerKind :
    (calls : List (Cluster × GroupVersionKind))
    → ((after_calls calls ([], [])).1 ≡ (after_calls calls ([], [])).0)
      × DistinctKinds (after_calls calls ([], [])).0
watches-OnePerKind calls = calls-OnePerKind calls ([], []) (refl, tt)

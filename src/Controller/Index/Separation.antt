-- ===== src/Controller/Index/Separation.antt =====
-- sourceRefIndexValue of internal/controller/task_transfer.go keeps references apart whose kinds and names
-- hold no slash.
use Prim.Native.Char.{Char, code}
use Prim.Native.String.{String}
use Prim.Native.String.append
use mathop_operator.Base.{◌≡◌, refl, ap, ◌∙◌, sym, Bool, true, false, ◌&&◌, not, arith, absurd_bool}
use mathop_operator.Base.{eqb}
use mathop_operator.Base.Text.{◌<>◌}

abbrev slash : Char
slash = "/"

-- No character of the text is a slash.
abbrev pub slash_free : String → Bool
slash_free String.[] = true
slash_free (String.◌∷◌ c s) = not (eqb (code c) b'/') && slash_free s

tail_of : {c d : Char} {s t : String} → String.◌∷◌ c s ≡ String.◌∷◌ d t → s ≡ t
tail_of e = cc e

head_of : {c d : Char} {s t : String} → String.◌∷◌ c s ≡ String.◌∷◌ d t → c ≡ d
head_of e = cc e

-- A slash in front of a text is its first character.
slash_cons : (s : String) → "/" <> s ≡ String.◌∷◌ slash s
slash_cons s = append.cons slash "" s ∙ ap (String.◌∷◌ slash) (append.nil s)

-- A text with a slash in it is not free of slashes.
slash_inside : (b t : String) → slash_free (b <> "/" <> t) ≡ false
slash_inside String.[] t = rw (append.nil ("/" <> t), slash_cons t) refl
slash_inside (String.◌∷◌ c b) t = rw (append.cons c b ("/" <> t)) (ground (arith, slash_inside b t))

append_assoc : (a b c : String) → (a <> b) <> c ≡ a <> (b <> c)
append_assoc String.[] b c = rw (append.nil b, append.nil (b <> c)) refl
append_assoc (String.◌∷◌ x a) b c =
    rw (append.cons x a b, append.cons x (a <> b) c, append.cons x a (b <> c))
      (ap (String.◌∷◌ x) (append_assoc a b c))

-- What stands behind the last slash, and what stands in front of it.
split_last :
    (a b s t : String)
    → slash_free s ≡ true
    → slash_free t ≡ true
    → a <> "/" <> s ≡ b <> "/" <> t
    → (a ≡ b) × (s ≡ t)
split_last String.[] String.[] s t fs ft e = (
  refl,
  tail_of
      (sym (slash_cons s) ∙ sym (append.nil ("/" <> s)) ∙ e ∙ append.nil ("/" <> t) ∙ slash_cons t),
)
split_last String.[] (String.◌∷◌ d b) s t fs ft e =
    let same : s ≡ b <> "/" <> t =
      tail_of (sym (slash_cons s) ∙ sym (append.nil ("/" <> s)) ∙ e ∙ append.cons d b ("/" <> t)) in
    absurd (absurd_bool (sym (sym fs ∙ ap slash_free same ∙ slash_inside b t)))
split_last (String.◌∷◌ c a) String.[] s t fs ft e =
    let same : t ≡ a <> "/" <> s =
      tail_of
        (sym (slash_cons t) ∙ sym (append.nil ("/" <> t)) ∙ sym e ∙ append.cons c a ("/" <> s)) in
    absurd (absurd_bool (sym (sym ft ∙ ap slash_free same ∙ slash_inside a s)))
split_last (String.◌∷◌ c a) (String.◌∷◌ d b) s t fs ft e =
    let both = sym (append.cons c a ("/" <> s)) ∙ e ∙ append.cons d b ("/" <> t) in
    let rest = split_last a b s t fs ft (tail_of both) in
    (ap (λ x. String.◌∷◌ x a) (head_of both) ∙ ap (String.◌∷◌ d) rest.0, rest.1)

-- Two references with the same index value have the same API version, kind and name.
pub parts_of_value :
    (a k n a' k' n' : String)
    → slash_free k ≡ true
    → slash_free n ≡ true
    → slash_free k' ≡ true
    → slash_free n' ≡ true
    → a <> "/" <> k <> "/" <> n ≡ a' <> "/" <> k' <> "/" <> n'
    → (a ≡ a') × (k ≡ k') × (n ≡ n')
parts_of_value a k n a' k' n' fk fn fk' fn' e =
    let outer =
      split_last (a <> "/" <> k) (a' <> "/" <> k') n n' fn fn'
        (regroup a k n ∙ e ∙ sym (regroup a' k' n')) in
    let inner = split_last a a' k k' fk fk' outer.0 in (inner.0, inner.1, outer.1)
  where
    regroup : (a k n : String) → (a <> "/" <> k) <> "/" <> n ≡ a <> "/" <> k <> "/" <> n
    regroup a k n =
        append_assoc a ("/" <> k) ("/" <> n) ∙ ap (λ x. a <> x) (append_assoc "/" k ("/" <> n))

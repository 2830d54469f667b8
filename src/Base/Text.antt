-- ===== src/Base/Text.antt =====
-- The text functions of Go's `strings`, `strconv` and `fmt` that the program calls.
use Prim.Native.Nat.{ℕ, zero, suc, ◌/◌, ◌%◌}
use Prim.Native.Char.{Char, code}
use Prim.Native.String.{String, ◌++◌}
use Prim.Native.String.append
use mathlib.Core.Path.{◌≡◌, refl}
use native.Mathlib.Omega.{arith}
use mathlib.Core.Bool.{Bool, true, false, ◌&&◌, ◌||◌}
use mathlib.Core.List.{List, [], ◌∷◌}
use mathop_operator.Base.Tests.{ltb, eqb, if◌then◌else◌, leb}
use mathop_operator.Base.Int.{ℤ, pos, negsuc}

infixr 60 ◌<>◌
abbrev pub ◌<>◌ : String → String → String
◌<>◌ = ◌++◌

-- Puts a character before the first part.
abbrev push_front : Char → List String → List String
push_front c [] = String.◌∷◌ c String.[] ∷ []
push_front c (p ∷ ps) = String.◌∷◌ c p ∷ ps

-- strings.Split(s, ".")
unfoldable pub split_dots : String → List String
split_dots String.[] = String.[] ∷ []
split_dots (String.◌∷◌ c s) =
    if eqb (code c) b'.' then String.[] ∷ split_dots s else push_front c (split_dots s)

-- The parts of a path are never none: there is a first one.
pub split_dots-cons : (s : String) → (p : String) × (ps : List String) × (split_dots s ≡ p ∷ ps)
unfolding split_dots
split_dots-cons String.[] = (String.[], [], refl)
split_dots-cons (String.◌∷◌ c s) = dot_or_char (eqb (code c) b'.') (split_dots s)
  where
    dot_or_char :
        (b : Bool) (l : List String)
        → (p : String) × (ps : List String) × ((if b then String.[] ∷ l else push_front c l)
            ≡ p ∷ ps)
    dot_or_char true l = (String.[], l, refl)
    dot_or_char false [] = (String.◌∷◌ c String.[], [], refl)
    dot_or_char false (p ∷ ps) = (String.◌∷◌ c p, ps, refl)

-- One decimal digit.
digit : ℕ → String
digit zero = "0"
digit (suc zero) = "1"
digit (suc (suc zero)) = "2"
digit (suc (suc (suc zero))) = "3"
digit (suc (suc (suc (suc zero)))) = "4"
digit (suc (suc (suc (suc (suc zero))))) = "5"
digit (suc (suc (suc (suc (suc (suc zero)))))) = "6"
digit (suc (suc (suc (suc (suc (suc (suc zero))))))) = "7"
digit (suc (suc (suc (suc (suc (suc (suc (suc zero)))))))) = "8"
digit _ = "9"

-- A number has at most as many digits as its value plus one, so `suc n` rounds are enough.
digits_fuel : ℕ → ℕ → String
digits_fuel zero n = ""
digits_fuel (suc f) n =
    let rest = digits_fuel f (n / 10) <> digit (n % 10) in if ltb n 10 then digit n else rest

unfoldable pub show_ℕ : ℕ → String
unfolding digits_fuel digit
show_ℕ n = digits_fuel (suc n) n

-- The verb %d.
unfoldable pub show_ℤ : ℤ → String
show_ℤ (pos n) = show_ℕ n
show_ℤ (negsuc n) = "-" <> show_ℕ (suc n)

-- strings.TrimPrefix(s, prefix): the text without the prefix, or whole.
cut_prefix : String → String → String → String
cut_prefix String.[] s whole = s
cut_prefix (String.◌∷◌ c p) String.[] whole = whole
cut_prefix (String.◌∷◌ c p) (String.◌∷◌ d s) whole =
    if eqb (code c) (code d) then cut_prefix p s whole else whole

unfoldable pub trim_prefix : String → String → String
unfolding cut_prefix
trim_prefix prefix s = cut_prefix prefix s s

-- unicode.IsSpace
unfoldable pub is_space : ℕ → Bool
is_space c =
    (leb 9 c && leb c 13)
    || eqb c 32
    || eqb c 0x85
    || eqb c 0xa0
    || eqb c 0x1680
    || (leb 0x2000 c && leb c 0x200a)
    || eqb c 0x2028
    || eqb c 0x2029
    || eqb c 0x202f
    || eqb c 0x205f
    || eqb c 0x3000

-- `strings.TrimSpace(s) == ""`
unfoldable pub is_blank : String → Bool
unfolding is_space
is_blank String.[] = true
is_blank (String.◌∷◌ c s) = is_space (code c) && is_blank s

trim_prefix_test : trim_prefix "/workflows/" "/workflows/ab" ≡ "ab"
unfolding trim_prefix
trim_prefix_test = refl

show-200 : show_ℕ 204 ≡ "204"
unfolding show_ℕ
show-200 = refl

split-a_b : split_dots "data.result" ≡ "data" ∷ "result" ∷ []
unfolding split_dots
split-a_b = refl

eqb_refl : (n : ℕ) → eqb n n ≡ true
eqb_refl n = ground arith

-- strings.HasPrefix, and the test of a ServeMux pattern that ends in a slash
unfoldable pub has_prefix : String → String → Bool
has_prefix String.[] s = true
has_prefix (String.◌∷◌ c p) String.[] = false
has_prefix (String.◌∷◌ c p) (String.◌∷◌ d s) = eqb (code c) (code d) && has_prefix p s

cut_prefix-append : (p s whole : String) → cut_prefix p (p <> s) whole ≡ s
unfolding cut_prefix
cut_prefix-append String.[] s whole = append.nil s
cut_prefix-append (String.◌∷◌ c p) s whole =
    rw (append.cons c p s, eqb_refl (code c)) (cut_prefix-append p s whole)

pub trim_prefix-append : (p s : String) → trim_prefix p (p <> s) ≡ s
unfolding trim_prefix
trim_prefix-append p s = cut_prefix-append p s (p <> s)

pub has_prefix-append : (p q t : String) → has_prefix p q ≡ true → has_prefix p (q <> t) ≡ true
unfolding has_prefix
has_prefix-append String.[] q t h = refl
has_prefix-append (String.◌∷◌ c p) String.[] t h = cc
has_prefix-append (String.◌∷◌ c p) (String.◌∷◌ d q) t h =
    rw (append.cons d q t) (ground (arith, has_prefix-append p q t, h))

-- A prefix that both texts share is passed over.
pub has_prefix-append_same : (p q t : String) → has_prefix (p <> q) (p <> t) ≡ has_prefix q t
unfolding has_prefix
has_prefix-append_same String.[] q t = rw (append.nil q, append.nil t) refl
has_prefix-append_same (String.◌∷◌ c p) q t =
    rw (append.cons c p q, append.cons c p t, eqb_refl (code c)) (has_prefix-append_same p q t)

-- Two texts part before either ends.
abbrev pub parts_from : String → String → Bool
parts_from String.[] q = false
parts_from (String.◌∷◌ c p) String.[] = false
parts_from (String.◌∷◌ c p) (String.◌∷◌ d q) =
    if eqb (code c) (code d) then parts_from p q else true

pub has_prefix-parts : (p q t : String) → parts_from p q ≡ true → has_prefix p (q <> t) ≡ false
unfolding has_prefix
has_prefix-parts String.[] q t h = cc
has_prefix-parts (String.◌∷◌ c p) String.[] t h = cc
has_prefix-parts (String.◌∷◌ c p) (String.◌∷◌ d q) t h =
    rw (append.cons d q t) (ground (arith, has_prefix-parts p q t, h))

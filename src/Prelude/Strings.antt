-- ===== src/Prelude/Strings.antt =====
-- Go strings as lists of code points, and the functions of package `strings` that the code calls.
use Prim.Native.Nat.{ℕ, ◌+◌}
use Prim.Native.Char.{code}
use Prim.Native.String.{String}
use mathlib.Core.Path.{◌≡◌, refl, sym, ap, ◌∙◌}
use mathlib.Core.Logic.{◌↔◌, inl, inr}
use mathlib.Core.Bool.{Bool, true, false, ◌&&◌, ◌||◌}
use mathlib.Core.Option.{Option, none, some}
use mathlib.Core.List.{List, [], ◌∷◌, ◌++◌, map}
use guild_net.Prelude.Lists.{any}
use native.Mathlib.Omega.{arith}
use guild_net.Prelude.Tests.{eqb, leb, ltb, if◌then◌else◌, Bool-cases}
use guild_net.Prelude.Equality.{Comparable, eqb_iff}

abbrev pub Text : Type 0
Text = List ℕ

abbrev pub codes : String → Text
codes String.[] = []
codes (String.◌∷◌ c s) = code c ∷ codes s

unfoldable pub text_eq : Text → Text → Bool
text_eq [] [] = true
text_eq (x ∷ xs) (y ∷ ys) = eqb x y && text_eq xs ys
text_eq _ _ = false

pub text_eq_iff : (s t : Text) → (text_eq s t ≡ true) ↔ (s ≡ t)
unfolding text_eq
text_eq_iff [] [] = ground arith
text_eq_iff [] (y ∷ ys) = ground arith
text_eq_iff (x ∷ xs) [] = ground arith
text_eq_iff (x ∷ xs) (y ∷ ys) = ground (arith, text_eq_iff xs ys, eqb_iff x y)

instance abbrev pub text_eq_inst : Comparable Text
text_eq_inst = record { equal = text_eq; equal_iff = text_eq_iff }

-- `s == ""`
abbrev pub is_empty : Text → Bool
is_empty [] = true
is_empty (c ∷ s) = false

-- `unicode.IsSpace`
unfoldable pub is_space : ℕ → Bool
is_space c =
    leb 9 c && leb c 13
    || (eqb c 32
        || (eqb c 0x85
            || (eqb c 0xa0
                || (eqb c 0x1680
                    || (leb 0x2000 c && leb c 0x200a
                        || (eqb c 0x2028
                            || (eqb c 0x2029
                                || (eqb c 0x202f || (eqb c 0x205f || eqb c 0x3000)))))))))

unfoldable pub trim_left : Text → Text
trim_left [] = []
trim_left (c ∷ s) = if is_space c then trim_left s else c ∷ s

-- The text without its trailing spaces: a space stays exactly if something stays behind it.
unfoldable pub trim_right : Text → Text
trim_right [] = []
trim_right (c ∷ s) = let rest = trim_right s in if is_empty rest && is_space c then [] else c ∷ rest

-- `strings.TrimSpace`
unfoldable pub trim_space : Text → Text
trim_space s = trim_right (trim_left s)

eq_nil_of_is_empty : (s : Text) → is_empty s ≡ true → s ≡ []
eq_nil_of_is_empty [] h = refl
eq_nil_of_is_empty (c ∷ s) h = cc

trim_left-trim_right : (s : Text) → trim_left (trim_right s) ≡ trim_right (trim_left s)
unfolding trim_left trim_right
trim_left-trim_right [] = refl
trim_left-trim_right (c ∷ s) = elim (Bool-cases (is_space c)) [
  | inl space ↦ elim (Bool-cases (is_empty (trim_right s))) [
    | inl nothing ↦
        rw (space, nothing)
          (ap trim_left (sym (eq_nil_of_is_empty (trim_right s) nothing)) ∙ trim_left-trim_right s)
    | inr some_left ↦ rw (space, some_left) (rw space (trim_left-trim_right s))
  ]
  | inr solid ↦ ground (arith, trim_left-trim_right s)
]

trim_left_idem : (s : Text) → trim_left (trim_left s) ≡ trim_left s
unfolding trim_left
trim_left_idem [] = refl
trim_left_idem (c ∷ s) = ground (arith, trim_left_idem s)

trim_right_idem : (s : Text) → trim_right (trim_right s) ≡ trim_right s
unfolding trim_right
trim_right_idem [] = refl
trim_right_idem (c ∷ s) = ground (arith, trim_right_idem s)

pub trim_space_idem : (s : Text) → trim_space (trim_space s) ≡ trim_space s
unfolding trim_space
trim_space_idem s = rw trim_left-trim_right (rw (trim_right_idem, trim_left_idem) refl)

-- `strings.HasPrefix` and `strings.TrimPrefix` in one: what follows the prefix, if it is there.
unfoldable pub strip_prefix : Text → Text → Option Text
strip_prefix [] s = some s
strip_prefix (p ∷ ps) [] = none
strip_prefix (p ∷ ps) (c ∷ s) = if eqb p c then strip_prefix ps s else none

abbrev pub has_prefix : Text → Text → Bool
has_prefix p s = elim (strip_prefix p s) [ some r ↦ true | none ↦ false ]

abbrev pub trim_prefix : Text → Text → Text
trim_prefix p s = elim (strip_prefix p s) [ some r ↦ r | none ↦ s ]

-- `strings.Contains`
unfoldable pub contains : Text → Text → Bool
contains s [] = true
contains [] (p ∷ ps) = false
contains (c ∷ s) (p ∷ ps) = has_prefix (p ∷ ps) (c ∷ s) || contains s (p ∷ ps)

abbrev pub push_head : ℕ → List Text → List Text
push_head c [] = (c ∷ []) ∷ []
push_head c (w ∷ ws) = (c ∷ w) ∷ ws

-- `strings.Split` at one character: always at least one part.
unfoldable pub split : ℕ → Text → List Text
split sep [] = [] ∷ []
split sep (c ∷ s) = let rest = split sep s in if eqb c sep then [] ∷ rest else push_head c rest

pub split-append :
    (sep : ℕ) (w s : Text)
    → any (λ c. eqb c sep) w ≡ false
    → split sep (w ++ sep ∷ s) ≡ w ∷ split sep s
unfolding split any
split-append sep [] s h = ground arith
split-append sep (c ∷ w) s h = ground (arith, split-append sep w s)

pub strip_prefix-append : (p s : Text) → strip_prefix p (p ++ s) ≡ some s
unfolding strip_prefix
strip_prefix-append [] s = refl
strip_prefix-append (c ∷ p) s = ground (arith, strip_prefix-append p s)

pub trim_prefix-append : (p s : Text) → trim_prefix p (p ++ s) ≡ s
trim_prefix-append p s = rw (strip_prefix-append p s, trim_prefix) refl

-- `strings.ToLower`; what `unicode.ToLower` does beyond ASCII is a parameter.
module _ (unicode_lower : ℕ → ℕ) where
  unfoldable pub lower_char : ℕ → ℕ
  lower_char c =
      if ltb c 128 then (if leb b'A' c && leb c b'Z' then c + 32 else c) else unicode_lower c

  abbrev pub to_lower : Text → Text
  to_lower s = map lower_char s

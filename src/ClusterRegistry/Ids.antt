-- ===== src/ClusterRegistry/Ids.antt =====
-- The ids of clusters.
use guild_net.Prelude.{
  Option, none, some, ℕ, Bool, true, ◌&&◌, ◌||◌, ◌∷◌, [], ◌≡◌, ◌≢◌, refl, ap, Text, All, leb, ◌==◌,
  nat_eq, arith,
}
use guild_net.ClusterRegistry.{sanitize_rune, keep, sanitize_runes, default_if_empty, normal_id}

-- a lower-case letter, a digit or a dash
abbrev pub is_id_rune : ℕ → Bool
is_id_rune r = leb b'a' r && leb r b'z' || (leb b'0' r && leb r b'9' || r == b'-')

-- an id that is a safe name of a directory
pub IsNormal : Text → Type 0
IsNormal s = (s ≢ []) × All (λ r. is_id_rune r ≡ true) s

kept : (r c : ℕ) → sanitize_rune r ≡ some c → is_id_rune c ≡ true
unfolding sanitize_rune
kept r c h = ground (arith, h)

keep-All :
    (o : Option ℕ) (s : Text)
    → ((c : ℕ) → o ≡ some c → is_id_rune c ≡ true)
    → All (λ r. is_id_rune r ≡ true) s
    → All (λ r. is_id_rune r ≡ true) (keep o s)
keep-All none s ok rest = rest
keep-All (some c) s ok rest = (ok c refl, rest)

sanitized : (s : Text) → All (λ r. is_id_rune r ≡ true) (sanitize_runes s)
unfolding sanitize_runes
sanitized [] = tt
sanitized (r ∷ s) = keep-All (sanitize_rune r) (sanitize_runes s) (kept r) (sanitized s)

unchanged : (r : ℕ) → is_id_rune r ≡ true → sanitize_rune r ≡ some r
unfolding sanitize_rune
unchanged r h = ground (arith, h)

sanitize_runes_normal : (s : Text) → All (λ r. is_id_rune r ≡ true) s → sanitize_runes s ≡ s
unfolding sanitize_runes
sanitize_runes_normal [] h = refl
sanitize_runes_normal (r ∷ s) (normal, h) =
    rw (unchanged r normal) (ap (λ t. r ∷ t) (sanitize_runes_normal s h))

IsNormal-or_default : (s : Text) → All (λ r. is_id_rune r ≡ true) s → IsNormal (default_if_empty s)
unfolding IsNormal
IsNormal-or_default [] h = ((λ e. cc), (refl, (refl, (refl, (refl, (refl, (refl, (refl, tt))))))))
IsNormal-or_default (c ∷ s) h = ((λ e. cc), h)

normal_id_same : (s : Text) → IsNormal s → normal_id s ≡ s
unfolding normal_id IsNormal
normal_id_same [] (filled, normal) = absurd (filled refl)
normal_id_same (c ∷ s) (filled, normal) = ap default_if_empty (sanitize_runes_normal (c ∷ s) normal)

-- A normal id is not empty and has only lower-case letters, digits and dashes, so that it names a
-- directory, and to normalise it again changes nothing.
pub normal_id-IsNormal :
    (s : Text) → IsNormal (normal_id s) × (normal_id (normal_id s) ≡ normal_id s)
unfolding normal_id
normal_id-IsNormal s =
    let normal = IsNormal-or_default (sanitize_runes s) (sanitized s) in
    (normal, normal_id_same (default_if_empty (sanitize_runes s)) normal)

-- ===== src/RethinkDb/Names.antt =====
-- The physical names of databases.
use guild_net.Prelude.{
  ℕ, true, false, [], ◌∷◌, ◌++◌, ◌≡◌, ◌≢◌, refl, sym, ap, ◌∙◌, Text, codes, All, any, map, ◌==◌,
  nat_eq, arith, Bool-cases, inl, inr,
}
use mathlib.Core.List.{append_assoc}
use guild_net.Prelude.Lists.{All-append}
use guild_net.Prelude.Strings.{lower_char, to_lower, trim_space, trim_left, trim_right, is_space}
use guild_net.RethinkDb.{is_safe, sanitize_char, or_default, sanitize, db_name}

is_safe-sanitize_char : (c : ℕ) → is_safe (sanitize_char c) ≡ true
is_safe-sanitize_char c = elim (Bool-cases (is_safe c)) [
  | inl safe ↦ rw safe safe
  | inr odd ↦ rw odd refl
]

is_safe-map : (s : Text) → All (λ c. is_safe c ≡ true) (map sanitize_char s)
is_safe-map [] = tt
is_safe-map (c ∷ s) = (is_safe-sanitize_char c, is_safe-map s)

-- Every character of a database's name is a lower-case letter, a digit, a dash or an underscore,
-- whatever the ids are and whatever ToLower does beyond ASCII.
pub is_safe-db_name :
    (unicode_lower : ℕ → ℕ) (org_id db_id : Text)
    → All (λ c. is_safe c ≡ true) (db_name unicode_lower org_id db_id)
unfolding db_name sanitize
is_safe-db_name unicode_lower org_id db_id =
    let org = or_default (to_lower unicode_lower (trim_space org_id)) in
    let db = or_default (to_lower unicode_lower (trim_space db_id)) in
    (
      refl,
      (
        refl,
        (
          refl,
          (
            refl,
            All-append (λ c. is_safe c ≡ true) (map sanitize_char org)
                (b'_' ∷ b'_' ∷ map sanitize_char db) (is_safe-map org)
                (refl, (refl, is_safe-map db)),
          ),
        ),
      ),
    )

-- an id that `dbName` takes as it is
abbrev pub IsId : Text → Type 0
IsId s = (s ≢ []) × All (λ c. is_safe c ≡ true) s

trim_left_safe : (s : Text) → All (λ c. is_safe c ≡ true) s → trim_left s ≡ s
unfolding trim_left is_space
trim_left_safe [] h = refl
trim_left_safe (c ∷ s) (safe, h) = ground arith

trim_right_safe : (s : Text) → All (λ c. is_safe c ≡ true) s → trim_right s ≡ s
unfolding trim_right is_space
trim_right_safe [] h = refl
trim_right_safe (c ∷ s) (safe, h) = ground (arith, trim_right_safe s h)

pub trim_space_safe : (s : Text) → All (λ c. is_safe c ≡ true) s → trim_space s ≡ s
unfolding trim_space
trim_space_safe s h = rw (trim_left_safe s h) (trim_right_safe s h)

pub to_lower_safe :
    (unicode_lower : ℕ → ℕ) (s : Text)
    → All (λ c. is_safe c ≡ true) s
    → to_lower unicode_lower s ≡ s
unfolding lower_char
to_lower_safe unicode_lower [] h = refl
to_lower_safe unicode_lower (c ∷ s) (safe, h) = ground (arith, to_lower_safe unicode_lower s h)

lower_safe :
    (unicode_lower : ℕ → ℕ) (s : Text)
    → All (λ c. is_safe c ≡ true) s
    → map sanitize_char (to_lower unicode_lower s) ≡ s
unfolding lower_char
lower_safe unicode_lower [] h = refl
lower_safe unicode_lower (c ∷ s) (safe, h) = ground (arith, lower_safe unicode_lower s h)

sanitize_safe :
    (unicode_lower : ℕ → ℕ) (c : ℕ) (s : Text)
    → All (λ d. is_safe d ≡ true) (c ∷ s)
    → sanitize unicode_lower (c ∷ s) ≡ c ∷ s
unfolding sanitize trim_space
sanitize_safe unicode_lower c s h =
    rw (trim_left_safe (c ∷ s) h, trim_right_safe (c ∷ s) h) (lower_safe unicode_lower (c ∷ s) h)

sanitize_id : (unicode_lower : ℕ → ℕ) (s : Text) → IsId s → sanitize unicode_lower s ≡ s
sanitize_id unicode_lower [] (filled, safe) = absurd (filled refl)
sanitize_id unicode_lower (c ∷ s) (filled, safe) = sanitize_safe unicode_lower c s safe

pub db_name_id :
    (unicode_lower : ℕ → ℕ) (org_id db_id : Text)
    → IsId org_id
    → IsId db_id
    → db_name unicode_lower org_id db_id ≡ codes "org_" ++ (org_id ++ (codes "__" ++ db_id))
unfolding db_name
db_name_id unicode_lower org_id db_id org db =
    rw (sanitize_id unicode_lower org_id org, sanitize_id unicode_lower db_id db) refl

append_filled : (s t : Text) → s ≢ [] → s ++ t ≢ []
append_filled [] t h e = h refl
append_filled (c ∷ s) t h e = cc

-- Two pairs of ids that differ only in where the organisation ends have one database between them:
-- the database `b__c` of the organisation `a` is the database `c` of the organisation `a__b`.
pub db_name_shared :
    (unicode_lower : ℕ → ℕ) (a b c : Text)
    → IsId a
    → IsId b
    → IsId c
    → db_name unicode_lower a (b ++ (codes "__" ++ c))
      ≡ db_name unicode_lower (a ++ (codes "__" ++ b)) c
db_name_shared unicode_lower a b c ha hb hc =
    let db : IsId (b ++ (codes "__" ++ c)) = (
      append_filled b (codes "__" ++ c) hb.0,
      All-append (λ d. is_safe d ≡ true) b (codes "__" ++ c) hb.1 (refl, (refl, hc.1)),
    ) in
    let org : IsId (a ++ (codes "__" ++ b)) = (
      append_filled a (codes "__" ++ b) ha.0,
      All-append (λ d. is_safe d ≡ true) a (codes "__" ++ b) ha.1 (refl, (refl, hb.1)),
    ) in
    db_name_id unicode_lower a (b ++ (codes "__" ++ c)) ha db
    ∙ (ap (λ t. codes "org_" ++ t) (sym (append_assoc a (codes "__" ++ b) (codes "__" ++ c)))
        ∙ sym (db_name_id unicode_lower (a ++ (codes "__" ++ b)) c org hc))

before_underscore :
    (a c s t : Text)
    → any (λ d. d == b'_') a ≡ false
    → any (λ d. d == b'_') c ≡ false
    → a ++ b'_' ∷ s ≡ c ++ b'_' ∷ t
    → (a ≡ c) × (s ≡ t)
unfolding any
before_underscore [] [] s t ha hc e = (refl, cc)
before_underscore [] (d ∷ c) s t ha hc e = ground (arith, e)
before_underscore (d ∷ a) [] s t ha hc e = ground (arith, e)
before_underscore (d ∷ a) (d' ∷ c) s t ha hc e = ground (arith, e, before_underscore a c s t)

-- Organisations whose ids have no underscore share no database: equal names come from equal ids.
db_name-injective :
    (unicode_lower : ℕ → ℕ) (org_id db_id org_id' db_id' : Text)
    → IsId org_id
    → IsId db_id
    → IsId org_id'
    → IsId db_id'
    → any (λ c. c == b'_') org_id ≡ false
    → any (λ c. c == b'_') org_id' ≡ false
    → db_name unicode_lower org_id db_id ≡ db_name unicode_lower org_id' db_id'
    → (org_id ≡ org_id') × (db_id ≡ db_id')
db_name-injective unicode_lower a b c d ha hb hc hd free free' e =
    let plain : codes "org_" ++ (a ++ (codes "__" ++ b))
        ≡ codes "org_" ++ (c ++ (codes "__" ++ d)) =
      sym (db_name_id unicode_lower a b ha hb) ∙ (e ∙ db_name_id unicode_lower c d hc hd) in
    let (orgs, rest) = before_underscore a c (b'_' ∷ b) (b'_' ∷ d) free free' (cc) in (orgs, cc)

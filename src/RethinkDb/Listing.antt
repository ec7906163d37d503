-- ===== src/RethinkDb/Listing.antt =====
-- Which databases `ListDatabases` finds.
use guild_net.Prelude.{
  ℕ, true, not, Option, none, some, List, [], ◌∷◌, ◌++◌, ◌≡◌, refl, ◌⊎◌, sym, ap, ◌∙◌, inl, inr,
  Text, codes, any, ◌==◌, text_eq_inst, text_eq_iff, arith, All, Bool-cases,
}
use mathlib.Core.List.{append_assoc}
use guild_net.Prelude.Strings.{to_lower, trim_space, strip_prefix, strip_prefix-append}
use guild_net.Json.{Row}
use guild_net.Model.{DatabaseInstance}
use guild_net.DbManager.{ok}
use guild_net.RethinkDb.{is_safe, db_name, Driver}
use guild_net.RethinkDb.Names.{IsId, trim_space_safe, to_lower_safe, db_name_id}
use guild_net.RethinkDb.Data.{
  DataDriver, bare_instance, with_info, list_prefix, add_named, list_named, listed_of,
  list_databases,
}

strip_list_prefix :
    (unicode_lower : ℕ → ℕ) {S : Type 0} (driver : Driver S) (d : DataDriver S)
    (org_id db_id : Text)
    → IsId org_id
    → IsId db_id
    → strip_prefix (list_prefix unicode_lower driver d org_id) (db_name unicode_lower org_id db_id)
      ≡ some db_id
unfolding list_prefix
strip_list_prefix unicode_lower driver d org_id db_id org db =
    rw (trim_space_safe org_id org.1, to_lower_safe unicode_lower org_id org.1)
      (ap (strip_prefix (codes "org_" ++ (org_id ++ codes "__"))) (
          db_name_id unicode_lower org_id db_id org db
          ∙ ap (λ t. codes "org_" ++ t) (sym (append_assoc org_id (codes "__") db_id)))
        ∙ strip_prefix-append (codes "org_" ++ (org_id ++ codes "__")) db_id)

id-with_info : (o : Option Row) (info : DatabaseInstance) → (with_info o info).id ≡ info.id
id-with_info none info = refl
id-with_info (some doc) info = refl

unsafe_prefix :
    (p s : Text)
    → any (λ c. not (is_safe c)) p ≡ true
    → All (λ c. is_safe c ≡ true) s
    → strip_prefix p s ≡ none
unfolding strip_prefix any
unsafe_prefix [] s odd safe = cc
unsafe_prefix (c ∷ p) [] odd safe = refl
unsafe_prefix (c ∷ p) (c' ∷ s) odd (safe, rest) = ground (arith, unsafe_prefix p s)

any_append :
    (xs ys : Text)
    → any (λ c. not (is_safe c)) xs ≡ true
    → any (λ c. not (is_safe c)) (xs ++ ys) ≡ true
unfolding any
any_append [] ys h = cc
any_append (x ∷ xs) ys h = ground (arith, any_append xs ys)

module _ {S : Type 0} (unicode_lower : ℕ → ℕ) (driver : Driver S) (d : DataDriver S) where
  abbrev Finds : Text → S × List DatabaseInstance → Type 0
  Finds db_id r = any (λ i. i.id == db_id) r.1 ≡ true

  add_named-Finds :
      (org_id db_id name : Text) (rest : S → S × List DatabaseInstance) (s : S) (o : Option Text)
      → ((t : S) → Finds db_id (rest t)) ⊎ (o ≡ some db_id)
      → Finds db_id (add_named unicode_lower driver d org_id name rest s o)
  unfolding any
  add_named-Finds org_id db_id name rest s none (inl h) = h s
  add_named-Finds org_id db_id name rest s none (inr e) = cc
  add_named-Finds org_id db_id name rest s (some id) (inl h) =
      let s' = (driver.table_create s name (codes "_info") (codes "id")).0 in ground (arith, h s')
  add_named-Finds org_id db_id name rest s (some id) (inr e) =
      let s' = (driver.table_create s name (codes "_info") (codes "id")).0 in
      let info = with_info (d.read_info s' name) (bare_instance org_id id) in
      ground (
        arith,
        e,
        id-with_info (d.read_info s' name) (bare_instance org_id id),
        text_eq_iff info.id db_id,
      )

  list_named-Finds :
      (org_id db_id : Text) (names : List Text) (s : S)
      → IsId org_id
      → IsId db_id
      → any (λ n. n == db_name unicode_lower org_id db_id) names ≡ true
      → Finds db_id (list_named unicode_lower driver d org_id names s)
  unfolding list_named any
  list_named-Finds org_id db_id [] s org db h = cc
  list_named-Finds org_id db_id (name ∷ names) s org db h =
      let dbn = db_name unicode_lower org_id db_id in
      let prefix = list_prefix unicode_lower driver d org_id in
      let rest = list_named unicode_lower driver d org_id names in
      elim (Bool-cases (name == dbn)) [
        | inl same ↦
            (let is_name : name ≡ dbn = (text_eq_iff name dbn).0 same in
              add_named-Finds org_id db_id name rest s (strip_prefix prefix name) (
                inr (
                  ap (strip_prefix prefix) is_name
                  ∙ strip_list_prefix unicode_lower driver d org_id db_id org db)))
        | inr other ↦
            add_named-Finds org_id db_id name rest s (strip_prefix prefix name)
              (inl (λ t. list_named-Finds org_id db_id names t org db (ground (arith, h))))
      ]

  -- A database that stands under its name in RethinkDB is among those that ListDatabases gives to its
  -- organisation, for ids of lower-case letters, digits, dashes and underscores.
  pub list_databases_finds :
      (s s' : S) (org_id db_id : Text) (names : List Text)
      → IsId org_id
      → IsId db_id
      → driver.db_list s ≡ (s', ok names)
      → any (λ n. n == db_name unicode_lower org_id db_id) names ≡ true
      → (found : List DatabaseInstance) × ((list_databases unicode_lower driver d s org_id).1
          ≡ ok found)
        × (any (λ i. i.id == db_id) found ≡ true)
  unfolding list_databases
  list_databases_finds s s' org_id db_id names org db listed h = (
    (list_named unicode_lower driver d org_id names s').1,
    rw listed refl,
    list_named-Finds org_id db_id names s' org db h,
  )

  list_named_nothing :
      (org_id : Text) (names : List Text) (s : S)
      → any (λ c. not (is_safe c)) (list_prefix unicode_lower driver d org_id) ≡ true
      → All (All (λ c. is_safe c ≡ true)) names
      → list_named unicode_lower driver d org_id names s ≡ (s, [])
  unfolding list_named
  list_named_nothing org_id [] s odd safe = refl
  list_named_nothing org_id (name ∷ names) s odd (safe, rest) =
      let prefix = list_prefix unicode_lower driver d org_id in
      ap
        (add_named unicode_lower driver d org_id name
          (list_named unicode_lower driver d org_id names) s)
        (unsafe_prefix prefix name odd safe)
      ∙ list_named_nothing org_id names s odd rest

  odd_prefix :
      (org_id : Text)
      → any (λ c. not (is_safe c)) (to_lower unicode_lower (trim_space org_id)) ≡ true
      → any (λ c. not (is_safe c)) (list_prefix unicode_lower driver d org_id) ≡ true
  unfolding list_prefix any
  odd_prefix org_id odd = any_append (to_lower unicode_lower (trim_space org_id)) (codes "__") odd

  -- An organisation whose id, trimmed and in lower case, has any other character gets an empty list:
  -- `dbName` put an underscore in its place, which ListDatabases does not do, and so it does not find
  -- the databases that the organisation created.
  list_databases_misses :
      (s s' : S) (org_id : Text) (names : List Text)
      → any (λ c. not (is_safe c)) (to_lower unicode_lower (trim_space org_id)) ≡ true
      → driver.db_list s ≡ (s', ok names)
      → All (All (λ c. is_safe c ≡ true)) names
      → list_databases unicode_lower driver d s org_id ≡ (s', ok [])
  unfolding list_databases
  list_databases_misses s s' org_id names odd listed safe =
      ap (listed_of unicode_lower driver d org_id) listed
      ∙ ap (λ r. (r.0, ok r.1)) (list_named_nothing org_id names s' (odd_prefix org_id odd) safe)

-- ===== src/RethinkDb.antt =====
-- internal/db/db.go: the database manager on RethinkDB, its names, retries and page queries. The
-- terms that the code runs are the operations of `Driver`; an error is its message.
pub mod Names
pub mod Retries
pub mod Pages
pub mod Data
pub mod Manager
pub mod Audit
pub mod Listing
pub mod Discover
pub mod Connect
use guild_net.Prelude.{
  ℕ, zero, suc, Bool, true, false, not, ◌&&◌, ◌||◌, ◌+◌, Option, none, some, List, [], ◌∷◌, ◌++◌,
  Text, codes, is_empty, any, map, length, take, lookup, ◌==◌, nat_eq, text_eq_inst, leb, ltb,
  if◌then◌else◌,
}
use guild_net.Prelude.Strings.{trim_space, contains, to_lower}
use guild_net.Json.{Json, str, Row}
use guild_net.DbManager.{Result, ok, fail}

abbrev or_default : Text → Text
or_default [] = codes "default"
or_default (c ∷ s) = c ∷ s

-- the characters that `sanitize` keeps
abbrev pub is_safe : ℕ → Bool
is_safe ch =
    leb b'a' ch && leb ch b'z' || (leb b'0' ch && leb ch b'9' || (ch == b'_' || ch == b'-'))

abbrev pub sanitize_char : ℕ → ℕ
sanitize_char ch = if is_safe ch then ch else b'_'

abbrev pub at_least_one : ℕ → ℕ
at_least_one zero = 1
at_least_one (suc n) = suc n

module _ (unicode_lower : ℕ → ℕ) where
  -- one part of the name: the organisation or the database
  unfoldable pub sanitize : Text → Text
  sanitize s = map sanitize_char (or_default (to_lower unicode_lower (trim_space s)))

  unfoldable pub db_name : Text → Text → Text
  db_name org_id db_id = codes "org_" ++ (sanitize org_id ++ (codes "__" ++ sanitize db_id))

  unfoldable pub is_transient_err : Option Text → Bool
  is_transient_err none = false
  is_transient_err (some e) =
      let s = to_lower unicode_lower e in
      contains s (codes "no primary replica")
      || (contains s (codes "not available")
          || (contains s (codes "connection reset")
              || (contains s (codes "broken pipe")
                  || (contains s (codes "timed out") || contains s (codes "eof")))))

  unfoldable pub classify_error : Option Text → Text
  classify_error none = codes "none"
  classify_error (some e) =
      let s = to_lower unicode_lower e in
      if is_transient_err (some e)
      then codes "transient"
      else (if contains s (codes "auth")
            || (contains s (codes "unauthorized") || contains s (codes "permission"))
          then codes "auth"
          else (if contains s (codes "no such table")
                || (contains s (codes "no such database") || contains s (codes "missing"))
              then codes "schema"
              else codes "fatal"))

  -- the errors after which `retryTransient` tries again
  unfoldable pub is_retried : Text → Bool
  is_retried e =
      is_transient_err (some e)
      || (contains (to_lower unicode_lower e) (codes "no such database")
          || contains (to_lower unicode_lower e) (codes "db"))

  module _ {S : Type 0} where
    abbrev pub after_try : (S × Option Text → S × Option Text) → S × Option Text → S × Option Text
    after_try rest (s, none) = (s, none)
    after_try rest (s, some e) = if is_retried e then rest (s, some e) else (s, some e)

    unfoldable pub retry_loop : ℕ → (S → S × Option Text) → S × Option Text → S × Option Text
    retry_loop zero fn last = last
    retry_loop (suc n) fn (s, err) = after_try (retry_loop n fn) (fn s)

    unfoldable pub retry_transient : ℕ → (S → S × Option Text) → S → S × Option Text
    retry_transient attempts fn s = retry_loop (at_least_one attempts) fn (s, none)

    -- the loops of `EnsureDatabase`: tried again after a transient error only, `n` times at most
    abbrev pub try_again : {A : Type 0} → (S → S × Result A) → S × Result A → S × Result A
    try_again rest (s, ok a) = (s, ok a)
    try_again rest (s, fail e) = if is_transient_err (some e) then rest s else (s, fail e)

    unfoldable pub some_tries : {A : Type 0} → ℕ → (S → S × Result A) → S → S × Result A
    some_tries zero fn s = fn s
    some_tries (suc n) fn s = try_again (some_tries n fn) (fn s)

-- one end of a range of keys
pub data Bound : Type 0 where
  min_val max_val : Bound
  at_key : Text → Bound

-- a bound that is not set is empty
pub record Between : Type 0 where
  pub lower : Bound
  pub upper : Bound
  pub index : Text
  pub left_bound : Text
  pub right_bound : Text

-- a query of the rows of a table; `order_by` has an index and whether the order is descending
pub record RowsTerm : Type 0 where
  pub dbn : Text
  pub table : Text
  pub between : Option Between
  pub order_by : Option (Text × Bool)
  pub at_most : ℕ

-- the terms of the driver
pub record Driver (S : Type 0) : Type 0 where
  pub db_list : S → S × Result (List Text)
  pub db_create : S → Text → S × Result {0} Unit
  pub table_create : S → Text → Text → Text → S × Option Text
  pub run_rows : S → RowsTerm → Result (List Row)

module _ {S : Type 0} (unicode_lower : ℕ → ℕ) (driver : Driver S) where
  abbrev pub unless_exists : S × Option Text → S × Option Text
  unless_exists (s, none) = (s, none)
  unless_exists (s, some e) = if contains e (codes "already exists") then (s, none) else (s, some e)

  unfoldable pub create_meta_table : Text → Text → S → S × Option Text
  create_meta_table dbn table s = unless_exists (driver.table_create s dbn table (codes "id"))

  abbrev pub unless_failed : (S → S × Option Text) → S × Option Text → S × Option Text
  unless_failed next (s, some e) = (s, some e)
  unless_failed next (s, none) = next s

  abbrev pub make_meta_table : Text → Text → S → S × Option Text
  make_meta_table dbn table s = retry_transient unicode_lower 5 (create_meta_table dbn table) s

  unfoldable pub ensure_meta_tables : Text → S → S × Option Text
  ensure_meta_tables dbn s = unless_failed (make_meta_table dbn (codes "_info")) (
      unless_failed (make_meta_table dbn (codes "_audit"))
        (make_meta_table dbn (codes "_schemas") s))

  abbrev pub when_created : Text → S × Result {0} Unit → S × Option Text
  when_created name (s, fail e) = (s, some e)
  when_created name (s, ok done) = ensure_meta_tables name s

  abbrev pub create_if_absent : Text → S × Result (List Text) → S × Option Text
  create_if_absent name (s, fail e) = (s, some e)
  create_if_absent name (s, ok dbs) =
      if any (λ d. d == name) dbs
      then ensure_meta_tables name s
      else when_created name (some_tries unicode_lower 2 (λ t. driver.db_create t name) s)

  unfoldable pub ensure_database : S → Text → Text → S × Option Text
  ensure_database s org_id db_id =
      create_if_absent (db_name unicode_lower org_id db_id)
        (some_tries unicode_lower 2 driver.db_list s)

-- `list[n]`
unfoldable pub nth : ℕ → List Row → Row
nth n [] = []
nth zero (row ∷ rows) = row
nth (suc n) (row ∷ rows) = nth n rows

abbrev pub page_size : ℕ → ℕ
page_size zero = 50
page_size (suc n) = suc n

-- the rows behind the cursor, in the direction of the order
abbrev pub between_of : Text → Text → Bool → Option Between
between_of pk [] ascending = none
between_of pk (c ∷ cursor) true = some (record {
  lower = at_key (c ∷ cursor);
  upper = max_val;
  index = pk;
  left_bound = codes "open";
  right_bound = [];
})
between_of pk (c ∷ cursor) false = some (record {
  lower = min_val;
  upper = at_key (c ∷ cursor);
  index = pk;
  left_bound = [];
  right_bound = codes "open";
})

-- the term of `QueryRows`
abbrev pub rows_term : Text → Text → Text → Text → Bool → ℕ → RowsTerm
rows_term dbn table pk cursor ascending n = record {
  dbn = dbn;
  table = table;
  between = if is_empty pk then none else between_of pk cursor ascending;
  order_by = if is_empty pk then none else some (pk, not ascending);
  at_most = n;
}

-- `last[pk]` as a cursor; `stringer` is `String` of a value that is a fmt.Stringer
module _ (stringer : Json → Option Text) where
  abbrev pub key_text : Option Json → Text
  key_text (some (str t)) = t
  key_text none = []
  key_text (some v) = elim (stringer v) [ some t ↦ t | none ↦ [] ]

  -- one row more than the limit is asked for: it tells whether there is a next page
  unfoldable pub cut_page : Text → ℕ → List Row → List Row × Text
  cut_page pk zero list = (list, [])
  cut_page pk (suc n) list =
      if ltb (suc n) (length list)
      then (take (suc n) list, key_text (lookup pk (nth n list)))
      else (list, [])

  abbrev pub page_of : Text → ℕ → Result (List Row) → Result (List Row × Text)
  page_of pk limit (fail e) = fail e
  page_of pk limit (ok list) = ok (cut_page pk (page_size limit) list)

  module _ {S : Type 0} (unicode_lower : ℕ → ℕ) (driver : Driver S) where
    unfoldable pub query_rows :
        S → Text → Text → Text → Text → ℕ → Text → Bool → Result (List Row × Text)
    query_rows s org_id db_id table pk limit cursor ascending = page_of pk limit (
        driver.run_rows s (
          rows_term (db_name unicode_lower org_id db_id) table pk cursor ascending
            (suc (page_size limit))))

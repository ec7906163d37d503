-- ===== src/RethinkDb/Pages.antt =====
-- The pages of `QueryRows`, followed from one cursor to the next.
use guild_net.Prelude.{
  ℕ, Bool, zero, suc, ◌≤◌, ◌<◌, true, false, Option, none, some, List, [], ◌∷◌, ◌++◌, ◌≡◌, ◌≢◌,
  refl, sym, ap, ◌∙◌, inl, inr, Text, codes, is_empty, lookup, length, take, All, text_eq_inst, ltb,
  arith, Bool-cases,
}
use mathlib.Core.Path.{subst}
use mathlib.Core.List.{append_assoc}
use guild_net.Prelude.Lists.{length-append}
use guild_net.Json.{Json, str, Row}
use guild_net.DbManager.{Result, ok, fail}
use guild_net.RethinkDb.{
  db_name, Driver, nth, cut_page, page_of, page_size, at_key, max_val, rows_term, query_rows,
}

-- The driver runs a query of the table `all` in the order of its index, which has a name: an open left
-- bound at the key of a row gives the rows behind it.
pub record ScansInOrder {S : Type 0} (driver : Driver S) (s : S) (dbn table pk : Text)
    (all : List Row) : Type 0 where
  pub named : is_empty pk ≡ false
  pub first :
      (n : ℕ)
      → driver.run_rows s (record {
        dbn = dbn;
        table = table;
        between = none;
        order_by = some (pk, false);
        at_most = n;
      })
        ≡ ok (take n all)
  pub next :
      (front back : List Row) (row : Row) (key : Text) (n : ℕ)
      → all ≡ front ++ row ∷ back
      → lookup pk row ≡ some (str key)
      → driver.run_rows s (record {
        dbn = dbn;
        table = table;
        between = some (record {
          lower = at_key key;
          upper = max_val;
          index = pk;
          left_bound = codes "open";
          right_bound = [];
        });
        order_by = some (pk, false);
        at_most = n;
      })
        ≡ ok (take n back)

-- the row has a text under the key, and not the empty one
abbrev pub IsKeyed : Text → Row → Type 0
IsKeyed pk row = (key : Text) × (lookup pk row ≡ some (str key)) × (key ≢ [])

take_short : (n : ℕ) (rows : List Row) → length rows ≤ n → take n rows ≡ rows
take_short zero [] h = refl
take_short (suc n) [] h = refl
take_short zero (row ∷ rows) h = absurd (omega arith)
take_short (suc n) (row ∷ rows) h = ap (λ t. row ∷ t) (take_short n rows (omega arith))

nth_front : (front rows : List Row) (row : Row) → nth (length front) (front ++ row ∷ rows) ≡ row
unfolding nth
nth_front [] rows row = refl
nth_front (x ∷ front) rows row = nth_front front rows row

one_more :
    (front rows : List Row) (row : Row)
    → take (suc (length front)) (front ++ row ∷ rows) ≡ front ++ row ∷ []
one_more [] rows row = refl
one_more (x ∷ front) rows row = ap (λ t. x ∷ t) (one_more front rows row)

two_more :
    (front rows : List Row) (row x : Row)
    → take (suc (suc (length front))) (front ++ row ∷ x ∷ rows) ≡ front ++ row ∷ x ∷ []
two_more [] rows row x = refl
two_more (y ∷ front) rows row x = ap (λ t. y ∷ t) (two_more front rows row x)

-- A list with more than `n + 1` rows, cut behind its row `n`.
abbrev Cut : ℕ → List Row → Type 0
Cut n rows =
    (front : List Row) × (row : Row) × (x : Row) × (back : List Row) × (rows
      ≡ front ++ row ∷ x ∷ back)
    × (length front ≡ n)

Cut-at : (n : ℕ) (rows : List Row) → suc n < length rows → Cut n rows
Cut-at zero [] h = absurd (omega arith)
Cut-at zero (row ∷ []) h = absurd (omega arith)
Cut-at zero (row ∷ x ∷ back) h = ([], row, x, back, refl, refl)
Cut-at (suc n) [] h = absurd (omega arith)
Cut-at (suc n) (row ∷ rows) h =
    let (front, row', x, back, whole, long) = Cut-at n rows (omega arith) in
    (row ∷ front, row', x, back, ap (λ t. row ∷ t) whole, ap suc long)

module _ (stringer : Json → Option Text) where
  last_page :
      (pk : Text) (n : ℕ) (rows : List Row)
      → length rows ≤ suc n
      → cut_page stringer pk (suc n) (take (suc (suc n)) rows) ≡ (rows, [])
  unfolding cut_page
  last_page pk n rows h = rw (take_short (suc (suc n)) rows (omega arith)) (ground arith)

  full_page :
      (pk : Text) (front back : List Row) (row x : Row) (key : Text)
      → lookup pk row ≡ some (str key)
      → cut_page stringer pk
          (suc (length front))
          (take (suc (suc (length front))) (front ++ row ∷ x ∷ back))
        ≡ (front ++ row ∷ [], key)
  unfolding cut_page
  full_page pk front back row x key h = rw (two_more front back row x) (
      ground (
        arith,
        h,
        length-append front (row ∷ x ∷ []),
        nth_front front (x ∷ []) row,
        one_more front (x ∷ []) row,
      ))

behind :
    (P : Row → Type 0) (front back : List Row) (row : Row)
    → All P (front ++ row ∷ back)
    → P row × All P back
behind P [] back row h = h
behind P (y ∷ front) back row (p, h) = behind P front back row h

-- The pages from a cursor on, one behind the other; `none` for a failed query or too little fuel.
abbrev pub follow : (Text → Option (List Row)) → Result (List Row × Text) → Option (List Row)
follow rest (fail e) = none
follow rest (ok (rows, [])) = some rows
follow rest (ok (rows, c ∷ next)) = elim (rest (c ∷ next)) [
  | none ↦ none
  | some more ↦ some (rows ++ more)
]

follow_filled :
    (rest : Text → Option (List Row)) (rows more : List Row) (key : Text)
    → key ≢ []
    → rest key ≡ some more
    → follow rest (ok (rows, key)) ≡ some (rows ++ more)
follow_filled rest rows more [] filled h = absurd (filled refl)
follow_filled rest rows more (c ∷ key) filled h = rw (follow, h) refl

module _ {S : Type 0} (stringer : Json → Option Text) (unicode_lower : ℕ → ℕ)
    (driver : Driver S) where
  unfoldable pub read_pages : ℕ → S → Text → Text → Text → Text → ℕ → Text → Option (List Row)
  read_pages zero s org_id db_id table pk limit cursor = none
  read_pages (suc fuel) s org_id db_id table pk limit cursor =
      follow (read_pages fuel s org_id db_id table pk limit)
        (query_rows stringer unicode_lower driver s org_id db_id table pk limit cursor true)

page_size-positive : (limit : ℕ) → (m : ℕ) × (page_size limit ≡ suc m)
page_size-positive zero = (49, refl)
page_size-positive (suc n) = (n, refl)

module _ {S : Type 0} (stringer : Json → Option Text) (unicode_lower : ℕ → ℕ) {driver : Driver S}
    (s : S) (org_id db_id table pk : Text) (limit : ℕ) (all : List Row)
    (scans : ScansInOrder driver s (db_name unicode_lower org_id db_id) table pk all) where
  -- the scan from this cursor gives these rows
  ScansFrom : Text → List Row → Type 0
  ScansFrom cursor rows =
      (n : ℕ)
      → driver.run_rows s (rows_term (db_name unicode_lower org_id db_id) table pk cursor true n)
        ≡ ok (take n rows)

  query_page :
      (cursor : Text) (rows : List Row)
      → ScansFrom cursor rows
      → query_rows stringer unicode_lower driver s org_id db_id table pk limit cursor true
        ≡ ok (cut_page stringer pk (page_size limit) (take (suc (page_size limit)) rows))
  unfolding query_rows ScansFrom
  query_page cursor rows h = ap (page_of stringer pk limit) (h (suc (page_size limit)))

  ScansFrom-start : ScansFrom [] all
  unfolding ScansFrom
  ScansFrom-start n = rw (scans.named, rows_term) (scans.first n)

  ScansFrom-key :
      (front back : List Row) (row : Row) (key : Text)
      → all ≡ front ++ row ∷ back
      → lookup pk row ≡ some (str key)
      → key ≢ []
      → ScansFrom key back
  unfolding ScansFrom
  ScansFrom-key front back row [] whole keyed filled n = absurd (filled refl)
  ScansFrom-key front back row (c ∷ key) whole keyed filled n =
      rw (scans.named, rows_term) (scans.next front back row (c ∷ key) n whole keyed)

  module _ (m : ℕ) (size : page_size limit ≡ suc m) where
    read_from :
        (fuel : ℕ) (cursor : Text) (front back : List Row)
        → ScansFrom cursor back
        → all ≡ front ++ back
        → All (IsKeyed pk) back
        → length back < fuel
        → read_pages stringer unicode_lower driver fuel s org_id db_id table pk limit cursor
          ≡ some back
    unfolding read_pages
    read_from zero cursor front back from whole keyed enough = absurd (omega arith)
    read_from (suc fuel) cursor front back from whole keyed enough =
        let rest : Text → Option (List Row) =
          read_pages stringer unicode_lower driver fuel s org_id db_id table pk limit in
        let page = query_page cursor back from in
        elim (Bool-cases (ltb (suc m) (length back))) [
          | inr last ↦
              (let shown : cut_page stringer pk (page_size limit)
                      (take (suc (page_size limit)) back)
                    ≡ (back, []) =
                  rw size (last_page stringer pk m back (ground arith)) in
                ap (follow rest) (page ∙ ap ok shown))
          | inl longer ↦
              (let (f, row, x, g, parts, long) = Cut-at m back (ground arith) in
                let ((key, has_key, filled), later) =
                  behind (IsKeyed pk) f (x ∷ g) row (subst (All (IsKeyed pk)) parts keyed) in
                let cut : all ≡ (front ++ f) ++ row ∷ x ∷ g =
                  whole ∙ (ap (λ t. front ++ t) parts ∙ sym (append_assoc front f (row ∷ x ∷ g))) in
                let next_page = full_page stringer pk f g row x key has_key in
                let more =
                  read_from fuel key ((front ++ f) ++ row ∷ []) (x ∷ g)
                    (ScansFrom-key (front ++ f) (x ∷ g) row key cut has_key filled)
                    (cut ∙ sym (append_assoc (front ++ f) (row ∷ []) (x ∷ g))) later
                    (omega (arith, enough, ap length parts, length-append f (row ∷ x ∷ g))) in
                let shown : cut_page stringer pk (page_size limit)
                      (take (suc (page_size limit)) back)
                    ≡ (f ++ row ∷ [], key) =
                  rw (size, sym long, parts) next_page in
                ap (follow rest) (page ∙ ap ok shown)
                ∙ (follow_filled rest (f ++ row ∷ []) (x ∷ g) key filled more
                    ∙ ap some (append_assoc f (row ∷ []) (x ∷ g) ∙ sym parts)))
        ]

  -- Over a driver that scans a table in the order of its index, and if every row has a key that is a
  -- text and not empty, the pages that QueryRows gives from the start on, each from the cursor that
  -- the page before it returned, are together the whole table, every row once and in order: as many
  -- queries as there are rows, and one more, are enough, whatever the limit is.
  pub read_pages_whole :
      All (IsKeyed pk) all
      → read_pages stringer unicode_lower driver (suc (length all)) s org_id db_id table pk limit []
        ≡ some all
  unfolding ScansFrom
  read_pages_whole keyed =
      let (m, size) = page_size-positive limit in
      read_from m size (suc (length all)) [] [] all ScansFrom-start refl keyed (omega arith)

filled_page :
    (stringer : Json → Option Text) (pk : Text) (n : ℕ) (list rows : List Row) (next : Text)
    → cut_page stringer pk (suc n) list ≡ (rows, next)
    → is_empty next ≡ false
    → rows ≢ []
unfolding cut_page
filled_page stringer pk n [] rows next h more = ground (arith, h)
filled_page stringer pk n (row ∷ list) rows next h more = ground (arith, h)

filled_answer :
    (stringer : Json → Option Text) (pk : Text) (limit : ℕ) (answer : Result (List Row))
    (rows : List Row) (next : Text)
    → page_of stringer pk limit answer ≡ ok (rows, next)
    → is_empty next ≡ false
    → rows ≢ []
filled_answer stringer pk limit (fail e) rows next h more = cc
filled_answer stringer pk limit (ok list) rows next h more =
    let (m, size) = page_size-positive limit in
    let page : cut_page stringer pk (page_size limit) list ≡ (rows, next) = cc in
    filled_page stringer pk m list rows next
      (ap (λ k. cut_page stringer pk k list) (sym size) ∙ page) more

module _ {S : Type 0} (stringer : Json → Option Text) (unicode_lower : ℕ → ℕ)
    (driver : Driver S) where
  -- A page of QueryRows with a cursor for the next one is not empty, whatever the driver answers.
  pub query_rows_grow :
      (s : S) (org_id db_id table pk : Text) (limit : ℕ) (cursor : Text) (ascending : Bool)
      (rows : List Row) (next : Text)
      → query_rows stringer unicode_lower driver s org_id db_id table pk limit cursor ascending
        ≡ ok (rows, next)
      → is_empty next ≡ false
      → rows ≢ []
  unfolding query_rows
  query_rows_grow s org_id db_id table pk limit cursor ascending rows next h more =
      filled_answer stringer pk limit
        (driver.run_rows s (
          rows_term (db_name unicode_lower org_id db_id) table pk cursor ascending
            (suc (page_size limit))))
        rows next h more

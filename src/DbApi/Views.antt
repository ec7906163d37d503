-- ===== src/DbApi/Views.antt =====
-- What a restricted principal sees of masked columns, and how an export ends.
use guild_net.Prelude.{
  ℕ, zero, suc, ◌+◌, ◌≤◌, ◌<◌, Bool, true, false, ◌||◌, Option, none, some, List, [], ◌∷◌, ◌++◌,
  ◌≡◌, ◌≢◌, refl, sym, ap, ◌⊎◌, inl, inr, Text, codes, is_empty, text_eq_inst, ◌==◌, leb, ltb,
  arith, Bool-cases, lookup, length, All,
}
use guild_net.Prelude.Lists.{length-append, All-append}
use guild_net.Json.{Json, Row}
use guild_net.Model.{Role, ColumnDef, Table, role_admin, role_maintainer}
use guild_net.Rbac.{allow, mask_row, mask_columns, masked_value, principal_from_request}
use guild_net.Rbac.Masking.{is_hidden, is_restricted, redact, lookup-mask_row}
use guild_net.Http.{get, Request, Body}
use guild_net.DbManager.{Result, ok, fail, DbManager}
use guild_net.Wire.{Wire}
use guild_net.DbApi.{DbApi, resolve_role, schema_of, tables_or_nil, mask_rows}
use guild_net.DbApi.Rows.{handle_rows, handle_row_collection, show_page, list_rows}
use guild_net.DbApi.Export.{
  Round, done, failed, again, end_round, collect, take_page, export_round, export_loop,
}

-- No value of a hidden column shows: each such cell is missing or three stars.
abbrev pub IsMasked : List ColumnDef → Row → Type 0
IsMasked schema row =
    (j : Text)
    → is_hidden j schema ≡ true
    → (lookup j row ≡ none) ⊎ (lookup j row ≡ some masked_value)

redact_cases : (o : Option Json) → (redact o ≡ none) ⊎ (redact o ≡ some masked_value)
redact_cases none = inl refl
redact_cases (some v) = inr refl

mask_row-IsMasked :
    (role : Role) (schema : List ColumnDef) (row : Row)
    → is_restricted role ≡ true
    → IsMasked schema (mask_row role schema row)
mask_row-IsMasked role schema row h j hidden =
    ground (arith, lookup-mask_row role schema j row, redact_cases (lookup j row))

mask_rows-IsMasked :
    (role : Role) (schema : List ColumnDef) (rows : List Row)
    → is_restricted role ≡ true
    → All (IsMasked schema) (mask_rows role schema rows)
mask_rows-IsMasked role schema [] h = tt
mask_rows-IsMasked role schema (row ∷ rows) h =
    (mask_row-IsMasked role schema row h, mask_rows-IsMasked role schema rows h)

collect-IsMasked :
    (limit : ℕ) (role : Role) (schema : List ColumnDef) (acc rows : List Row)
    → is_restricted role ≡ true
    → All (IsMasked schema) acc
    → All (IsMasked schema) (collect limit role schema acc rows)
unfolding collect
collect-IsMasked limit role schema acc [] h a = a
collect-IsMasked limit role schema acc (row ∷ rows) h a =
    let acc' = acc ++ mask_row role schema row ∷ [] in
    let a' : All (IsMasked schema) acc' =
      All-append (IsMasked schema) acc _ a (mask_row-IsMasked role schema row h, tt) in
    elim (Bool-cases (leb limit (length acc'))) [
      | inl full ↦ rw full a'
      | inr more ↦ rw more (collect-IsMasked limit role schema acc' rows h a')
    ]

length-collect :
    (limit : ℕ) (role : Role) (schema : List ColumnDef) (acc rows : List Row)
    → length acc < limit
    → (length (collect limit role schema acc rows) ≤ limit)
      × (rows ≢ [] → length acc < length (collect limit role schema acc rows))
      × (length acc ≤ length (collect limit role schema acc rows))
unfolding collect
length-collect limit role schema acc [] h = (omega arith, λ n. absurd (n refl), omega arith)
length-collect limit role schema acc (row ∷ rows) h =
    let acc' = acc ++ mask_row role schema row ∷ [] in
    let grown : length acc' ≡ length acc + 1 = length-append acc _ in
    elim (Bool-cases (leb limit (length acc'))) [
      | inl full ↦ rw full (omega arith, λ n. omega arith, omega arith)
      | inr more ↦
          let room : length acc' < limit = ground arith in
          let (bound, strict, grows) = length-collect limit role schema acc' rows room in
          rw more (bound, λ n. omega arith, omega arith)
    ]

-- A page that names a next cursor has a row. `QueryRows` of internal/db keeps this law.
pub record PagesGrow {S : Type 0} (m : DbManager S) : Type 0 where
  pub page :
      (s : S) (org db_id table pk : Text) (limit : ℕ) (cursor : Text) (forward : Bool)
      (rows : List Row) (next : Text)
      → m.query_rows s org db_id table pk limit cursor forward ≡ ok (rows, next)
      → is_empty next ≡ false
      → rows ≢ []

module _ {S : Type 0} (m : DbManager S) (org db_id table : Text) (role : Role) (limit : ℕ) where
  -- How a round may end, where `acc` was collected before it.
  abbrev RoundGrows : List Row → Round S → Type 0
  RoundGrows acc (done s rows) = length rows ≤ limit
  RoundGrows acc (failed s e) = Unit
  RoundGrows acc (again s rows next) = (length acc < length rows) × (length rows ≤ limit)

  take_page-RoundGrows :
      (s : S) (acc : List Row) (cursor : Text) (q : Result (List Row × Text))
      → ((rows : List Row) (next : Text) → q ≡ ok (rows, next) → is_empty next ≡ false → rows ≢ [])
      → length acc < limit
      → RoundGrows acc (take_page m org db_id table role limit s acc cursor q)
  unfolding take_page
  take_page-RoundGrows s acc cursor (fail e) law h = tt
  take_page-RoundGrows s acc cursor (ok (rows, next)) law h =
      let tbls = (m.get_tables s org db_id).1 in
      let (bound, strict, _) =
        length-collect limit role (schema_of table (tables_or_nil tbls)) acc rows h in
      elim (Bool-cases (is_empty next)) [
        | inl last ↦ rw last bound
        | inr more ↦ elim (Bool-cases (cursor == next)) [
          | inl still ↦ rw (more, still) bound
          | inr moved ↦ rw (more, moved) (strict (law rows next refl more), bound)
        ]
      ]

  -- The loop has ended within its fuel, with no more rows than asked for.
  abbrev pub EndsBounded : Option (S × Result (List Row)) → Type 0
  EndsBounded none = ⊥
  EndsBounded (some (s, ok rows)) = length rows ≤ limit
  EndsBounded (some (s, fail e)) = Unit

  end_round-EndsBounded :
      (rest : S → List Row → Text → Option (S × Result (List Row))) (acc : List Row) (x : Round S)
      → RoundGrows acc x
      → ((s : S) (rows : List Row) (next : Text)
          → length acc < length rows
          → length rows ≤ limit
          → EndsBounded (rest s rows next))
      → EndsBounded (end_round rest x)
  unfolding end_round
  end_round-EndsBounded rest acc (done s rows) g k = g
  end_round-EndsBounded rest acc (failed s e) g k = tt
  end_round-EndsBounded rest acc (again s rows next) g k = k s rows next g.0 g.1

  export_loop-EndsBounded :
      PagesGrow m
      → (fuel : ℕ) (s : S) (acc : List Row) (cursor : Text) → length acc ≤ limit
      → limit < length acc + fuel
      → EndsBounded (export_loop m org db_id table role limit fuel s acc cursor)
  unfolding export_loop export_round
  export_loop-EndsBounded law zero s acc cursor a f = absurd (omega arith)
  export_loop-EndsBounded law (suc fuel) s acc cursor a f =
      elim (Bool-cases (ltb (length acc) limit)) [
        | inr full ↦ rw (full, export_loop, EndsBounded) a
        | inl room ↦
            rw (room, export_loop, EndsBounded)
              (end_round-EndsBounded (export_loop m org db_id table role limit fuel) acc _
                (take_page-RoundGrows s acc cursor _
                  (law.page s org db_id table (codes "id") 200 cursor true) (ground arith))
                (λ s' rows next g bound.
                  export_loop-EndsBounded law fuel s' rows next bound (omega arith)))
      ]

  -- Over a manager whose pages with a next cursor have rows, an export with the limit n ends within
  -- n + 1 rounds, and the rows that it answers with are n at most.
  pub export_ends :
      PagesGrow m
      → (s : S) → EndsBounded (export_loop m org db_id table role limit (suc limit) s [] [])
  export_ends law s = export_loop-EndsBounded law (suc limit) s [] [] (omega arith) (omega arith)

  module _ (schema : List ColumnDef) where
    abbrev pub ResultMasked : Result (List Row) → Type 0
    ResultMasked (ok rows) = All (IsMasked schema) rows
    ResultMasked (fail e) = Unit

    abbrev pub EndsMasked : Option (S × Result (List Row)) → Type 0
    EndsMasked none = Unit
    EndsMasked (some (s, result)) = ResultMasked result

    abbrev RoundMasked : Round S → Type 0
    RoundMasked (done s rows) = All (IsMasked schema) rows
    RoundMasked (failed s e) = Unit
    RoundMasked (again s rows next) = All (IsMasked schema) rows

    module _
        (stable : (s : S) → schema_of table (tables_or_nil (m.get_tables s org db_id).1) ≡ schema)
        (restricted : is_restricted role ≡ true) where
      take_page-RoundMasked :
          (s : S) (acc : List Row) (cursor : Text) (q : Result (List Row × Text))
          → All (IsMasked schema) acc
          → RoundMasked (take_page m org db_id table role limit s acc cursor q)
      unfolding take_page
      take_page-RoundMasked s acc cursor (fail e) a = tt
      take_page-RoundMasked s acc cursor (ok (rows, next)) a =
          let grown = collect-IsMasked limit role schema acc rows restricted a in
          elim (Bool-cases (is_empty next || cursor == next)) [
            | inl last ↦ rw (last, stable) grown
            | inr more ↦ rw (more, stable) grown
          ]

      end_round-EndsMasked :
          (rest : S → List Row → Text → Option (S × Result (List Row))) (x : Round S)
          → RoundMasked x
          → ((s : S) (rows : List Row) (next : Text)
              → All (IsMasked schema) rows
              → EndsMasked (rest s rows next))
          → EndsMasked (end_round rest x)
      unfolding end_round
      end_round-EndsMasked rest (done s rows) g k = g
      end_round-EndsMasked rest (failed s e) g k = tt
      end_round-EndsMasked rest (again s rows next) g k = k s rows next g

      -- Where GetTables gives the table the same schema in every state, a viewer or an editor gets no
      -- row of an export that shows a value of a masked column, however many pages there are.
      pub export_masked :
          (fuel : ℕ) (s : S) (acc : List Row) (cursor : Text)
          → All (IsMasked schema) acc
          → EndsMasked (export_loop m org db_id table role limit fuel s acc cursor)
      unfolding export_loop export_round
      export_masked zero s acc cursor a = tt
      export_masked (suc fuel) s acc cursor a = elim (Bool-cases (ltb (length acc) limit)) [
        | inr full ↦ rw (full, export_loop, EndsMasked) a
        | inl room ↦
            rw (room, export_loop, EndsMasked)
              (end_round-EndsMasked (export_loop m org db_id table role limit fuel) _
                (take_page-RoundMasked s acc cursor _ a) (export_masked fuel))
      ]

-- What a listing answers with: rows that hide the masked columns, or an error.
abbrev pub BodyMasked : List ColumnDef → Body → Type 0
BodyMasked schema (Body.page rows next) = All (IsMasked schema) rows
BodyMasked schema (Body.error msg code detail) = Unit
BodyMasked schema _ = ⊥

-- the page has the very rows of the query
abbrev pub BodyRaw : Result (List Row × Text) → Body → Type 0
BodyRaw q (Body.page rows next) = q ≡ ok (rows, next)
BodyRaw q (Body.error msg code detail) = Unit
BodyRaw q _ = ⊥

-- What a listing shows, by what GetTables and QueryRows answer.
abbrev pub ListingShows : Text → Result (List Table) → Result (List Row × Text) → Body → Type 0
ListingShows table (ok tbls) q = BodyMasked (schema_of table tbls)
ListingShows table (fail e) q = BodyRaw q

mask_rows-none : (role : Role) (rows : List Row) → mask_rows role [] rows ≡ rows
unfolding mask_row mask_columns
mask_rows-none role [] = refl
mask_rows-none role (row ∷ rows) =
    elim (Bool-cases (role == role_admin || role == role_maintainer)) [
      | inl free ↦ rw (free, mask_rows-none role rows) refl
      | inr bound ↦ rw (bound, mask_rows-none role rows) refl
    ]

page-ListingShows :
    (role : Role) (table : Text) (tbls : Result (List Table)) (rows : List Row) (next : Text)
    → is_restricted role ≡ true
    → ListingShows table tbls
        (ok (rows, next))
        (Body.page (mask_rows role (schema_of table (tables_or_nil tbls)) rows) next)
unfolding schema_of
page-ListingShows role table (ok tbls) rows next h = mask_rows-IsMasked role _ rows h
page-ListingShows role table (fail e) rows next h =
    ap (λ shown. ok (shown, next)) (sym (mask_rows-none role rows))

error-ListingShows :
    (table : Text) (tbls : Result (List Table)) (q : Result (List Row × Text)) (msg code : Text)
    (detail : Option Text)
    → ListingShows table tbls q (Body.error msg code detail)
error-ListingShows table (ok tbls) q msg code detail = tt
error-ListingShows table (fail e) q msg code detail = tt

module _ {S : Type 0} (m : DbManager S) (w : Wire) where
  show_page-ListingShows :
      (api : DbApi S) (s : S) (role : Role) (db_id table : Text) (q : Result (List Row × Text))
      → is_restricted role ≡ true
      → ListingShows table
          (m.get_tables s api.org_id db_id).1
          q
          (show_page m w api s role db_id table q).1.body
  unfolding show_page
  show_page-ListingShows api s role db_id table (fail e) h = error-ListingShows table _ _ _ _ _
  show_page-ListingShows api s role db_id table (ok (rows, next)) h =
      page-ListingShows role table (m.get_tables s api.org_id db_id).1 rows next h

  -- A viewer or an editor that lists the rows of a table gets an error or a page. If GetTables
  -- succeeds, every cell of the page in a column that the table's schema masks is missing or three
  -- stars; if it fails, the page shows the rows of QueryRows as they are, nothing masked.
  pub list_rows_masked :
      (api : DbApi S) (s : S) (r : Request) (db_id table : Text)
      → r.method ≡ get
      → is_restricted (resolve_role api (principal_from_request r.debug_principal) table db_id)
        ≡ true
      → ListingShows table
          (m.get_tables s api.org_id db_id).1
          (m.query_rows s api.org_id db_id table (codes "id") 50 (r.query (codes "cursor")) true)
          (handle_rows m w api s r db_id table []).1.body
  unfolding handle_rows handle_row_collection list_rows
  list_rows_masked api s r db_id table e h =
      let role = resolve_role api (principal_from_request r.debug_principal) table db_id in
      elim (Bool-cases (allow role (codes "row.read"))) [
        | inl may ↦
            rw (e, may, handle_row_collection) (show_page-ListingShows api s role db_id table _ h)
        | inr may_not ↦ rw (e, may_not, handle_row_collection) (error-ListingShows table _ _ _ _ _)
      ]

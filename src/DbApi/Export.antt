-- ===== src/DbApi/Export.antt =====
-- The export branch of `handleTables`: pages of rows are fetched, masked and collected.
use guild_net.Prelude.{
  ℕ, zero, suc, true, false, ◌||◌, not, Option, none, some, List, [], ◌∷◌, ◌++◌, Text, codes,
  is_empty, text_eq_inst, ◌==◌, if◌then◌else◌, leb, ltb, length, lookup, map,
}
use guild_net.Prelude.Numbers.{ℤ, pos, negsuc, atoi}
use guild_net.Json.{Row}
use guild_net.Model.{ColumnDef, Role}
use guild_net.Rbac.{allow, mask_row, principal_from_request}
use guild_net.Http.{Request, Body, Response, respond, json_error_detail, forbidden}
use guild_net.DbManager.{Result, ok, fail, DbManager}
use guild_net.Wire.{Wire}
use guild_net.DbApi.{DbApi, resolve_role, with_manager, schema_of, tables_or_nil, stringify}

-- the query parameter `limit`, from 1 to 10000; anything else reads as 1000
abbrev pub accepted_limit : Option ℤ → ℕ
accepted_limit none = 1000
accepted_limit (some (pos zero)) = 1000
accepted_limit (some (pos (suc n))) = if leb (suc n) 10000 then suc n else 1000
accepted_limit (some (negsuc n)) = 1000

unfoldable pub export_limit : Text → ℕ
export_limit [] = 1000
export_limit (c ∷ s) = accepted_limit (atoi (c ∷ s))

-- the inner loop: rows are masked and appended until there are `limit`
unfoldable pub collect : ℕ → Role → List ColumnDef → List Row → List Row → List Row
collect limit role schema acc [] = acc
collect limit role schema acc (row ∷ rows) =
    let acc' = acc ++ mask_row role schema row ∷ [] in
    let rest = collect limit role schema acc' rows in if leb limit (length acc') then acc' else rest

-- what a round of the outer loop leads to
pub data Round (S : Type 0) : Type 0 where
  done : S → List Row → Round S
  failed : S → Text → Round S
  again : S → List Row → Text → Round S

-- the loop goes on as `rest` does
unfoldable pub end_round :
    {S : Type 0}
    → (S → List Row → Text → Option (S × Result (List Row)))
    → Round S
    → Option (S × Result (List Row))
end_round rest (done s rows) = some (s, ok rows)
end_round rest (failed s e) = some (s, fail e)
end_round rest (again s rows next) = rest s rows next

module _ {S : Type 0} (m : DbManager S) (org db_id table : Text) (role : Role) (limit : ℕ) where
  -- a round goes on unless the page is the last one or the cursor stands still
  unfoldable pub take_page : S → List Row → Text → Result (List Row × Text) → Round S
  take_page s acc cursor (fail e) = failed s e
  take_page s acc cursor (ok (rows, next)) =
      let (s', tbls) = m.get_tables s org db_id in
      let acc' = collect limit role (schema_of table (tables_or_nil tbls)) acc rows in
      if is_empty next || cursor == next then done s' acc' else again s' acc' next

  unfoldable pub export_round : S → List Row → Text → Round S
  export_round s acc cursor =
      take_page s acc cursor (m.query_rows s org db_id table (codes "id") 200 cursor true)

  -- the outer loop; `none` means that the fuel ran out
  unfoldable pub export_loop : ℕ → S → List Row → Text → Option (S × Result (List Row))
  export_loop zero s acc cursor = none
  export_loop (suc fuel) s acc cursor = elim (ltb (length acc) limit) [
    | false ↦ some (s, ok acc)
    | true ↦ end_round (export_loop fuel) (export_round s acc cursor)
  ]

-- the CSV: the columns of the first row, then a line for each row
abbrev pub row_columns : Row → List Text
row_columns [] = []
row_columns ((k, v) ∷ row) = k ∷ row_columns row

unfoldable pub export_csv : Wire → List Row → List (List Text)
export_csv w [] = []
export_csv w (row ∷ rows) =
    row_columns row
    ∷ map (λ r. map (λ col. stringify w (lookup col r)) (row_columns row)) (row ∷ rows)

module _ {S : Type 0} (m : DbManager S) (w : Wire) where
  abbrev finish_export : DbApi S → Text → S × Result (List Row) → DbApi S × Response
  finish_export api format (s, fail e) = (
    with_manager api s,
    json_error_detail 500 (codes "export query failed") (codes "export_query") e,
  )
  finish_export api format (s, ok rows) = (
    with_manager api s,
    respond 200 (if format == codes "csv" then Body.csv (export_csv w rows) else Body.rows rows),
  )

  -- `none` is a request that never ends
  unfoldable pub handle_export :
      ℕ → DbApi S → S → Request → Text → Text → Option (DbApi S × Response)
  handle_export fuel api s r db_id table =
      let role = resolve_role api (principal_from_request r.debug_principal) table db_id in
      let limit = export_limit (r.query (codes "limit")) in
      if not (allow role (codes "row.read"))
      then some (api, forbidden)
      else (elim (export_loop m api.org_id db_id table role limit fuel s [] []) [
        | none ↦ none
        | some end ↦ some (finish_export api (r.query (codes "format")) end)
      ])

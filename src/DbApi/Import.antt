-- ===== src/DbApi/Import.antt =====
-- The import branch of `handleTables`: decoding, column mapping, the dry run and the insertion.
use guild_net.Prelude.{
  ℕ, Bool, ◌||◌, not, none, some, List, [], ◌∷◌, ◌++◌, Text, codes, is_empty, text_eq_inst, ◌==◌,
  if◌then◌else◌, length, take, Assoc, lookup, insert, map,
}
use guild_net.Prelude.Strings.{trim_space, has_prefix, contains}
use guild_net.Json.{str, arr, obj, Row, to_row}
use guild_net.Model.{ColumnDef}
use guild_net.Rbac.{allow, principal_from_request}
use guild_net.Metrics.{inc_op}
use guild_net.Http.{
  post, Request, ImportPreviewRow, Body, Response, respond, json_error, json_error_detail,
  forbidden,
}
use guild_net.DbManager.{ok, fail, DbManager}
use guild_net.Wire.{ImportReq, Wire}
use guild_net.DbApi.{
  DbApi, resolve_role, with_manager, schema_of, tables_or_nil, object_rows, validate_type,
}
use guild_net.DbApi.Rows.{not_allowed}

-- `normalize`: columns renamed by the mapping, in the order of the row
unfoldable pub rename_columns : Assoc Text Text → Row → Row → Row
rename_columns mapping [] out = out
rename_columns mapping ((k, v) ∷ row) out = rename_columns mapping row (elim (lookup k mapping) [
  | some to ↦ if is_empty to then insert k v out else insert to v out
  | none ↦ insert k v out
])

abbrev pub normalize : Assoc Text Text → Row → Row
normalize [] row = row
normalize (entry ∷ mapping) row = rename_columns (entry ∷ mapping) row []

-- one record of a CSV under its head; a longer head has no value for its last columns
unfoldable pub csv_row : List Text → List Text → Row → Row
csv_row [] rec out = out
csv_row (col ∷ head) [] out = out
csv_row (col ∷ head) (v ∷ rec) out = csv_row head rec (insert col (str v) out)

abbrev pub csv_rows : List Text → List (List Text) → List Row
csv_rows head [] = []
csv_rows head ([] ∷ records) = csv_rows head records
csv_rows head ((v ∷ rec) ∷ records) = csv_row head (v ∷ rec) [] ∷ csv_rows head records

-- the variables `rows`, `dryRun` and `mapping` once the body is decoded
pub record Batch : Type 0 where
  pub rows : List Row
  pub dry_run : Bool
  pub mapping : Assoc Text Text

-- either the decoded body or the response that ends the request
pub data Decoded : Type 0 where
  batch : Batch → Decoded
  refuse : Response → Decoded

-- the loop of the preview over the schema: the mapped cells and the errors of one row
unfoldable pub check_columns : Wire → List ColumnDef → Row → Row → List Text → Row × List Text
check_columns w [] mapped out errs = (out, errs)
check_columns w (col ∷ schema) mapped out errs =
    let next : Row × List Text = elim (lookup col.name mapped) [
      | none ↦ (out, if col.required then errs ++ (codes "missing:" ++ col.name) ∷ [] else errs)
      | some val ↦ (
        insert col.name val out,
        if validate_type w col.col_type val then errs else errs ++ (codes "type:" ++ col.name) ∷ [],
      )
    ] in
    check_columns w schema mapped next.0 next.1

unfoldable pub preview_row : Wire → Assoc Text Text → List ColumnDef → Row → ImportPreviewRow
preview_row w mapping schema row =
    let (mapped, errs) = check_columns w schema (normalize mapping row) [] [] in
    record { raw = row; mapped = mapped; errors = errs }

abbrev pub preview_cap : ℕ
preview_cap = 50

module _ (w : Wire) where
  unfoldable pub decode_csv : Text → Bool → Decoded
  decode_csv body dry_run = elim (w.csv_records body) [
    | fail e ↦ refuse (json_error_detail 400 (codes "csv parse failed") (codes "csv_parse") e)
    | ok records ↦ elim records [
      | [] ↦ refuse (json_error 400 (codes "empty csv") (codes "empty_csv"))
      | head ∷ lines ↦
          batch (record { rows = csv_rows head lines; dry_run = dry_run; mapping = [] })
    ]
  ]

  -- the wrapper object: `rows` is an object or an array of objects
  unfoldable pub decode_wrapper : ImportReq → Bool → Decoded
  decode_wrapper req dry_run =
      let dry = req.dry || dry_run in
      let mapping : Assoc Text Text = elim req.mapping [ some mp ↦ mp | none ↦ [] ] in
      elim req.rows [
        | arr vs ↦ batch (record { rows = object_rows vs; dry_run = dry; mapping = mapping })
        | obj ms ↦ batch (record { rows = to_row ms ∷ []; dry_run = dry; mapping = mapping })
        | _ ↦ refuse (json_error 400 (codes "rows must be object or array") (codes "bad_rows"))
      ]

  unfoldable pub decode_json : Text → Bool → Decoded
  decode_json body dry_run =
      let trimmed = trim_space body in
      if is_empty trimmed
      then refuse (json_error 400 (codes "empty body") (codes "empty_body"))
      else (if has_prefix (codes "{") trimmed
          then (elim (w.import_req body) [
            | fail e ↦ refuse (json_error_detail 400 (codes "invalid json") (codes "bad_json") e)
            | ok req ↦ decode_wrapper req dry_run
          ])
          else (if has_prefix (codes "[") trimmed
              then (elim (w.any_rows body) [
                | fail e ↦
                    refuse (json_error_detail 400 (codes "invalid json array") (codes "bad_json") e)
                | ok rows ↦ batch (record { rows = rows; dry_run = dry_run; mapping = [] })
              ])
              else refuse (json_error 400 (codes "unsupported body") (codes "unsupported_body"))))

  unfoldable pub decode_import : Request → Decoded
  decode_import r =
      let dry_run = r.query (codes "dry_run") == codes "1" in
      if contains r.content_type (codes "text/csv")
      then decode_csv r.body dry_run
      else decode_json r.body dry_run

module _ {S : Type 0} (m : DbManager S) (w : Wire) where
  -- a dry run shows at most fifty rows and writes none
  unfoldable pub run_import :
      DbApi S → S → List ColumnDef → Text → Text → Batch → DbApi S × Response
  run_import api s schema db_id table b =
      if b.dry_run
      then (
        with_manager api s,
        respond 200 (
            Body.preview (map (preview_row w b.mapping schema) (take preview_cap b.rows))
              (length b.rows) b.mapping),
      )
      else (let (s', res) =
            m.insert_rows s api.org_id db_id table (map (normalize b.mapping) b.rows) in
          elim res [
            | fail e ↦ (
              with_manager api s',
              json_error_detail 500 (codes "import failed") (codes "import_failed") e,
            )
            | ok ids ↦ (
              record api {
                manager = some s';
                ops = inc_op api.org_id table (codes "import") 0 api.ops;
              },
              respond 200 (Body.inserted ids),
            )
          ])

  unfoldable pub handle_import : DbApi S → S → Request → Text → Text → DbApi S × Response
  handle_import api s r db_id table =
      let role = resolve_role api (principal_from_request r.debug_principal) table db_id in
      if not (allow role (codes "row.write")) then (api, forbidden) else elim r.method [
        | post ↦
            (let (s', tbls) = m.get_tables s api.org_id db_id in
              elim (decode_import w r) [
                | refuse response ↦ (with_manager api s', response)
                | batch b ↦ run_import api s' (schema_of table (tables_or_nil tbls)) db_id table b
              ])
        | _ ↦ (api, not_allowed)
      ]

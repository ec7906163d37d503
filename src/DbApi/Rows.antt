-- ===== src/DbApi/Rows.antt =====
-- `handleRows`: listing, inserting, changing and deleting the rows of a table.
use guild_net.Prelude.{
  true, Option, none, some, List, [], ◌∷◌, Text, codes, is_empty, if◌then◌else◌,
}
use guild_net.Json.{Json, arr, obj, Row, to_row}
use guild_net.Model.{Role}
use guild_net.Rbac.{allow, principal_from_request}
use guild_net.Metrics.{inc_op}
use guild_net.Http.{
  get, post, patch, delete, Request, Body, Response, respond, json_error, json_error_detail,
  forbidden,
}
use guild_net.DbManager.{Result, ok, fail, DbManager}
use guild_net.Wire.{Wire}
use guild_net.DbApi.{
  DbApi, resolve_role, with_manager, schema_of, tables_or_nil, mask_rows, object_rows,
}

abbrev pub not_allowed : Response
not_allowed = respond 405 Body.no_body

module _ {S : Type 0} (m : DbManager S) (w : Wire) where
  -- GET: the schema is read after the rows, and its failure leaves nothing to mask.
  unfoldable pub show_page :
      DbApi S → S → Role → Text → Text → Result (List Row × Text) → DbApi S × Response
  show_page api s role db_id table (fail e) =
      (api, json_error_detail 500 (codes "query failed") (codes "query_failed") e)
  show_page api s role db_id table (ok (rows, next)) =
      let (s', tbls) = m.get_tables s api.org_id db_id in
      (
        with_manager api s',
        respond 200 (Body.page (mask_rows role (schema_of table (tables_or_nil tbls)) rows) next),
      )

  unfoldable pub list_rows : DbApi S → S → Role → Text → Text → Text → DbApi S × Response
  list_rows api s role db_id table cursor =
      show_page api s role db_id table
        (m.query_rows s api.org_id db_id table (codes "id") 50 cursor true)

  -- the payload of a POST: one object, or an array of which the objects are taken
  abbrev payload_rows : Json → Option (List Row)
  payload_rows (obj ms) = some (to_row ms ∷ [])
  payload_rows (arr vs) = some (object_rows vs)
  payload_rows _ = none

  unfoldable pub insert_payload : DbApi S → S → Text → Text → List Row → DbApi S × Response
  insert_payload api s db_id table rows =
      let (s', res) = m.insert_rows s api.org_id db_id table rows in
      elim res [
        | fail e ↦ (
          with_manager api s',
          json_error_detail 500 (codes "insert failed") (codes "insert_failed") e,
        )
        | ok ids ↦ (
          record api {
            manager = some s';
            ops = inc_op api.org_id table (codes "insert") 0 api.ops;
          },
          respond 201 (Body.inserted ids),
        )
      ]

  unfoldable pub create_rows : DbApi S → S → Text → Text → Text → DbApi S × Response
  create_rows api s db_id table body = elim (w.any_value body) [
    | none ↦ (api, json_error 400 (codes "invalid json") (codes "bad_json"))
    | some payload ↦ elim (payload_rows payload) [
      | none ↦ (api, json_error 400 (codes "unsupported payload") (codes "bad_payload"))
      | some rows ↦ insert_payload api s db_id table rows
    ]
  ]

  -- the collection path
  unfoldable pub handle_row_collection : DbApi S → S → Request → Text → Text → DbApi S × Response
  handle_row_collection api s r db_id table =
      let role = resolve_role api (principal_from_request r.debug_principal) table db_id in
      elim r.method [
        | get ↦
            if allow role (codes "row.read")
            then list_rows api s role db_id table (r.query (codes "cursor"))
            else (api, forbidden)
        | post ↦
            if allow role (codes "row.write")
            then create_rows api s db_id table r.body
            else (api, forbidden)
        | _ ↦ (api, not_allowed)
      ]

  unfoldable pub update_item : DbApi S → S → Text → Text → Text → Text → DbApi S × Response
  update_item api s db_id table row_id body = elim (w.any_row body) [
    | none ↦ (api, json_error 400 (codes "invalid json") (codes "bad_json"))
    | some changes ↦
        (let (s', err) = m.update_row s api.org_id db_id table row_id changes in
          (
            with_manager api s',
            elim err [
              | some e ↦ json_error_detail 500 (codes "update failed") (codes "update_failed") e
              | none ↦ respond 200 (Body.updated row_id)
            ],
          ))
  ]

  unfoldable pub delete_item : DbApi S → S → Text → Text → Text → DbApi S × Response
  delete_item api s db_id table row_id =
      let (s', err) = m.delete_row s api.org_id db_id table row_id in
      (
        with_manager api s',
        elim err [
          | some e ↦ json_error_detail 500 (codes "delete failed") (codes "delete_failed") e
          | none ↦ respond 200 (Body.deleted row_id)
        ],
      )

  -- the item path
  unfoldable pub handle_row_item : DbApi S → S → Request → Text → Text → Text → DbApi S × Response
  handle_row_item api s r db_id table row_id =
      let role = resolve_role api (principal_from_request r.debug_principal) table db_id in
      if is_empty row_id
      then (api, json_error 400 (codes "missing id") (codes "missing_id"))
      else elim r.method [
        | patch ↦
            if allow role (codes "row.write")
            then update_item api s db_id table row_id r.body
            else (api, forbidden)
        | delete ↦
            if allow role (codes "row.write")
            then delete_item api s db_id table row_id
            else (api, forbidden)
        | _ ↦ (api, not_allowed)
      ]

  unfoldable pub handle_rows : DbApi S → S → Request → Text → Text → List Text → DbApi S × Response
  handle_rows api s r db_id table [] = handle_row_collection api s r db_id table
  handle_rows api s r db_id table (row_id ∷ rest) = handle_row_item api s r db_id table row_id

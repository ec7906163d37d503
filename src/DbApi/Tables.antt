-- ===== src/DbApi/Tables.antt =====
-- `handleTables`: the tables of a database, and the routes below one of them.
use guild_net.Prelude.{
  ℕ, Option, none, some, List, [], ◌∷◌, Text, codes, is_empty, text_eq_inst, ◌==◌, if◌then◌else◌,
}
use guild_net.Prelude.Strings.{trim_space}
use guild_net.Model.{Table}
use guild_net.Rbac.{allow, principal_from_request}
use guild_net.Http.{
  get, post, patch, delete, Request, Body, Response, respond, json_error, json_error_detail,
  forbidden, unavailable,
}
use guild_net.DbManager.{ok, fail, DbManager}
use guild_net.Wire.{TableReq, Wire}
use guild_net.DbApi.{DbApi, resolve_role, with_manager, tables_or_nil}
use guild_net.DbApi.Rows.{not_allowed, handle_rows}
use guild_net.DbApi.Import.{handle_import}
use guild_net.DbApi.Export.{handle_export}

abbrev pub not_found : Response
not_found = respond 404 Body.no_body

unfoldable pub find_table : Text → List Table → Option Table
find_table name [] = none
find_table name (t ∷ tbls) = if t.name == name then some t else find_table name tbls

module _ {S : Type 0} (m : DbManager S) (w : Wire) where
  unfoldable pub list_tables : DbApi S → S → Text → DbApi S × Response
  list_tables api s db_id =
      let (s', res) = m.get_tables s api.org_id db_id in
      (
        with_manager api s',
        elim res [
          | fail e ↦ json_error_detail 500 (codes "list tables failed") (codes "list_failed") e
          | ok tbls ↦ respond 200 (Body.tables tbls)
        ],
      )

  abbrev pub new_table : TableReq → Table
  new_table req = record {
    id = req.name;
    database_id = [];
    name = req.name;
    primary_key = req.primary_key;
    ttl = 0;
    schema = req.schema;
    created_at = [];
  }

  unfoldable pub create_table : DbApi S → S → Text → Text → DbApi S × Response
  create_table api s db_id body = elim (w.table_req body) [
    | none ↦ (api, json_error 400 (codes "invalid table spec") (codes "invalid_spec"))
    | some req ↦
        if is_empty (trim_space req.name)
        then (api, json_error 400 (codes "invalid table spec") (codes "invalid_spec"))
        else (let (s', err) = m.create_table s api.org_id db_id (new_table req) in
            (
              with_manager api s',
              elim err [
                | some e ↦
                    json_error_detail 500 (codes "table create failed") (codes "create_failed") e
                | none ↦ respond 201 (Body.table (new_table req))
              ],
            ))
  ]

  unfoldable pub handle_table_collection : DbApi S → S → Request → Text → DbApi S × Response
  handle_table_collection api s r db_id = elim r.method [
    | get ↦ list_tables api s db_id
    | post ↦
        if allow (resolve_role api (principal_from_request r.debug_principal) [] db_id)
          (codes "table.create")
        then create_table api s db_id r.body
        else (api, forbidden)
    | _ ↦ (api, not_allowed)
  ]

  unfoldable pub show_table : DbApi S → S → Text → Text → DbApi S × Response
  show_table api s db_id table =
      let (s', res) = m.get_tables s api.org_id db_id in
      (
        with_manager api s',
        elim (find_table table (tables_or_nil res)) [
          | some t ↦ respond 200 (Body.table t)
          | none ↦ json_error 404 (codes "table not found") (codes "not_found")
        ],
      )

  unfoldable pub change_schema : DbApi S → S → Text → Text → Text → DbApi S × Response
  change_schema api s db_id table body = elim (w.schema_req body) [
    | none ↦ (api, json_error 400 (codes "invalid schema") (codes "invalid_schema"))
    | some req ↦ elim req.schema [
      | [] ↦ (api, json_error 400 (codes "invalid schema") (codes "invalid_schema"))
      | col ∷ cols ↦
          (let (s', err) =
              m.update_table_schema s api.org_id db_id table (col ∷ cols) req.primary_key in
            (
              with_manager api s',
              elim err [
                | some e ↦
                    json_error_detail 500 (codes "schema update failed") (codes "schema_failed") e
                | none ↦ respond 200 (Body.updated table)
              ],
            ))
    ]
  ]

  unfoldable pub handle_table_item : DbApi S → S → Request → Text → Text → DbApi S × Response
  handle_table_item api s r db_id table =
      let role = resolve_role api (principal_from_request r.debug_principal) table db_id in
      elim r.method [
        | get ↦ show_table api s db_id table
        | patch ↦
            if allow role (codes "table.schema")
            then change_schema api s db_id table r.body
            else (api, forbidden)
        | delete ↦
            if allow role (codes "table.delete")
            then (api, json_error 400 (codes "delete not implemented") (codes "not_implemented"))
            else (api, forbidden)
        | _ ↦ (api, not_allowed)
      ]

  -- the routes /rows, /views, /import and /export of a table; `none` is an export that never ends
  unfoldable pub handle_table_route :
      ℕ → DbApi S → S → Request → Text → Text → Text → List Text → Option (DbApi S × Response)
  handle_table_route fuel api s r db_id table section rest =
      if section == codes "rows"
      then some (handle_rows m w api s r db_id table rest)
      else (if section == codes "views"
          then some (api, respond 200 Body.views)
          else (if section == codes "import"
              then some (handle_import m w api s r db_id table)
              else (if section == codes "export"
                  then handle_export m w fuel api s r db_id table
                  else some (api, not_found))))

  unfoldable pub handle_tables_at :
      ℕ → DbApi S → S → Request → Text → List Text → Option (DbApi S × Response)
  handle_tables_at fuel api s r db_id [] = some (handle_table_collection api s r db_id)
  handle_tables_at fuel api s r db_id (table ∷ []) = some (handle_table_item api s r db_id table)
  handle_tables_at fuel api s r db_id (table ∷ (section ∷ rest)) =
      handle_table_route fuel api s r db_id table section rest

  unfoldable pub handle_tables :
      ℕ → DbApi S → Request → Text → List Text → Option (DbApi S × Response)
  handle_tables fuel api r db_id rest = elim api.manager [
    | none ↦ some (api, unavailable)
    | some s ↦ handle_tables_at fuel api s r db_id rest
  ]

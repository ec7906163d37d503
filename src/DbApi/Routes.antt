-- ===== src/DbApi/Routes.antt =====
-- `handleDatabases`, `handleDatabaseSubroutes` and the routes that `Register` attaches.
use guild_net.Prelude.{
  ℕ, ◌&&◌, ◌||◌, not, Option, none, some, List, [], ◌∷◌, ◌++◌, Text, codes, is_empty, text_eq_inst,
  ◌==◌, if◌then◌else◌, Assoc,
}
use guild_net.Prelude.Strings.{trim_space, trim_prefix, has_prefix, split}
use guild_net.Model.{PermissionBinding, role_maintainer}
use guild_net.Rbac.{RbacStore, grant, revoke, role_for, allow, db_scope, principal_from_request}
use guild_net.Http.{
  get, post, patch, delete, Request, Body, Response, respond, json_error, json_error_detail,
  forbidden, unavailable,
}
use guild_net.DbManager.{ok, fail, DbManager}
use guild_net.Wire.{DatabaseReq, Wire}
use guild_net.DbApi.{DbApi, Env, ensure_manager, resolve_role, with_manager}
use guild_net.DbApi.Rows.{not_allowed}
use guild_net.DbApi.Tables.{not_found, handle_tables}

-- the bindings of every scope, in the order of the map
abbrev pub all_bindings : Assoc Text (List PermissionBinding) → List PermissionBinding
all_bindings [] = []
all_bindings ((scope, arr) ∷ m) = arr ++ all_bindings m

module _ {S : Type 0} (m : DbManager S) (w : Wire) where
  unfoldable pub list_databases : DbApi S → DbApi S × Response
  list_databases api = elim api.manager [
    | none ↦ (api, respond 200 (Body.databases []))
    | some s ↦
        (let (s', res) = m.list_databases s api.org_id in
          (
            with_manager api s',
            elim res [
              | fail e ↦ json_error_detail 500 (codes "list failed") (codes "list_failed") e
              | ok dbs ↦ respond 200 (Body.databases dbs)
            ],
          ))
  ]

  -- the creator becomes maintainer of the new database
  abbrev auto_grant : Text → Text → Text → RbacStore → RbacStore
  auto_grant principal id now rbac =
      if is_empty (trim_space principal)
      then rbac
      else grant
          (record {
            principal = principal;
            scope = db_scope id;
            role = role_maintainer;
            created_at = now;
          })
          rbac

  unfoldable pub create_at : DbApi S → S → Text → Text → DatabaseReq → DbApi S × Response
  create_at api s now principal req =
      let name : Text = (if is_empty (trim_space req.name) then req.id else req.name) in
      let (s', res) = m.create_database s api.org_id req.id name req.description in
      elim res [
        | fail e ↦ (
          with_manager api s',
          json_error_detail 500 (codes "database create failed") (codes "db_create_failed") e,
        )
        | ok inst ↦ (
          record api { manager = some s'; rbac = auto_grant principal req.id now api.rbac },
          respond 201 (Body.database inst),
        )
      ]

  unfoldable pub create_database : DbApi S → Text → Text → Text → DbApi S × Response
  create_database api now principal body =
      let req = w.database_req body in
      if not (is_empty principal)
        && not (allow (role_for principal [] api.org_id api.rbac) (codes "db.create"))
      then (api, forbidden)
      else (if is_empty (trim_space req.id)
          then (api, json_error 400 (codes "missing id") (codes "invalid_id"))
          else (elim api.manager [
            | none ↦ (api, unavailable)
            | some s ↦ create_at api s now principal req
          ]))

  unfoldable pub handle_databases : Env S → DbApi S → Request → DbApi S × Response
  handle_databases env api0 r =
      let api = ensure_manager env api0 in
      elim r.method [
        | get ↦ list_databases api
        | post ↦ create_database api env.now (principal_from_request r.debug_principal) r.body
        | _ ↦ (api, not_allowed)
      ]

  -- /api/db/:dbId; no branch asks for the principal
  unfoldable pub handle_database : DbApi S → Request → Text → DbApi S × Response
  handle_database api r db_id = elim r.method [
    | get ↦ elim api.manager [
      | none ↦ (api, unavailable)
      | some s ↦ elim (m.get_database s api.org_id db_id) [
        | fail e ↦ (api, json_error 404 (codes "database not found") (codes "not_found"))
        | ok info ↦ (api, respond 200 (Body.database info))
      ]
    ]
    | patch ↦ (api, json_error 400 (codes "update not implemented") (codes "not_implemented"))
    | delete ↦ elim api.manager [
      | none ↦ (api, unavailable)
      | some s ↦
          (let (s', err) = m.delete_database s api.org_id db_id in
            (
              with_manager api s',
              elim err [
                | some e ↦ json_error_detail 500 (codes "delete failed") (codes "delete_failed") e
                | none ↦ respond 200 (Body.deleted db_id)
              ],
            ))
    ]
    | _ ↦ (api, not_allowed)
  ]

  -- the audit route calls the manager without a test for nil
  unfoldable pub handle_audit : DbApi S → Text → DbApi S × Response
  handle_audit api db_id = elim api.manager [
    | none ↦ (api, respond 0 Body.aborted)
    | some s ↦ elim (m.list_audit s api.org_id db_id 200) [
      | fail e ↦ (api, json_error_detail 500 (codes "audit list failed") (codes "audit_failed") e)
      | ok evs ↦ (api, respond 200 (Body.events evs))
    ]
  ]

  unfoldable pub grant_permission : DbApi S → Text → Text → DbApi S × Response
  grant_permission api now body = elim (w.binding_req body) [
    | none ↦ (api, json_error 400 (codes "invalid permission") (codes "invalid_perm"))
    | some req ↦
        if is_empty (trim_space req.principal) || is_empty (trim_space req.scope)
        then (api, json_error 400 (codes "invalid permission") (codes "invalid_perm"))
        else (let b : PermissionBinding = record req { created_at = now } in
            (record api { rbac = grant b api.rbac }, respond 201 (Body.binding b)))
  ]

  unfoldable pub revoke_permission : DbApi S → Text → Text → DbApi S × Response
  revoke_permission api scope who =
      if is_empty (trim_space scope) || is_empty (trim_space who)
      then (api, json_error 400 (codes "missing scope/principal") (codes "invalid_perm"))
      else (record api { rbac = revoke scope who api.rbac }, respond 200 Body.revoked)

  unfoldable pub handle_permissions : Env S → DbApi S → Request → Text → DbApi S × Response
  handle_permissions env api r db_id =
      let role = resolve_role api (principal_from_request r.debug_principal) [] db_id in
      elim r.method [
        | get ↦ (api, respond 200 (Body.bindings (all_bindings api.rbac.bindings)))
        | post ↦
            if allow role (codes "table.schema")
            then grant_permission api env.now r.body
            else (api, forbidden)
        | delete ↦
            if allow role (codes "table.schema")
            then revoke_permission api (r.query (codes "scope")) (r.query (codes "principal"))
            else (api, forbidden)
        | _ ↦ (api, not_allowed)
      ]

  unfoldable pub handle_section :
      ℕ → Env S → DbApi S → Request → Text → Text → List Text → Option (DbApi S × Response)
  handle_section fuel env api r db_id section rest =
      if section == codes "tables"
      then handle_tables m w fuel api r db_id rest
      else (if section == codes "audit"
          then some (handle_audit api db_id)
          else (if section == codes "permissions"
              then some (handle_permissions env api r db_id)
              else some (api, not_found)))

  -- by the parts of the path behind /api/db/
  unfoldable pub handle_parts :
      ℕ → Env S → DbApi S → Request → List Text → Option (DbApi S × Response)
  handle_parts fuel env api r [] = some (api, not_found)
  handle_parts fuel env api r ([] ∷ rest) = some (api, not_found)
  handle_parts fuel env api r ((c ∷ db_id) ∷ []) = some (handle_database api r (c ∷ db_id))
  handle_parts fuel env api r ((c ∷ db_id) ∷ (section ∷ rest)) =
      handle_section fuel env api r (c ∷ db_id) section rest

  unfoldable pub handle_database_subroutes :
      ℕ → Env S → DbApi S → Request → Option (DbApi S × Response)
  handle_database_subroutes fuel env api0 r =
      let api = ensure_manager env api0 in
      let tail = trim_prefix (codes "/api/db/") r.path in
      if is_empty tail then some (api, not_found) else handle_parts fuel env api r (split b'/' tail)

  -- the health route of `Register`
  unfoldable pub handle_health : Env S → DbApi S → DbApi S × Response
  handle_health env api0 =
      let api = ensure_manager env api0 in
      (
        api,
        respond 200 (elim api.manager [
          | none ↦ elim env.connect [
            | ok s ↦ Body.health (codes "ok") env.addr none
            | fail e ↦ Body.health (codes "unavailable") env.addr (some e)
          ]
          | some s ↦ elim (m.ping s) [
            | none ↦ Body.health (codes "ok") env.addr none
            | some e ↦ Body.health (codes "unavailable") env.addr (some e)
          ]
        ]),
      )

  -- `Register`: the mux takes the longest pattern that fits
  unfoldable pub serve : ℕ → Env S → DbApi S → Request → Option (DbApi S × Response)
  serve fuel env api r =
      if r.path == codes "/api/db/health"
      then some (handle_health env api)
      else (if has_prefix (codes "/api/db/") r.path
          then handle_database_subroutes fuel env api r
          else (if r.path == codes "/api/db"
              then some (handle_databases env api r)
              else some (api, not_found)))

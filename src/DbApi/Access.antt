-- ===== src/DbApi/Access.antt =====
-- Who may change what through the database API.
use guild_net.Prelude.{
  ℕ, ◌≤◌, Bool, true, false, Option, none, some, List, [], ◌∷◌, ◌≡◌, ◌≢◌, refl, ◌⊎◌, inl, inr, Text,
  codes, is_empty, text_eq, text_eq_iff, text_eq_inst, ◌==◌, arith, Bool-cases,
}
use guild_net.Prelude.Strings.{trim_space}
use guild_net.Model.{Role, PermissionBinding}
use guild_net.Rbac.{allow, principal_from_request}
use guild_net.Rbac.Actions.{rank, level, allow-eq-leb}
use guild_net.Rbac.Bindings.{binding_role, binding_role-grant}
use guild_net.Http.{get, post, delete, Request, Body, Response}
use guild_net.DbManager.{DbManager}
use guild_net.Wire.{Wire}
use guild_net.DbApi.{DbApi, Env, resolve_role, with_manager}
use guild_net.DbApi.Rows.{handle_rows, handle_row_collection, handle_row_item}
use guild_net.DbApi.Import.{handle_import}
use guild_net.DbApi.Export.{handle_export}
use guild_net.DbApi.Tables.{
  handle_tables_at, handle_table_collection, handle_table_item, handle_table_route, list_tables,
  show_table,
}
use guild_net.DbApi.Routes.{handle_database, handle_permissions, grant_permission}

-- The bodies that hand out rows or tell of rows written.
abbrev pub carries_rows : Body → Bool
carries_rows (Body.page rows next) = true
carries_rows (Body.rows rows) = true
carries_rows (Body.csv lines) = true
carries_rows (Body.inserted ids) = true
carries_rows (Body.preview rows n mapping) = true
carries_rows (Body.updated id) = true
carries_rows (Body.deleted id) = true
carries_rows _ = false

-- The role permits nothing that the table routes ask for.
record IsPowerless (role : Role) : Type 0 where
  read : allow role (codes "row.read") ≡ false
  write : allow role (codes "row.write") ≡ false
  create : allow role (codes "table.create") ≡ false
  schema : allow role (codes "table.schema") ≡ false
  drop : allow role (codes "table.delete") ≡ false

refused_of_rank :
    (role : Role) (action : Text) → rank role ≡ 0 → 1 ≤ level action → allow role action ≡ false
refused_of_rank role action h l = ground (arith, allow-eq-leb role action)

IsPowerless-of_rank : (role : Role) → rank role ≡ 0 → IsPowerless role
unfolding text_eq
IsPowerless-of_rank role h = record {
  read = refused_of_rank role (codes "row.read") h (omega arith);
  write = refused_of_rank role (codes "row.write") h (omega arith);
  create = refused_of_rank role (codes "table.create") h (omega arith);
  schema = refused_of_rank role (codes "table.schema") h (omega arith);
  drop = refused_of_rank role (codes "table.delete") h (omega arith);
}

module _ {S : Type 0} (m : DbManager S) (w : Wire) where
  -- The request ends; the API is as before, but for the calls of `GetTables` that listing makes;
  -- and the answer carries no rows.
  abbrev pub IsBlocked : DbApi S → S → Text → Option (DbApi S × Response) → Type 0
  IsBlocked api s db_id none = ⊥
  IsBlocked api s db_id (some (api', response)) =
      ((api' ≡ api) ⊎ (api' ≡ with_manager api (m.get_tables s api.org_id db_id).0))
      × (carries_rows response.body ≡ false)

  module _ (api : DbApi S) (s : S) (r : Request) (db_id : Text) where
    abbrev role_on : Text → Role
    role_on table = resolve_role api (principal_from_request r.debug_principal) table db_id

    rows-IsBlocked :
        (table : Text) (rest : List Text)
        → IsPowerless (role_on table)
        → IsBlocked api s db_id (some (handle_rows m w api s r db_id table rest))
    unfolding handle_rows handle_row_collection handle_row_item
    rows-IsBlocked table [] h = ground arith
    rows-IsBlocked table (row_id ∷ rest) h = ground arith

    import-IsBlocked :
        (table : Text)
        → IsPowerless (role_on table)
        → IsBlocked api s db_id (some (handle_import m w api s r db_id table))
    unfolding handle_import
    import-IsBlocked table h = ground arith

    export-IsBlocked :
        (fuel : ℕ) (table : Text)
        → IsPowerless (role_on table)
        → IsBlocked api s db_id (handle_export m w fuel api s r db_id table)
    unfolding handle_export
    export-IsBlocked fuel table h = rw h.read (inl refl, refl)

    collection-IsBlocked :
        IsPowerless (role_on [])
        → IsBlocked api s db_id (some (handle_table_collection m w api s r db_id))
    unfolding handle_table_collection list_tables
    collection-IsBlocked h = ground arith

    item-IsBlocked :
        (table : Text)
        → IsPowerless (role_on table)
        → IsBlocked api s db_id (some (handle_table_item m w api s r db_id table))
    unfolding handle_table_item show_table
    item-IsBlocked table h = ground arith

    route-IsBlocked :
        (fuel : ℕ) (table section : Text) (rest : List Text)
        → IsPowerless (role_on table)
        → IsBlocked api s db_id (handle_table_route m w fuel api s r db_id table section rest)
    unfolding handle_table_route
    route-IsBlocked fuel table section rest h = elim (Bool-cases (section == codes "rows")) [
      | inl rows ↦ rw rows (rows-IsBlocked table rest h)
      | inr no_rows ↦ elim (Bool-cases (section == codes "views")) [
        | inl views ↦ rw (no_rows, views) (inl refl, refl)
        | inr no_views ↦ elim (Bool-cases (section == codes "import")) [
          | inl import ↦ rw (no_rows, no_views, import) (import-IsBlocked table h)
          | inr no_import ↦ elim (Bool-cases (section == codes "export")) [
            | inl export ↦ rw (no_rows, no_views, no_import, export) (export-IsBlocked fuel table h)
            | inr no_export ↦ rw (no_rows, no_views, no_import, no_export) (inl refl, refl)
          ]
        ]
      ]
    ]

    -- A principal whose resolved role ranks lowest on every table of a database gets no row of it
    -- and writes none: whatever the request below /tables, the state of the API is unchanged but
    -- for the calls of `GetTables`, and the answer carries no rows.
    pub unbound_principal-IsBlocked :
        (fuel : ℕ) (rest : List Text)
        → ((table : Text) → rank (role_on table) ≡ 0)
        → IsBlocked api s db_id (handle_tables_at m w fuel api s r db_id rest)
    unfolding handle_tables_at
    unbound_principal-IsBlocked fuel [] h = collection-IsBlocked (IsPowerless-of_rank _ (h []))
    unbound_principal-IsBlocked fuel (table ∷ []) h =
        item-IsBlocked table (IsPowerless-of_rank _ (h table))
    unbound_principal-IsBlocked fuel (table ∷ (section ∷ rest)) h =
        route-IsBlocked fuel table section rest (IsPowerless-of_rank _ (h table))

    -- A request that would write rows and whose role lacks row.write is refused with an error
    -- status, and leaves the whole state of the API as it was.
    pub row_write_refused :
        (table : Text) (rest : List Text)
        → r.method ≢ get
        → allow (role_on table) (codes "row.write") ≡ false
        → ((handle_rows m w api s r db_id table rest).0 ≡ api)
          × (400 ≤ (handle_rows m w api s r db_id table rest).1.status)
    unfolding handle_rows handle_row_collection handle_row_item
    row_write_refused table [] n h = ground arith
    row_write_refused table (row_id ∷ rest) n h = ground arith

    -- DELETE of a whole database is carried out for every principal: also for one whose role does
    -- not permit the action db.delete, the manager's `DeleteDatabase` is called.
    pub delete_database_unguarded :
        api.manager ≡ some s
        → r.method ≡ delete
        → allow (role_on []) (codes "db.delete") ≡ false
        → (handle_database m w api r db_id).0
          ≡ with_manager api (m.delete_database s api.org_id db_id).0
    unfolding handle_database
    delete_database_unguarded e d h = ground arith

  -- A principal that may change the schema of one database can bind any role for anybody at any
  -- scope, that of another database included: after the POST the requested binding holds.
  grant_permission_any_scope :
      (env : Env S) (api : DbApi S) (r : Request) (db_id : Text) (b : PermissionBinding)
      → r.method ≡ post
      → allow
          (resolve_role api (principal_from_request r.debug_principal) [] db_id)
          (codes "table.schema")
        ≡ true
      → w.binding_req r.body ≡ some b
      → is_empty (trim_space b.principal) ≡ false
      → is_empty (trim_space b.scope) ≡ false
      → binding_role b.scope b.principal (handle_permissions m w env api r db_id).0.rbac
        ≡ some b.role
  unfolding handle_permissions grant_permission
  grant_permission_any_scope env api r db_id b e h q p sc = ground (
    arith,
    binding_role-grant b.scope b.principal (record b { created_at = env.now }) api.rbac,
    text_eq_iff b.scope b.scope,
    text_eq_iff b.principal b.principal,
  )

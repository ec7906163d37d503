-- ===== src/DbApi.antt =====
-- internal/httpx/db_handlers.go: the HTTP handlers of the database API over a `DBManager`. A
-- handler takes the state of the API and returns the new one beside its response.
pub mod Rows
pub mod Import
pub mod Export
pub mod Tables
pub mod Routes
pub mod Cluster
pub mod Access
pub mod Views
use guild_net.Prelude.{
  ℕ, Bool, true, false, Option, none, some, List, [], ◌∷◌, Text, codes, is_empty, text_eq_inst,
  ◌==◌, if◌then◌else◌,
}
use guild_net.Prelude.Strings.{trim_space}
use guild_net.Json.{Json, str, num, Row, Items, none_left, item, obj, to_row}
use guild_net.Model.{
  ColumnDef, ColumnType, col_string, col_number, col_boolean, col_timestamp, col_json, Table, Role,
  role_admin, role_maintainer,
}
use guild_net.Rbac.{RbacStore, new_rbac_store, grant, role_for, mask_row, db_scope}
use guild_net.Metrics.{Ops}
use guild_net.DbManager.{Result, ok, fail, DbManager}
use guild_net.Wire.{Wire}

-- `DBAPI`, with the state behind its manager in place of the interface value: `none` is a nil
-- manager. Every construction of a `DBAPI` gives it an RBAC store.
pub record DbApi (S : Type 0) : Type 0 where
  pub manager : Option S
  pub org_id : Text
  pub rbac : RbacStore
  pub ops : Ops

-- What the surroundings give a request: the outcome of `db.Connect`, the address of
-- `db.AutoDiscoverAddr`, and `model.NowISO()`.
pub record Env (S : Type 0) : Type 0 where
  pub connect : Result S
  pub addr : Text
  pub now : Text

module _ {S : Type 0} where
  -- `ensureManager`
  unfoldable pub ensure_manager : Env S → DbApi S → DbApi S
  ensure_manager env api = elim api.manager [
    | some s ↦ api
    | none ↦ elim env.connect [ ok s ↦ record api { manager = some s } | fail e ↦ api ]
  ]

  -- `roleFor`: table, then database, then organisation; without a principal, admin.
  unfoldable pub resolve_role : DbApi S → Text → Text → Text → Role
  resolve_role api principal table_id db_id =
      if is_empty (trim_space principal)
      then role_admin
      else (let role = role_for principal table_id db_id api.rbac in
          if is_empty role then role_for principal [] api.org_id api.rbac else role)

  -- The API after a call of its manager, which was not nil.
  abbrev pub with_manager : DbApi S → S → DbApi S
  with_manager api s = record api { manager = some s }

-- the lookup loop over `GetTables` that import, export and row listing share; an error of
-- `GetTables` leaves no tables
unfoldable pub schema_of : Text → List Table → List ColumnDef
schema_of name [] = []
schema_of name (t ∷ tbls) = if t.name == name then t.schema else schema_of name tbls

abbrev pub tables_or_nil : Result (List Table) → List Table
tables_or_nil (ok tbls) = tbls
tables_or_nil (fail e) = []

abbrev pub mask_rows : Role → List ColumnDef → List Row → List Row
mask_rows role schema [] = []
mask_rows role schema (row ∷ rows) = mask_row role schema row ∷ mask_rows role schema rows

-- the elements of a JSON array that are objects
abbrev pub object_rows : Items → List Row
object_rows none_left = []
object_rows (item (obj ms) vs) = to_row ms ∷ object_rows vs
object_rows (item _ vs) = object_rows vs

-- `validateType`: of the dynamic types that the switch lists, JSON yields float64 alone
abbrev pub is_str : Json → Bool
is_str (str t) = true
is_str _ = false

abbrev pub is_num : Json → Bool
is_num (num n) = true
is_num _ = false

abbrev pub is_bool : Json → Bool
is_bool (Json.bool b) = true
is_bool _ = false

abbrev pub is_time : Wire → Json → Bool
is_time w (str t) = w.is_rfc3339 t
is_time w _ = false

unfoldable pub validate_type : Wire → ColumnType → Json → Bool
validate_type w t v =
    if t == col_string
    then is_str v
    else (if t == col_number
        then is_num v
        else (if t == col_boolean
            then is_bool v
            else (if t == col_timestamp then is_time w v else true)))

-- `stringify` on the values that JSON yields
unfoldable pub stringify : Wire → Option Json → Text
stringify w none = []
stringify w (some Json.null) = []
stringify w (some (str t)) = t
stringify w (some (num n)) = w.sprint_float n
stringify w (some (Json.bool true)) = codes "true"
stringify w (some (Json.bool false)) = codes "false"
stringify w (some v) = w.marshal v

-- `InitAndRegisterDB`: a fresh API, in which the demo principal maintains the organisation's scope
unfoldable pub init_and_register_db : {S : Type 0} → Option S → Text → Text → DbApi S
init_and_register_db mgr org now =
    let org' : Text = (if is_empty (trim_space org) then codes "default" else org) in
    record {
      manager = mgr;
      org_id = org';
      rbac =
          grant
            (record {
              principal = codes "user:demo";
              scope = db_scope org';
              role = role_maintainer;
              created_at = now;
            })
            new_rbac_store;
      ops = [];
    }

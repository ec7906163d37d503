-- ===== src/Rbac.antt =====
-- internal/httpx/rbac.go: the in-memory permission bindings, the actions that a role permits, and
-- the masking of columns. The mutex makes each method one step; a method returns the new store.
pub mod Bindings
pub mod Actions
pub mod Masking
pub mod Invariant
use guild_net.Prelude.{
  Bool, true, false, ◌&&◌, ◌||◌, not, Option, none, some, List, [], ◌∷◌, ◌++◌, Text, codes,
  is_empty, text_eq_inst, ◌==◌, if◌then◌else◌, Assoc, lookup, insert, delete, has,
}
use guild_net.Prelude.Strings.{trim_space}
use guild_net.Json.{Json, str, Row}
use guild_net.Model.{
  ColumnDef, Role, role_admin, role_maintainer, role_editor, role_viewer, PermissionBinding,
}

pub record RbacStore : Type 0 where
  pub bindings : Assoc Text (List PermissionBinding)

unfoldable pub new_rbac_store : RbacStore
new_rbac_store = record { bindings = [] }

-- `s.bindings[scope]`: a missing key reads as the nil slice
unfoldable pub bindings_of : Text → RbacStore → List PermissionBinding
bindings_of scope s = elim (lookup scope s.bindings) [ some arr ↦ arr | none ↦ [] ]

-- the loop of `Grant`: the first binding of the principal is replaced, or `b` is appended
unfoldable pub grant_into : PermissionBinding → List PermissionBinding → List PermissionBinding
grant_into b [] = b ∷ []
grant_into b (existing ∷ arr) =
    if existing.principal == b.principal then b ∷ arr else existing ∷ grant_into b arr

unfoldable pub grant : PermissionBinding → RbacStore → RbacStore
grant b s = record { bindings = insert b.scope (grant_into b (bindings_of b.scope s)) s.bindings }

-- the loop of `Revoke`
unfoldable pub without_principal : Text → List PermissionBinding → List PermissionBinding
without_principal principal [] = []
without_principal principal (b ∷ arr) =
    let rest = without_principal principal arr in
    if b.principal == principal then rest else b ∷ rest

abbrev pub store_bindings : Text → List PermissionBinding → RbacStore → RbacStore
store_bindings scope [] s = record { bindings = delete scope s.bindings }
store_bindings scope (b ∷ out) s = record { bindings = insert scope (b ∷ out) s.bindings }

unfoldable pub revoke : Text → Text → RbacStore → RbacStore
revoke scope principal s =
    store_bindings scope (without_principal principal (bindings_of scope s)) s

-- the role of the first binding of a principal
unfoldable pub find_role : Text → List PermissionBinding → Option Role
find_role principal [] = none
find_role principal (b ∷ arr) =
    if b.principal == principal then some b.role else find_role principal arr

abbrev pub table_scope : Text → Text
table_scope table_id = codes "table:" ++ table_id

abbrev pub db_scope : Text → Text
db_scope db_id = codes "db:" ++ db_id

-- one of the two loops of `RoleFor`, skipped when its id is empty
unfoldable pub role_at : Text → Text → Text → RbacStore → Option Role
role_at id scope principal s =
    if is_empty id then none else find_role principal (bindings_of scope s)

unfoldable pub role_for : Text → Text → Text → RbacStore → Role
role_for principal table_id db_id s = elim (role_at table_id (table_scope table_id) principal s) [
  | some role ↦ role
  | none ↦ elim (role_at db_id (db_scope db_id) principal s) [ some role ↦ role | none ↦ codes "" ]
]

unfoldable pub allow : Role → Text → Bool
allow role action =
    if role == role_admin
    then true
    else (if action == codes "db.create" || action == codes "db.delete"
        then role == role_maintainer || role == role_admin
        else (if action == codes "table.create"
              || (action == codes "table.schema" || action == codes "table.delete")
            then role == role_maintainer || role == role_admin
            else (if action == codes "row.read"
                then role == role_viewer
                  || (role == role_editor || (role == role_maintainer || role == role_admin))
                else (if action == codes "row.write"
                    then role == role_editor || (role == role_maintainer || role == role_admin)
                    else false))))

abbrev pub masked_value : Json
masked_value = str (codes "***")

-- the loop of `MaskRow` over the schema, on the copy `out`
unfoldable pub mask_columns : Role → List ColumnDef → Row → Row
mask_columns role [] out = out
mask_columns role (c ∷ schema) out = mask_columns role schema (
    if c.mask && (role == role_viewer || role == role_editor) && has c.name out
    then insert c.name masked_value out
    else out)

unfoldable pub mask_row : Role → List ColumnDef → Row → Row
mask_row role schema row =
    if role == role_admin || role == role_maintainer then row else mask_columns role schema row

unfoldable pub principal_from_request : Text → Text
principal_from_request rh = if not (is_empty (trim_space rh)) then rh else codes ""

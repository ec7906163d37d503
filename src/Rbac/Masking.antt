-- ===== src/Rbac/Masking.antt =====
-- `MaskRow` against the set of masked columns.
use guild_net.Prelude.{
  Bool, false, ◌&&◌, ◌||◌, Option, none, some, List, [], ◌∷◌, ◌≡◌, Text, text_eq, text_eq_iff,
  text_eq_inst, ◌==◌, if◌then◌else◌, lookup, insert, has, arith,
}
use guild_net.Prelude.Maps.{lookup-insert}
use guild_net.Json.{Json, Row}
use guild_net.Model.{ColumnDef, Role, role_admin, role_maintainer, role_editor, role_viewer}
use guild_net.Rbac.{masked_value, mask_columns, mask_row}

-- A column of that name is declared masked.
abbrev pub is_hidden : Text → List ColumnDef → Bool
is_hidden name [] = false
is_hidden name (c ∷ schema) = c.mask && c.name == name || is_hidden name schema

abbrev pub is_restricted : Role → Bool
is_restricted role = role == role_viewer || role == role_editor

-- What a masked cell shows: three stars where the row has a value, nothing where it has none.
abbrev pub redact : Option Json → Option Json
redact none = none
redact (some v) = some masked_value

lookup-mask_column :
    (role : Role) (c : ColumnDef) (j : Text) (out : Row)
    → lookup j (
        if c.mask && is_restricted role && has c.name out
        then insert c.name masked_value out
        else out)
      ≡ (if is_restricted role && (c.mask && c.name == j)
          then redact (lookup j out)
          else lookup j out)
unfolding has
lookup-mask_column role c j out =
    ground (arith, lookup-insert c.name j masked_value out, text_eq_iff c.name j)

pub lookup-mask_columns :
    (role : Role) (schema : List ColumnDef) (j : Text) (out : Row)
    → lookup j (mask_columns role schema out)
      ≡ (if is_restricted role && is_hidden j schema then redact (lookup j out) else lookup j out)
unfolding mask_columns
lookup-mask_columns role [] j out = ground arith
lookup-mask_columns role (c ∷ schema) j out =
    let next =
      (if c.mask && is_restricted role && has c.name out
        then insert c.name masked_value out
        else out) in
    ground (arith, lookup-mask_columns role schema j next, lookup-mask_column role c j out)

-- For a viewer or an editor a masked row shows three stars in place of each value that it has in a
-- masked column. Every other cell, and for any other role the whole row, is as it was stored.
pub lookup-mask_row :
    (role : Role) (schema : List ColumnDef) (j : Text) (row : Row)
    → lookup j (mask_row role schema row)
      ≡ (if is_restricted role && is_hidden j schema then redact (lookup j row) else lookup j row)
unfolding mask_row text_eq
lookup-mask_row role schema j row = ground (
  arith,
  lookup-mask_columns role schema j row,
  text_eq_iff role role_admin,
  text_eq_iff role role_maintainer,
)

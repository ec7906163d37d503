-- ===== src/Wire.antt =====
-- The decoders of encoding/json and encoding/csv that the handlers call on a request's body, as
-- operations without laws: every theorem holds whatever a body decodes to.
use guild_net.Prelude.{ℕ, Bool, Option, List, Text, Assoc}
use guild_net.Json.{Json, Row}
use guild_net.Model.{ColumnDef, PermissionBinding}
use guild_net.DbManager.{Result}

-- the anonymous request structs of the handlers
pub record DatabaseReq : Type 0 where
  pub id : Text
  pub name : Text
  pub description : Text

pub record TableReq : Type 0 where
  pub name : Text
  pub schema : List ColumnDef
  pub primary_key : Text

pub record SchemaReq : Type 0 where
  pub schema : List ColumnDef
  pub primary_key : Text

-- the wrapper object of an import; `mapping` is `none` for a nil map
pub record ImportReq : Type 0 where
  pub rows : Json
  pub dry : Bool
  pub mapping : Option (Assoc Text Text)

pub record Wire : Type 0 where
  pub database_req : Text → DatabaseReq
  pub table_req : Text → Option TableReq
  pub schema_req : Text → Option SchemaReq
  pub binding_req : Text → Option PermissionBinding
  pub import_req : Text → Result ImportReq
  pub any_value : Text → Option Json
  pub any_row : Text → Option Row
  pub any_rows : Text → Result (List Row)
  pub csv_records : Text → Result (List (List Text))
  pub is_rfc3339 : Text → Bool
  pub sprint_float : ℕ → Text
  pub marshal : Json → Text

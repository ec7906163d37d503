-- ===== src/Model.antt =====
-- internal/model/db.go: the structs of the database API. The named string types (`Role`,
-- `ColumnType`, `AuditScope`) are strings, since JSON may put any text there.
pub mod Servers
use guild_net.Prelude.{ℕ, Bool, List, Text, codes}
use guild_net.Json.{Json}

pub record DatabaseInstance : Type 0 where
  pub id : Text
  pub org_id : Text
  pub name : Text
  pub description : Text
  pub replication : ℕ
  pub shards : ℕ
  pub primary_region : Text
  pub created_at : Text

abbrev pub ColumnType : Type 0
ColumnType = Text

abbrev pub col_string : ColumnType
col_string = codes "string"

abbrev pub col_number : ColumnType
col_number = codes "number"

abbrev pub col_boolean : ColumnType
col_boolean = codes "boolean"

abbrev pub col_timestamp : ColumnType
col_timestamp = codes "timestamp"

abbrev pub col_json : ColumnType
col_json = codes "json"

pub record ColumnDef : Type 0 where
  pub name : Text
  pub col_type : ColumnType
  pub required : Bool
  pub unique : Bool
  pub indexed : Bool
  pub default : Json
  pub enum : List Text
  pub regex : Text
  pub mask : Bool

pub record Table : Type 0 where
  pub id : Text
  pub database_id : Text
  pub name : Text
  pub primary_key : Text
  pub ttl : ℕ
  pub schema : List ColumnDef
  pub created_at : Text

pub record AuditEvent : Type 0 where
  pub id : Text
  pub scope : Text
  pub scope_id : Text
  pub actor : Text
  pub action : Text
  pub diff : Json
  pub ts : Text

abbrev pub Role : Type 0
Role = Text

abbrev pub role_admin : Role
role_admin = codes "admin"

abbrev pub role_maintainer : Role
role_maintainer = codes "maintainer"

abbrev pub role_editor : Role
role_editor = codes "editor"

abbrev pub role_viewer : Role
role_viewer = codes "viewer"

pub record PermissionBinding : Type 0 where
  pub principal : Text
  pub scope : Text
  pub role : Role
  pub created_at : Text

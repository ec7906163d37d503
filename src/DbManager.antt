-- ===== src/DbManager.antt =====
-- internal/httpx/db_iface.go: the interface `DBManager` that the handlers call, over the state `S`
-- of whatever implements it. A call that may write returns the new state; a failed one returns the
-- error's text.
use guild_net.Prelude.{ℕ, Bool, Option, List, Text}
use guild_net.Json.{Row}
use guild_net.Model.{DatabaseInstance, Table, ColumnDef, AuditEvent}

pub data Result {ℓ} (A : Type ℓ) : Type ℓ where
  fail : Text → Result A
  ok : A → Result A

pub record DbManager (S : Type 0) : Type 0 where
  pub list_databases : S → Text → S × Result (List DatabaseInstance)
  pub create_database : S → Text → Text → Text → Text → S × Result DatabaseInstance
  pub get_database : S → Text → Text → Result DatabaseInstance
  pub delete_database : S → Text → Text → S × Option Text
  pub get_tables : S → Text → Text → S × Result (List Table)
  pub create_table : S → Text → Text → Table → S × Option Text
  pub update_table_schema : S → Text → Text → Text → List ColumnDef → Text → S × Option Text
  pub query_rows : S → Text → Text → Text → Text → ℕ → Text → Bool → Result (List Row × Text)
  pub insert_rows : S → Text → Text → Text → List Row → S × Result (List Text)
  pub update_row : S → Text → Text → Text → Text → Row → S × Option Text
  pub delete_row : S → Text → Text → Text → Text → S × Option Text
  pub list_audit : S → Text → Text → ℕ → Result (List AuditEvent)
  pub ping : S → Option Text

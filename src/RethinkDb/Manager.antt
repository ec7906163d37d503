-- ===== src/RethinkDb/Manager.antt =====
-- The manager on RethinkDB as the interface `DBManager` that the handlers call.
use guild_net.Prelude.{ℕ, suc, Option, [], Text}
use guild_net.Json.{Json}
use guild_net.Model.{Role}
use guild_net.DbManager.{DbManager}
use guild_net.DbApi.Export.{export_loop}
use guild_net.DbApi.Views.{PagesGrow, EndsBounded, export_ends}
use guild_net.RethinkDb.{Driver, query_rows}
use guild_net.RethinkDb.Pages.{query_rows_grow}
use guild_net.RethinkDb.Data.{
  DataDriver, create_table, update_table_schema, get_tables, insert_rows, update_row, delete_row,
  list_audit, list_databases, create_database, get_database, delete_database,
}

module _ {S : Type 0} (stringer : Json → Option Text) (unicode_lower : ℕ → ℕ) (driver : Driver S)
    (d : DataDriver S) where
  abbrev pub rethink_manager : DbManager S
  rethink_manager = record {
    list_databases = list_databases unicode_lower driver d;
    create_database = create_database unicode_lower driver d;
    get_database = get_database unicode_lower driver d;
    delete_database = delete_database unicode_lower driver d;
    get_tables = get_tables unicode_lower driver d;
    create_table = create_table unicode_lower driver d;
    update_table_schema = update_table_schema unicode_lower driver d;
    query_rows = query_rows stringer unicode_lower driver;
    insert_rows = insert_rows unicode_lower driver d;
    update_row = update_row unicode_lower driver d;
    delete_row = delete_row unicode_lower driver d;
    list_audit = list_audit unicode_lower driver d;
    ping = d.ping_session;
  }

  rethink_manager-PagesGrow : PagesGrow rethink_manager
  rethink_manager-PagesGrow = record { page = query_rows_grow stringer unicode_lower driver }

  -- Whatever RethinkDB answers, an export over the manager ends within one round more than its limit
  -- of rows, with an error or with that many rows at most.
  pub export_loop_over_rethink :
      (org db_id table : Text) (role : Role) (limit : ℕ) (s : S)
      → EndsBounded rethink_manager org db_id table role limit
          (export_loop rethink_manager org db_id table role limit (suc limit) s [] [])
  export_loop_over_rethink org db_id table role limit s =
      export_ends rethink_manager org db_id table role limit rethink_manager-PagesGrow s

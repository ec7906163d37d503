-- ===== src/RethinkDb/Data.antt =====
-- internal/db/db.go: the tables, rows, audit records and databases of the manager on RethinkDB. The
-- terms that these methods run are the operations of `DataDriver`; the clock is read from the state.
use guild_net.Prelude.{
  ℕ, zero, suc, Option, none, some, List, [], ◌∷◌, ◌++◌, Text, codes, lookup, any, ◌==◌,
  text_eq_inst, if◌then◌else◌,
}
use guild_net.Prelude.Strings.{to_lower, trim_space, strip_prefix}
use guild_net.Json.{Json, null, str, Row}
use guild_net.Model.{DatabaseInstance, ColumnDef, Table, AuditEvent}
use guild_net.DbManager.{Result, ok, fail}
use guild_net.RethinkDb.{
  db_name, retry_transient, Driver, unless_exists, unless_failed, ensure_meta_tables,
  ensure_database,
}

abbrev pub scope_table : Text
scope_table = codes "table"

abbrev pub scope_row : Text
scope_row = codes "row"

-- `read_info` and `read_schema` give no document where the query or `cur.One` fails; `nano` is the
-- clock in nanoseconds, printed, and `diff_of` what the driver makes of the value of a `Diff`.
pub record DataDriver (S : Type 0) : Type 0 where
  pub db_drop : S → Text → S × Option Text
  pub read_info : S → Text → Option Row
  pub replace_info : S → Text → Row → S × Option Text
  pub read_schema : S → Text → Text → Option Table
  pub scan_schemas : S → Text → Result (List Table)
  pub replace_schema : S → Text → Table → S × Option Text
  pub insert_docs : S → Text → Text → List Row → S × Result (List Text)
  pub update_doc : S → Text → Text → Text → Row → S × Option Text
  pub delete_doc : S → Text → Text → Text → S × Option Text
  pub insert_event : S → Text → AuditEvent → S × Option Text
  pub scan_events : S → Text → ℕ → Result (List AuditEvent)
  pub ping_session : S → Option Text
  pub now_iso : S → Text
  pub nano : S → Text
  pub diff_of_table : Table → Json
  pub diff_of_schema : List ColumnDef → Json
  pub diff_of_keys : List Text → Json
  pub diff_of_patch : Row → Json

abbrev pub or_text : Text → Text → Text
or_text [] other = other
or_text (c ∷ s) other = c ∷ s

-- `if v, ok := meta[k].(string); ok`
abbrev pub text_of : Option Json → Text → Text
text_of (some (str t)) other = t
text_of _ other = other

-- `ok && v != ""`
abbrev pub filled_text_of : Option Json → Text → Text
filled_text_of (some (str t)) other = or_text t other
filled_text_of _ other = other

abbrev pub bare_instance : Text → Text → DatabaseInstance
bare_instance org_id db_id = record {
  id = db_id;
  org_id = org_id;
  name = db_id;
  description = [];
  replication = 0;
  shards = 0;
  primary_region = [];
  created_at = [];
}

-- `DatabaseInstance` as its document in `_info` completes it
abbrev pub with_info : Option Row → DatabaseInstance → DatabaseInstance
with_info none info = info
with_info (some doc) info = record info {
  name = filled_text_of (lookup (codes "name") doc) info.name;
  description = text_of (lookup (codes "description") doc) info.description;
  created_at = text_of (lookup (codes "created_at") doc) info.created_at;
}

module _ {S : Type 0} (unicode_lower : ℕ → ℕ) (driver : Driver S) (d : DataDriver S) where
  unfoldable pub insert_audit : S → Text → Text → AuditEvent → S × Option Text
  insert_audit s org_id db_id ev =
      let dbn = db_name unicode_lower org_id db_id in
      let ev' = record ev { id = or_text ev.id (codes "a-" ++ d.nano s) } in
      unless_failed unicode_lower driver (λ s'. d.insert_event s' dbn ev')
        (ensure_meta_tables unicode_lower driver dbn s)

  -- `_ = m.InsertAudit(…)` after a write without an error
  abbrev pub audited : Text → Text → (S → AuditEvent) → S × Option Text → S × Option Text
  audited org_id db_id ev (s, some e) = (s, some e)
  audited org_id db_id ev (s, none) = ((insert_audit s org_id db_id (ev s)).0, none)

  abbrev pub audit_event : Text → Text → Text → Text → Json → S → AuditEvent
  audit_event id scope scope_id action diff s = record {
    id = id;
    scope = scope;
    scope_id = scope_id;
    actor = codes "system";
    action = action;
    diff = diff;
    ts = d.now_iso s;
  }

  abbrev pub table_audit : Text → Text → Table → S × Option Text → S × Option Text
  table_audit org_id db_id tbl (s, some e) = (s, some e)
  table_audit org_id db_id tbl (s, none) =
      let s' = (ensure_meta_tables unicode_lower driver (db_name unicode_lower org_id db_id) s).0 in
      audited org_id db_id
        (audit_event (tbl.id ++ codes "/schema") scope_table tbl.id (codes "create_table")
          (d.diff_of_table tbl))
        (s', none)

  abbrev pub store_table : Text → Text → Table → S → S × Option Text
  store_table org_id db_id tbl s =
      let dbn = db_name unicode_lower org_id db_id in
      let stored = record tbl { database_id = dbn; created_at = d.now_iso s } in
      table_audit org_id db_id stored (d.replace_schema s dbn stored)

  abbrev pub create_both : Text → Text → Table → S → S × Option Text
  create_both org_id db_id tbl s =
      let dbn = db_name unicode_lower org_id db_id in
      unless_failed unicode_lower driver (store_table org_id db_id tbl) (
        unless_failed unicode_lower driver
          (λ s'.
            unless_exists unicode_lower driver
              (driver.table_create s' dbn (codes "_schemas") (codes "id")))
          (unless_exists unicode_lower driver (driver.table_create s dbn tbl.name tbl.primary_key)))

  unfoldable pub create_table : S → Text → Text → Table → S × Option Text
  create_table s org_id db_id tbl =
      let tbl' = record tbl { primary_key = or_text tbl.primary_key (codes "id") } in
      unless_failed unicode_lower driver (create_both org_id db_id tbl')
        (ensure_database unicode_lower driver s org_id db_id)

  abbrev pub created_at_of : Option Table → Text
  created_at_of none = []
  created_at_of (some tbl) = tbl.created_at

  unfoldable pub update_table_schema :
      S → Text → Text → Text → List ColumnDef → Text → S × Option Text
  update_table_schema s org_id db_id table schema primary_key =
      let dbn = db_name unicode_lower org_id db_id in
      let updated : Table = record {
        id = table;
        database_id = dbn;
        name = table;
        primary_key = or_text primary_key (codes "id");
        ttl = 0;
        schema = schema;
        created_at = or_text (created_at_of (d.read_schema s dbn table)) (d.now_iso s);
      } in
      audited org_id db_id
        (λ s'.
          audit_event (table ++ (codes "/" ++ (d.nano s' ++ codes "/schema"))) scope_table table
            (codes "update_schema") (d.diff_of_schema schema) s')
        (d.replace_schema s dbn updated)

  abbrev pub tables_after : Text → S × Option Text → S × Result (List Table)
  tables_after dbn (s, some e) = (s, fail e)
  tables_after dbn (s, none) = (s, d.scan_schemas s dbn)

  unfoldable pub get_tables : S → Text → Text → S × Result (List Table)
  get_tables s org_id db_id =
      tables_after (db_name unicode_lower org_id db_id)
        (ensure_database unicode_lower driver s org_id db_id)

  abbrev pub inserted : Text → Text → Text → S × Result (List Text) → S × Result (List Text)
  inserted org_id db_id table (s, fail e) = (s, fail e)
  inserted org_id db_id table (s, ok keys) =
      let ev =
        audit_event (table ++ (codes "/" ++ d.nano s)) scope_table table (codes "insert")
          (d.diff_of_keys keys) s in
      ((insert_audit s org_id db_id ev).0, ok keys)

  unfoldable pub insert_rows : S → Text → Text → Text → List Row → S × Result (List Text)
  insert_rows s org_id db_id table [] = (s, ok [])
  insert_rows s org_id db_id table (row ∷ rows) =
      inserted org_id db_id table
        (d.insert_docs s (db_name unicode_lower org_id db_id) table (row ∷ rows))

  unfoldable pub update_row : S → Text → Text → Text → Text → Row → S × Option Text
  update_row s org_id db_id table id patch =
      audited org_id db_id
        (audit_event (table ++ (codes "/" ++ (id ++ codes "/upd"))) scope_row id (codes "update")
          (d.diff_of_patch patch))
        (d.update_doc s (db_name unicode_lower org_id db_id) table id patch)

  unfoldable pub delete_row : S → Text → Text → Text → Text → S × Option Text
  delete_row s org_id db_id table id =
      audited org_id db_id
        (audit_event (table ++ (codes "/" ++ (id ++ codes "/del"))) scope_row id (codes "delete")
          null)
        (d.delete_doc s (db_name unicode_lower org_id db_id) table id)

  abbrev pub audit_limit : ℕ → ℕ
  audit_limit zero = 200
  audit_limit (suc n) = suc n

  unfoldable pub list_audit : S → Text → Text → ℕ → Result (List AuditEvent)
  list_audit s org_id db_id limit =
      d.scan_events s (db_name unicode_lower org_id db_id) (audit_limit limit)

  unfoldable pub list_prefix : Text → Text
  list_prefix org_id = codes "org_" ++ (to_lower unicode_lower (trim_space org_id) ++ codes "__")

  -- a name without the prefix is passed over; an error of TableCreate is ignored
  abbrev pub add_named :
      Text → Text → (S → S × List DatabaseInstance) → S → Option Text → S × List DatabaseInstance
  add_named org_id name rest s none = rest s
  add_named org_id name rest s (some db_id) =
      let s' = (driver.table_create s name (codes "_info") (codes "id")).0 in
      let (s'', found) = rest s' in
      (s'', with_info (d.read_info s' name) (bare_instance org_id db_id) ∷ found)

  unfoldable pub list_named : Text → List Text → S → S × List DatabaseInstance
  list_named org_id [] s = (s, [])
  list_named org_id (name ∷ names) s =
      add_named org_id name (list_named org_id names) s (strip_prefix (list_prefix org_id) name)

  abbrev pub listed_of : Text → S × Result (List Text) → S × Result (List DatabaseInstance)
  listed_of org_id (s, fail e) = (s, fail e)
  listed_of org_id (s, ok names) = let (s', found) = list_named org_id names s in (s', ok found)

  unfoldable pub list_databases : S → Text → S × Result (List DatabaseInstance)
  list_databases s org_id = listed_of org_id (driver.db_list s)

  abbrev pub created_instance :
      Text → Text → Text → Text → Text → S × Option Text → S × Result DatabaseInstance
  created_instance org_id db_id name description at (s, some e) = (s, fail e)
  created_instance org_id db_id name description at (s, none) = (
    s,
    ok (record (bare_instance org_id db_id) {
      name = name;
      description = description;
      created_at = at;
    }),
  )

  abbrev pub write_info : Text → Text → Text → Text → S × Option Text → S × Result DatabaseInstance
  write_info org_id db_id name description (s, some e) = (s, fail e)
  write_info org_id db_id name description (s, none) =
      let doc : Row =
        (codes "id", str (codes "db"))
        ∷ (codes "name", str name)
        ∷ (codes "description", str description)
        ∷ (codes "created_at", str (d.now_iso s))
        ∷ [] in
      created_instance org_id db_id name description (d.now_iso s) (
        retry_transient unicode_lower 5
          (λ s'. d.replace_info s' (db_name unicode_lower org_id db_id) doc) s)

  unfoldable pub create_database : S → Text → Text → Text → Text → S × Result DatabaseInstance
  create_database s org_id db_id name description = write_info org_id db_id name description (
      unless_failed unicode_lower driver
        (ensure_meta_tables unicode_lower driver (db_name unicode_lower org_id db_id))
        (ensure_database unicode_lower driver s org_id db_id))

  unfoldable pub database_named : S → Text → Text → Result (List Text) → Result DatabaseInstance
  database_named s org_id db_id (fail e) = fail e
  database_named s org_id db_id (ok names) =
      let dbn = db_name unicode_lower org_id db_id in
      if any (λ n. n == dbn) names
      then ok (with_info (d.read_info s dbn) (bare_instance org_id db_id))
      else fail (codes "not found")

  -- The interface records no state after a read, so that of `db_list` is not kept here.
  unfoldable pub get_database : S → Text → Text → Result DatabaseInstance
  get_database s org_id db_id = database_named s org_id db_id (driver.db_list s).1

  unfoldable pub delete_database : S → Text → Text → S × Option Text
  delete_database s org_id db_id = d.db_drop s (db_name unicode_lower org_id db_id)

-- ===== src/Tests/Records.antt =====
-- The databases and the audit over a driver that keeps the events of one audit table.
use guild_net.Prelude.{
  Bool, true, false, Option, none, some, List, [], ◌∷◌, ◌++◌, ◌≡◌, refl, ◌⊎◌, inl, inr, Text, codes,
  any, ◌==◌, text_eq_inst,
}
use guild_net.Json.{null, str, Row}
use guild_net.Model.{AuditEvent, role_viewer}
use guild_net.DbManager.{ok}
use guild_net.DbApi.Export.{export_loop}
use guild_net.DbApi.Views.{EndsBounded}
use guild_net.RethinkDb.{Driver}
use guild_net.RethinkDb.Data.{DataDriver}
use guild_net.RethinkDb.Manager.{rethink_manager, export_loop_over_rethink}
use guild_net.RethinkDb.Audit.{AuditLaws}
use guild_net.Tests.Database.{same, no_stringer}

abbrev Events : Type 0
Events = List AuditEvent

abbrev events_driver : Driver Events
events_driver = record {
  db_list = λ s. (s, ok (codes "rethinkdb" ∷ codes "org_acme__lab" ∷ []));
  db_create = λ s name. (s, ok tt);
  table_create = λ s dbn table pk. (s, none);
  run_rows = λ s term. ok [];
}

abbrev insert_if_new : Events → AuditEvent → Bool → Events × Option Text
insert_if_new s ev true = (s, some (codes "Duplicate primary key"))
insert_if_new s ev false = (s ++ ev ∷ [], none)

abbrev events_data : DataDriver Events
events_data = record {
  db_drop = λ s dbn. (s, none);
  read_info = λ s dbn. some ((codes "name", str (codes "Lab")) ∷ []);
  replace_info = λ s dbn doc. (s, none);
  read_schema = λ s dbn table. none;
  scan_schemas = λ s dbn. ok [];
  replace_schema = λ s dbn tbl. (s, none);
  insert_docs = λ s dbn table rows. (s, ok []);
  update_doc = λ s dbn table id patch. (s, none);
  delete_doc = λ s dbn table id. (s, none);
  insert_event = λ s dbn ev. insert_if_new s ev (any (λ e. e.id == ev.id) s);
  scan_events = λ s dbn n. ok s;
  ping_session = λ s. none;
  now_iso = λ s. codes "2026-01-01T00:00:00Z";
  nano = λ s. codes "1";
  diff_of_table = λ tbl. null;
  diff_of_schema = λ schema. null;
  diff_of_keys = λ keys. null;
  diff_of_patch = λ patch. null;
}

events_once :
    (s : Events) (ev : AuditEvent) (known : Bool)
    → any (λ e. e.id == ev.id) s ≡ known
    → ((insert_if_new s ev known).0 ≡ s)
      ⊎ ((any (λ e. e.id == ev.id) s ≡ false) × ((insert_if_new s ev known).0 ≡ s ++ ev ∷ []))
events_once s ev true h = inl refl
events_once s ev false h = inr (h, refl)

abbrev events_laws : AuditLaws events_driver events_data
events_laws = record {
  events = λ s dbn. s;
  insert_once = λ s dbn ev. events_once s ev (any (λ e. e.id == ev.id) s) refl;
  update_keeps = λ s dbn table id dbn' patch. refl;
  create_keeps = λ s dbn table pk dbn'. refl;
}

abbrev first_update : AuditEvent
first_update = record {
  id = codes "books/b1/upd";
  scope = codes "row";
  scope_id = codes "b1";
  actor = codes "system";
  action = codes "update";
  diff = null;
  ts = codes "2026-01-01T00:00:00Z";
}

abbrev patches : List Row
patches =
    ((codes "title", str (codes "Emma")) ∷ [])
    ∷ ((codes "title", str (codes "Persuasion")) ∷ [])
    ∷ []

export_loop_over_rethink_example :
    EndsBounded
      (rethink_manager no_stringer same events_driver events_data)
      (codes "acme")
      (codes "lab")
      (codes "books")
      role_viewer
      5
      (export_loop
        (rethink_manager no_stringer same events_driver events_data)
        (codes "acme")
        (codes "lab")
        (codes "books")
        role_viewer
        5
        6
        []
        []
        [])
export_loop_over_rethink_example =
    export_loop_over_rethink no_stringer same events_driver events_data (codes "acme") (codes "lab")
      (codes "books") role_viewer 5 []

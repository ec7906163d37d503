-- ===== src/RethinkDb/Audit.antt =====
-- What the audit of a database holds after updates of one row.
use guild_net.Prelude.{
  ℕ, zero, suc, true, false, Option, none, some, List, [], ◌∷◌, ◌++◌, ◌≡◌, refl, ◌∙◌, ◌⊎◌, inl, inr,
  Text, codes, any, ◌==◌, text_eq_inst, Bool-cases,
}
use guild_net.Prelude.Strings.{contains}
use guild_net.Json.{Row}
use guild_net.Model.{AuditEvent}
use guild_net.RethinkDb.{
  db_name, is_retried, after_try, retry_loop, retry_transient, Driver, unless_exists,
  create_meta_table, unless_failed, make_meta_table, ensure_meta_tables,
}
use guild_net.RethinkDb.Data.{
  scope_row, DataDriver, or_text, insert_audit, audited, audit_event, update_row,
}

-- `events` is the audit table of a database. An insertion without a conflict option fails on an id that
-- is there, and an insertion that fails adds nothing; the other terms leave the table alone.
pub record AuditLaws {S : Type 0} (driver : Driver S) (d : DataDriver S) : Type 0 where
  pub events : S → Text → List AuditEvent
  pub insert_once :
      (s : S) (dbn : Text) (ev : AuditEvent)
      → (events (d.insert_event s dbn ev).0 dbn ≡ events s dbn)
        ⊎ ((any (λ x. x.id == ev.id) (events s dbn) ≡ false)
            × (events (d.insert_event s dbn ev).0 dbn ≡ events s dbn ++ ev ∷ []))
  pub update_keeps :
      (s : S) (dbn table id dbn' : Text) (patch : Row)
      → events (d.update_doc s dbn table id patch).0 dbn' ≡ events s dbn'
  pub create_keeps :
      (s : S) (dbn table pk dbn' : Text)
      → events (driver.table_create s dbn table pk).0 dbn' ≡ events s dbn'

-- A view of the state that no attempt changes is not changed by the retries.
module _ (unicode_lower : ℕ → ℕ) {S V : Type 0} (view : S → V) (fn : S → S × Option Text)
    (keeps : (s : S) → view (fn s).0 ≡ view s) where
  view-after_try :
      (rest : S × Option Text → S × Option Text) (r : S × Option Text)
      → ((p : S × Option Text) → view (rest p).0 ≡ view p.0)
      → view (after_try unicode_lower rest r).0 ≡ view r.0
  view-after_try rest (s, none) h = refl
  view-after_try rest (s, some e) h = elim (Bool-cases (is_retried unicode_lower e)) [
    | inl again ↦ rw again (h (s, some e))
    | inr final ↦ rw final refl
  ]

  view-retry_loop :
      (n : ℕ) (p : S × Option Text) → view (retry_loop unicode_lower n fn p).0 ≡ view p.0
  unfolding retry_loop
  view-retry_loop zero p = refl
  view-retry_loop (suc n) (s, err) =
      view-after_try (retry_loop unicode_lower n fn) (fn s) (view-retry_loop n) ∙ keeps s

  pub view-retry_transient :
      (n : ℕ) (s : S) → view (retry_transient unicode_lower n fn s).0 ≡ view s
  unfolding retry_transient
  view-retry_transient n s = view-retry_loop _ (s, none)

module _ {S : Type 0} (unicode_lower : ℕ → ℕ) {driver : Driver S} {d : DataDriver S}
    (laws : AuditLaws driver d) where
  events-unless_exists :
      (r : S × Option Text) (dbn : Text)
      → laws.events (unless_exists unicode_lower driver r).0 dbn ≡ laws.events r.0 dbn
  events-unless_exists (s, none) dbn = refl
  events-unless_exists (s, some e) dbn = elim (Bool-cases (contains e (codes "already exists"))) [
    | inl exists ↦ rw exists refl
    | inr other ↦ rw other refl
  ]

  events-make_meta_table :
      (dbn table dbn' : Text) (s : S)
      → laws.events (make_meta_table unicode_lower driver dbn table s).0 dbn' ≡ laws.events s dbn'
  unfolding create_meta_table
  events-make_meta_table dbn table dbn' s =
      view-retry_transient unicode_lower (λ t. laws.events t dbn')
        (create_meta_table unicode_lower driver dbn table)
        (λ t.
          events-unless_exists (driver.table_create t dbn table (codes "id")) dbn'
          ∙ laws.create_keeps t dbn table (codes "id") dbn')
        5 s

  events-unless_failed :
      (next : S → S × Option Text) (r : S × Option Text) (dbn : Text)
      → laws.events (next r.0).0 dbn ≡ laws.events r.0 dbn
      → laws.events (unless_failed unicode_lower driver next r).0 dbn ≡ laws.events r.0 dbn
  events-unless_failed next (s, none) dbn h = h
  events-unless_failed next (s, some e) dbn h = refl

  events-ensure_meta_tables :
      (dbn dbn' : Text) (s : S)
      → laws.events (ensure_meta_tables unicode_lower driver dbn s).0 dbn' ≡ laws.events s dbn'
  unfolding ensure_meta_tables
  events-ensure_meta_tables dbn dbn' s =
      let make = make_meta_table unicode_lower driver dbn in
      let schemas = make (codes "_schemas") s in
      events-unless_failed (make (codes "_info"))
        (unless_failed unicode_lower driver (make (codes "_audit")) schemas) dbn'
        (events-make_meta_table dbn (codes "_info") dbn' _)
      ∙ (events-unless_failed (make (codes "_audit")) schemas dbn'
            (events-make_meta_table dbn (codes "_audit") dbn' schemas.0)
          ∙ events-make_meta_table dbn (codes "_schemas") dbn' s)

  -- an event with the id is recorded
  abbrev IsRecorded : Text → Text → S → Type 0
  IsRecorded dbn id s = any (λ e. e.id == id) (laws.events s dbn) ≡ true

  events-insert_event :
      (dbn : Text) (ev : AuditEvent) (s : S)
      → IsRecorded dbn ev.id s
      → laws.events (d.insert_event s dbn ev).0 dbn ≡ laws.events s dbn
  events-insert_event dbn ev s h = elim (laws.insert_once s dbn ev) [
    | inl same ↦ same
    | inr (new, added) ↦ cc
  ]

  events-insert_audit :
      (s : S) (org_id db_id : Text) (ev : AuditEvent)
      → ((other : Text) → or_text ev.id other ≡ ev.id)
      → IsRecorded (db_name unicode_lower org_id db_id) ev.id s
      → laws.events
          (insert_audit unicode_lower driver d s org_id db_id ev).0
          (db_name unicode_lower org_id db_id)
        ≡ laws.events s (db_name unicode_lower org_id db_id)
  unfolding insert_audit
  events-insert_audit s org_id db_id ev filled h =
      let dbn = db_name unicode_lower org_id db_id in
      let ready = ensure_meta_tables unicode_lower driver dbn s in
      let ev' : AuditEvent = record ev { id = or_text ev.id (codes "a-" ++ d.nano s) } in
      let kept = events-ensure_meta_tables dbn dbn s in
      let there : IsRecorded dbn ev'.id ready.0 = rw (filled (codes "a-" ++ d.nano s), kept) h in
      events-unless_failed (λ s'. d.insert_event s' dbn ev') ready dbn
        (events-insert_event dbn ev' ready.0 there)
      ∙ kept

  -- updates of one row, one behind the other
  abbrev pub update_each : Text → Text → Text → Text → S → List Row → S
  update_each org_id db_id table id s [] = s
  update_each org_id db_id table id s (patch ∷ patches) =
      update_each org_id db_id table id
        (update_row unicode_lower driver d s org_id db_id table id patch).0 patches

  abbrev pub update_id : Text → Text → Text
  update_id table id = table ++ (codes "/" ++ (id ++ codes "/upd"))

  filled_id : (table id other : Text) → or_text (update_id table id) other ≡ update_id table id
  filled_id [] id other = refl
  filled_id (c ∷ table) id other = refl

  events-audited :
      (org_id db_id table id : Text) (ev : S → AuditEvent) (r : S × Option Text)
      → ((s : S) → (ev s).id ≡ update_id table id)
      → IsRecorded (db_name unicode_lower org_id db_id) (update_id table id) r.0
      → laws.events
          (audited unicode_lower driver d org_id db_id ev r).0
          (db_name unicode_lower org_id db_id)
        ≡ laws.events r.0 (db_name unicode_lower org_id db_id)
  events-audited org_id db_id table id ev (s, some e) named h = refl
  events-audited org_id db_id table id ev (s, none) named h =
      events-insert_audit s org_id db_id (ev s) (λ other. rw (named s) (filled_id table id other))
        (rw (named s) h)

  events-update_row :
      (s : S) (org_id db_id table id : Text) (patch : Row)
      → IsRecorded (db_name unicode_lower org_id db_id) (update_id table id) s
      → laws.events
          (update_row unicode_lower driver d s org_id db_id table id patch).0
          (db_name unicode_lower org_id db_id)
        ≡ laws.events s (db_name unicode_lower org_id db_id)
  unfolding update_row
  events-update_row s org_id db_id table id patch h =
      let dbn = db_name unicode_lower org_id db_id in
      let written = d.update_doc s dbn table id patch in
      let kept = laws.update_keeps s dbn table id dbn patch in
      events-audited org_id db_id table id
        (audit_event unicode_lower driver d (update_id table id) scope_row id (codes "update")
          (d.diff_of_patch patch))
        written (λ t. refl) (rw kept h)
      ∙ kept

  -- Once an update of a row is recorded in the audit, no further update of that row is: whatever the
  -- patches are, and though every update may succeed, the audit stays as it is.
  events-update_each :
      (s : S) (org_id db_id table id : Text) (patches : List Row)
      → any (λ e. e.id == update_id table id) (laws.events s (db_name unicode_lower org_id db_id))
        ≡ true
      → laws.events
          (update_each org_id db_id table id s patches)
          (db_name unicode_lower org_id db_id)
        ≡ laws.events s (db_name unicode_lower org_id db_id)
  events-update_each s org_id db_id table id [] h = refl
  events-update_each s org_id db_id table id (patch ∷ patches) h =
      let kept = events-update_row s org_id db_id table id patch h in
      let s' = (update_row unicode_lower driver d s org_id db_id table id patch).0 in
      events-update_each s' org_id db_id table id patches (rw kept h) ∙ kept

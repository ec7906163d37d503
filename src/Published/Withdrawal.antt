-- ===== src/Published/Withdrawal.antt =====
-- What is left of a published service once it was deleted.
use mathlib.Core.Path.{subst}
use guild_net.Prelude.{
  true, false, Bool-cases, inl, inr, sym, Option, none, some, List, [], ◌∷◌, ◌≡◌, refl, ap, ◌∙◌,
  Text, ◌==◌, text_eq_inst, lookup, if◌then◌else◌,
}
use guild_net.Prelude.Maps.{lookup-delete, lookup-insert}
use guild_net.DbManager.{Result, ok, fail}
use guild_net.LocalDb.Rows.{stored-put_value}
use guild_net.LocalDb.{Sql, SqlLaws, same_key, delete_value}
use guild_net.Published.{
  PublishedService, PublishedListener, World, Network, ServiceCodec, published_collection,
  service_key, listened, save_if, unless_published, publish, unpublish, forget_row, accept_step,
  close_or_delete, delete_service, delete_if,
}

-- Accept of a listener that was closed returns an error.
pub record NetworkLaws {E T L : Type 0} (net : Network E T L) : Type 0 where
  pub closed_fails : (e : E) (ln : L) → net.accept_fails (net.close e ln) ln ≡ true

-- the service has no row, and every other row is as in `s`
abbrev pub IsForgotten :
    {S B : Type 0} {sql : Sql S B} → SqlLaws sql → Text → Text → S → Option S → Type 0
IsForgotten laws cluster service s none = ⊥
IsForgotten laws cluster service s (some s') =
    (c j : Text)
    → laws.stored s' c j ≡ (
        if same_key published_collection (service_key cluster service) c j
        then none
        else laws.stored s c j)

module _ {E S B D K T M L : Type 0} {sql : Sql S B} (laws : SqlLaws sql) (codec : ServiceCodec B)
    (net : Network E T L) (cluster service : Text) where
  -- Calls that publish the service: the connector, the local port and the time of each.
  abbrev pub publish_each : List (T × Text × Text) → World E S D K T M L → World E S D K T M L
  publish_each [] w = w
  publish_each ((ts, port, now) ∷ calls) w =
      publish_each calls (publish sql codec net w ts cluster service port now)

  publish_each-live :
      (calls : List (T × Text × Text)) (w : World E S D K T M L) (pl : PublishedListener L)
      → lookup (service_key cluster service) w.published_map ≡ some pl
      → publish_each calls w ≡ w
  unfolding publish
  publish_each-live [] w pl live = refl
  publish_each-live ((ts, port, now) ∷ calls) w pl live =
      ap (λ o. publish_each calls (unless_published sql codec net w ts cluster service port now o))
        live
      ∙ publish_each-live calls w pl live

  delete_service-live :
      (w : World E S D K T M L) (pl : PublishedListener L)
      → lookup (service_key cluster service) w.published_map ≡ some pl
      → (delete_service sql codec net w cluster service).0
        ≡ record w { env = net.close w.env pl.ln }
  unfolding delete_service
  delete_service-live w pl live =
      ap (λ o. (close_or_delete sql codec net w (service_key cluster service) o).0) live

  -- another row, and another listener, than those of the service
  abbrev KeepsOthers : World E S D K T M L → S → Option S → Type 0
  KeepsOthers w s none = ⊥
  KeepsOthers w s (some s') =
      (c j : Text)
      → same_key published_collection (service_key cluster service) c j ≡ false
      → laws.stored s' c j ≡ laws.stored s c j

  abbrev IsApart : World E S D K T M L → S → World E S D K T M L → Type 0
  IsApart w s w' =
      ((j : Text)
        → (service_key cluster service == j) ≡ false
        → lookup j w'.published_map ≡ lookup j w.published_map)
      × KeepsOthers w s w'.db

  listened-IsApart :
      (w0 : World E S D K T M L) (s0 : S) (w : World E S D K T M L) (now : Text) (db : Option S)
      (r : E × Result (L × Text))
      → w.db ≡ db
      → IsApart w0 s0 w
      → IsApart w0 s0 (listened sql codec net w cluster service now r)
  listened-IsApart w0 s0 w now db (e, fail err) at h = h
  listened-IsApart w0 s0 w now none (e, ok (ln, addr)) at (maps, rows) =
      absurd (subst (KeepsOthers w0 s0) at rows)
  listened-IsApart w0 s0 w now (some s) (e, ok (ln, addr)) at (maps, rows) =
      let key = service_key cluster service in
      let ps : PublishedService = record {
        cluster_id = cluster;
        service = service;
        addr = addr;
        added_at = now;
      } in
      let rows' : KeepsOthers w0 s0 (some s) = subst (KeepsOthers w0 s0) at rows in
      (
        (λ j other. lookup-insert key j _ w.published_map ∙ (rw other (maps j other))),
        subst (λ o. KeepsOthers w0 s0 (save_if sql codec o key ps)) (sym at)
            (λ c j other.
              stored-put_value laws codec.marshal s published_collection key ps c j other
              ∙ rows' c j other),
      )

  unless_published-IsApart :
      (w0 : World E S D K T M L) (s0 : S) (w : World E S D K T M L) (ts : T) (port now : Text)
      (o : Option (PublishedListener L))
      → IsApart w0 s0 w
      → IsApart w0 s0 (unless_published sql codec net w ts cluster service port now o)
  unless_published-IsApart w0 s0 w ts port now (some pl) h = h
  unless_published-IsApart w0 s0 w ts port now none h =
      listened-IsApart w0 s0 w now w.db (net.listen w.env ts (b':' ∷ port)) refl h

  publish_each-IsApart :
      (w0 : World E S D K T M L) (s0 : S) (calls : List (T × Text × Text)) (w : World E S D K T M L)
      → IsApart w0 s0 w
      → IsApart w0 s0 (publish_each calls w)
  unfolding publish
  publish_each-IsApart w0 s0 [] w h = h
  publish_each-IsApart w0 s0 ((ts, port, now) ∷ calls) w h =
      publish_each-IsApart w0 s0 calls _ (unless_published-IsApart w0 s0 w ts port now _ h)

  delete_if-IsForgotten :
      (w : World E S D K T M L) (s : S) (db : Option S)
      → ((s : S) (c k : Text) → (sql.delete_kv s c k).1 ≡ none)
      → KeepsOthers w s db
      → IsForgotten laws cluster service s (delete_if sql codec db (service_key cluster service))
  unfolding delete_value
  delete_if-IsForgotten w s none deletes rows = rows
  delete_if-IsForgotten w s (some s1) deletes rows = λ c j.
      let key = service_key cluster service in
      laws.delete_removes s1 (sql.delete_kv s1 published_collection key).0 published_collection key
        c j
        (ap (λ e. ((sql.delete_kv s1 published_collection key).0, e))
          (deletes s1 published_collection key))
      ∙ (elim (Bool-cases (same_key published_collection key c j)) [
        | inl same ↦ rw same refl
        | inr other ↦ rw other (rows c j other)
      ])

  -- A DELETE of a service that has a listener closes this, so that its accept loop ends. Calls that
  -- publish the service before that change nothing, and are lost: the map then has every other
  -- listener as before and none for the service. Calls that publish it after that, but before the
  -- loop has deleted the row, lose their row: the database then has every other row as before the
  -- DELETE and none for the service, and the map every other listener, if no Delete of a row fails.
  pub accept_step-delete_service :
      NetworkLaws net
      → (deletes : (s : S) (c k : Text) → (sql.delete_kv s c k).1 ≡ none) (w : World E S D K T M L)
        (s : S) (pl : PublishedListener L) (before after : List (T × Text × Text))
      → w.db ≡ some s
      → lookup (service_key cluster service) w.published_map ≡ some pl
      → let key = service_key cluster service in
        let closed = (delete_service sql codec net w cluster service).0 in
        (publish_each before closed ≡ closed)
        × ((w1 : World E S D K T M L) × (accept_step sql codec net
                (publish_each before closed)
                key
                pl.ln
              ≡ some w1)
            × ((j : Text)
                → lookup j w1.published_map ≡ (if key == j then none else lookup j w.published_map))
            × ((j : Text)
                → (key == j) ≡ false
                → lookup j (forget_row sql codec net (publish_each after w1) key).published_map
                  ≡ lookup j w.published_map)
            × IsForgotten laws cluster service s
                (forget_row sql codec net (publish_each after w1) key).db)
  unfolding accept_step unpublish forget_row
  accept_step-delete_service net_laws deletes w s pl before after db live =
      let key = service_key cluster service in
      let closed : World E S D K T M L = record w { env = net.close w.env pl.ln } in
      let w1 : World E S D K T M L = unpublish sql codec net closed key pl.ln in
      let deleted = delete_service-live w pl live in
      let lost : publish_each before closed ≡ closed = publish_each-live before closed pl live in
      let removed : (j : Text)
          → lookup j w1.published_map ≡ (if key == j then none else lookup j w.published_map) =
        λ j. lookup-delete key j w.published_map in
      let apart : IsApart w s w1 = (
        (λ j other. removed j ∙ (rw other refl)),
        subst (KeepsOthers w s) (sym db) (λ c j other. refl),
      ) in
      let (maps, rows) = publish_each-IsApart w s after w1 apart in
      (
        ap (publish_each before) deleted ∙ lost ∙ sym deleted,
        (
          w1,
          ap (λ v. accept_step sql codec net (publish_each before v) key pl.ln) deleted
              ∙ ap (λ v. accept_step sql codec net v key pl.ln) lost
              ∙ ap (λ b. if b then some w1 else none) (net_laws.closed_fails w.env pl.ln),
          removed,
          maps,
          delete_if-IsForgotten w s _ deletes rows,
        ),
      )

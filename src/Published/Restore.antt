-- ===== src/Published/Restore.antt =====
-- What the start of the host restores.
use guild_net.Prelude.{
  Bool-cases, Option, none, some, List, [], ◌∷◌, ◌≡◌, refl, sym, ap, ◌∙◌, inl, inr, Text, ◌==◌,
  text_eq_inst, text_eq_iff, lookup, ◌⊎◌,
}
use guild_net.Prelude.Maps.{lookup-insert}
use guild_net.DbManager.{Result, ok, fail}
use guild_net.LocalDb.{Sql}
use guild_net.ClusterRegistry.{Instance, Registry, Builder, get_instance}
use guild_net.Published.{
  PublishedService, PublishedListener, World, Network, ServiceCodec, service_key, list_published,
}
use guild_net.Published.Mappings.{
  restored_listener, unless_live, with_connector, of_instance, restore_one, restore_each,
  restore_list, restore_from, restore_published_mappings, or_port,
}

abbrev key_of : {L : Type 0} → Option (PublishedListener L) → Text
key_of none = []
key_of (some pl) = service_key pl.cluster_id pl.service

module _ {E S B D K T M L : Type 0} (sql : Sql S B) (codec : ServiceCodec B)
    (net : Network E T L) where
  -- the database and every listener are as before, and a new listener stands under the key of its
  -- cluster and service
  abbrev pub IsRestored : World E S D K T M L → World E S D K T M L → Type 0
  IsRestored w w' =
      (w'.db ≡ w.db)
      × ((j : Text) (pl : PublishedListener L)
          → lookup j w.published_map ≡ some pl
          → lookup j w'.published_map ≡ some pl)
      × ((j : Text) (pl : PublishedListener L)
          → lookup j w'.published_map ≡ some pl
          → (lookup j w.published_map ≡ some pl) ⊎ (j ≡ service_key pl.cluster_id pl.service))

  IsRestored-refl : (w : World E S D K T M L) → IsRestored w w
  IsRestored-refl w = (refl, (λ j pl h. h), (λ j pl h. inl h))

  IsRestored-trans :
      (w1 w2 w3 : World E S D K T M L) → IsRestored w1 w2 → IsRestored w2 w3 → IsRestored w1 w3
  IsRestored-trans w1 w2 w3 (db, keeps, keyed) (db', keeps', keyed') = (
    db' ∙ db,
    (λ j pl h. keeps' j pl (keeps j pl h)),
    (λ j pl h. elim (keyed' j pl h) [ inl before ↦ keyed j pl before | inr key ↦ inr key ]),
  )

  restored_listener-IsRestored :
      (w : World E S D K T M L) (p : PublishedService) (r : E × Result (L × Text))
      → lookup (service_key p.cluster_id p.service) w.published_map ≡ none
      → IsRestored w (restored_listener sql codec net w p r)
  restored_listener-IsRestored w p (e, fail err) free = (refl, (λ j pl h. h), (λ j pl h. inl h))
  restored_listener-IsRestored w p (e, ok (ln, addr)) free =
      let key = service_key p.cluster_id p.service in
      let new : PublishedListener L = record {
        cluster_id = p.cluster_id;
        service = p.service;
        addr = addr;
        ln = ln;
        added_at = p.added_at;
      } in
      (
        refl,
        λ j pl h. elim (Bool-cases (key == j)) [
          | inl same ↦ (let e : key ≡ j = (text_eq_iff key j).0 same in cc)
          | inr other ↦ lookup-insert key j new w.published_map ∙ (rw other h)
        ],
        λ j pl h. elim (Bool-cases (key == j)) [
          | inl same ↦
              (let e : key ≡ j = (text_eq_iff key j).0 same in
                let here : some new ≡ some pl =
                  sym (lookup-insert key j new w.published_map ∙ (rw same refl)) ∙ h in
                inr (sym e ∙ ap key_of here))
          | inr other ↦ inl (sym (lookup-insert key j new w.published_map ∙ (rw other refl)) ∙ h)
        ],
      )

  unless_live-IsRestored :
      (w : World E S D K T M L) (p : PublishedService) (ts : T) (o : Option (PublishedListener L))
      → lookup (service_key p.cluster_id p.service) w.published_map ≡ o
      → IsRestored w (unless_live sql codec net w p ts o)
  unless_live-IsRestored w p ts (some pl) at = IsRestored-refl w
  unless_live-IsRestored w p ts none at =
      restored_listener-IsRestored w p (or_port net ts p.addr (net.listen w.env ts p.addr)) at

  with_connector-IsRestored :
      (w : World E S D K T M L) (p : PublishedService) (o : Option T)
      → IsRestored w (with_connector sql codec net w p o)
  with_connector-IsRestored w p none = IsRestored-refl w
  with_connector-IsRestored w p (some ts) = unless_live-IsRestored w p ts _ refl

  of_instance-IsRestored :
      (w : World E S D K T M L) (p : PublishedService)
      (r : E × Registry D K T M × Result (Instance D K T M))
      → IsRestored w (of_instance sql codec net w p r)
  of_instance-IsRestored w p (e, reg, fail err) = (refl, (λ j pl h. h), (λ j pl h. inl h))
  of_instance-IsRestored w p (e, reg, ok inst) =
      with_connector-IsRestored (record w { env = e; registry = some reg }) p inst.ts

  module _ (b : Builder E D K T M) where
    restore_one-IsRestored :
        (w : World E S D K T M L) (p : PublishedService) (o : Option (Registry D K T M))
        → IsRestored w (restore_one sql codec net b w p o)
    restore_one-IsRestored w p none = IsRestored-refl w
    restore_one-IsRestored w p (some reg) =
        of_instance-IsRestored w p (get_instance b w.env reg p.cluster_id)

    restore_each-IsRestored :
        (list : List PublishedService) (w : World E S D K T M L)
        → IsRestored w (restore_each sql codec net b list w)
    unfolding restore_each
    restore_each-IsRestored [] w = IsRestored-refl w
    restore_each-IsRestored (p ∷ list) w =
        let w' = restore_one sql codec net b w p w.registry in
        IsRestored-trans w w' (restore_each sql codec net b list w')
          (restore_one-IsRestored w p w.registry) (restore_each-IsRestored list w')

    restore_list-IsRestored :
        (w : World E S D K T M L) (r : Result (List PublishedService))
        → IsRestored w (restore_list sql codec net b w r).0
    restore_list-IsRestored w (fail err) = IsRestored-refl w
    restore_list-IsRestored w (ok list) = restore_each-IsRestored list w

    restore_from-IsRestored :
        (w : World E S D K T M L) (o : Option S) (o' : Option (Registry D K T M))
        → IsRestored w (restore_from sql codec net b w o o').0
    restore_from-IsRestored w none o' = IsRestored-refl w
    restore_from-IsRestored w (some s) none = IsRestored-refl w
    restore_from-IsRestored w (some s) (some reg) =
        restore_list-IsRestored w (list_published sql codec s)

    -- RestorePublishedMappings, whatever the registry and the network answer, leaves the database and
    -- every listener that there was as they were, and every listener that it adds stands under the
    -- key of its own cluster and service.
    pub restore_published_mappings-IsRestored :
        (w : World E S D K T M L) → IsRestored w (restore_published_mappings sql codec net b w).0
    unfolding restore_published_mappings
    restore_published_mappings-IsRestored w = restore_from-IsRestored w w.db w.registry

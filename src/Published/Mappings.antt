-- ===== src/Published/Mappings.antt =====
-- `RestorePublishedMappings` of internal/api/router.go.
use guild_net.Prelude.{Option, none, some, List, [], ◌∷◌, Text, text_eq_inst, lookup, insert}
use guild_net.DbManager.{Result, ok, fail}
use guild_net.LocalDb.{Sql}
use guild_net.ClusterRegistry.{Instance, Registry, Builder, get_instance}
use guild_net.Published.{
  PublishedService, PublishedListener, World, Network, ServiceCodec, service_key, list_published,
}

module _ {E T L : Type 0} (net : Network E T L) where
  -- a second try with the port alone, if the address has one
  abbrev pub second_listen : T → Option Text → E → Text → E × Result (L × Text)
  second_listen ts none e err = (e, fail err)
  second_listen ts (some port) e err = net.listen e ts port

  abbrev pub or_port : T → Text → E × Result (L × Text) → E × Result (L × Text)
  or_port ts addr (e, ok ln) = (e, ok ln)
  or_port ts addr (e, fail err) = second_listen ts (net.listen_port addr) e err

module _ {E S B D K T M L : Type 0} (sql : Sql S B) (codec : ServiceCodec B)
    (net : Network E T L) where
  abbrev pub restored_listener :
      World E S D K T M L → PublishedService → E × Result (L × Text) → World E S D K T M L
  restored_listener w p (e, fail err) = record w { env = e }
  restored_listener w p (e, ok (ln, addr)) = record w {
    env = e;
    published_map =
        insert (service_key p.cluster_id p.service)
          (record {
            cluster_id = p.cluster_id;
            service = p.service;
            addr = addr;
            ln = ln;
            added_at = p.added_at;
          })
          w.published_map;
  }

  abbrev pub unless_live :
      World E S D K T M L
      → PublishedService
      → T
      → Option (PublishedListener L)
      → World E S D K T M L
  unless_live w p ts (some pl) = w
  unless_live w p ts none =
      restored_listener w p (or_port net ts p.addr (net.listen w.env ts p.addr))

  abbrev pub with_connector :
      World E S D K T M L → PublishedService → Option T → World E S D K T M L
  with_connector w p none = w
  with_connector w p (some ts) =
      unless_live w p ts (lookup (service_key p.cluster_id p.service) w.published_map)

  abbrev pub of_instance :
      World E S D K T M L
      → PublishedService
      → E × Registry D K T M × Result (Instance D K T M)
      → World E S D K T M L
  of_instance w p (e, reg, fail err) = record w { env = e; registry = some reg }
  of_instance w p (e, reg, ok inst) =
      with_connector (record w { env = e; registry = some reg }) p inst.ts

  -- there is a registry whenever the loop runs
  abbrev pub restore_one :
      Builder E D K T M
      → World E S D K T M L
      → PublishedService
      → Option (Registry D K T M)
      → World E S D K T M L
  restore_one b w p none = w
  restore_one b w p (some reg) = of_instance w p (get_instance b w.env reg p.cluster_id)

  -- the loop over the records
  unfoldable pub restore_each :
      Builder E D K T M → List PublishedService → World E S D K T M L → World E S D K T M L
  restore_each b [] w = w
  restore_each b (p ∷ list) w = restore_each b list (restore_one b w p w.registry)

  abbrev pub restore_list :
      Builder E D K T M
      → World E S D K T M L
      → Result (List PublishedService)
      → World E S D K T M L × Option Text
  restore_list b w (fail err) = (w, some err)
  restore_list b w (ok list) = (restore_each b list w, none)

  abbrev pub restore_from :
      Builder E D K T M
      → World E S D K T M L
      → Option S
      → Option (Registry D K T M)
      → World E S D K T M L × Option Text
  restore_from b w none reg = (w, none)
  restore_from b w (some s) none = (w, none)
  restore_from b w (some s) (some reg) = restore_list b w (list_published sql codec s)

  unfoldable pub restore_published_mappings :
      Builder E D K T M → World E S D K T M L → World E S D K T M L × Option Text
  restore_published_mappings b w = restore_from b w w.db w.registry

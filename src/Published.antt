-- ===== src/Published.antt =====
-- internal/localdb/published.go, and what internal/api/router.go does with the listeners that publish
-- the services of a cluster: the map of listeners, the rows behind it, the routes below
-- /api/cluster/{id}/published-services, and `RestorePublishedMappings`. The steps of different
-- goroutines are the operations here; the end of an accept loop is two, since it gives the lock of the
-- map back before it deletes the row.
pub mod Mappings
pub mod Withdrawal
pub mod Restore
use guild_net.Prelude.{
  ℕ, Bool, true, false, Option, none, some, List, [], ◌∷◌, ◌++◌, Text, codes, ◌==◌, text_eq_inst,
  Assoc, lookup, insert, delete, if◌then◌else◌,
}
use guild_net.DbManager.{Result, ok, fail}
use guild_net.LocalDb.{Sql, put_value, delete_value, list_values}
use guild_net.ClusterRegistry.{Instance, Registry, Builder, get_instance}

-- the time is a text
pub record PublishedService : Type 0 where
  pub cluster_id : Text
  pub service : Text
  pub addr : Text
  pub added_at : Text

pub record PublishedListener (L : Type 0) : Type 0 where
  pub cluster_id : Text
  pub service : Text
  pub addr : Text
  pub ln : L
  pub added_at : Text

abbrev pub published_collection : Text
published_collection = codes "published_services"

abbrev pub service_key : Text → Text → Text
service_key cluster service = cluster ++ b':' ∷ service

-- the loop that picks the records of a cluster
unfoldable pub in_cluster : Text → List PublishedService → List PublishedService
in_cluster cluster [] = []
in_cluster cluster (p ∷ list) =
    let rest = in_cluster cluster list in if p.cluster_id == cluster then p ∷ rest else rest

-- how a record of the collection is encoded and decoded
pub record ServiceCodec (B : Type 0) : Type 0 where
  pub marshal : PublishedService → Result B
  pub unmarshal : List B → Result (List PublishedService)

pub record World (E S D K T M L : Type 0) : Type 0 where
  pub db : Option S
  pub registry : Option (Registry D K T M)
  pub published_map : Assoc Text (PublishedListener L)
  pub env : E

-- `listen` gives a listener and its address, `accept_fails` tells whether an Accept returns an error, `listen_port` is the address with the port alone
pub record Network (E T L : Type 0) : Type 0 where
  pub listen : E → T → Text → E × Result (L × Text)
  pub accept_fails : E → L → Bool
  pub close : E → L → E
  pub listen_port : Text → Option Text

pub data PublishedReply : Type 0 where
  services : List PublishedService → PublishedReply
  db_error : Text → Text → PublishedReply
  removed not_allowed : PublishedReply

pub data PublishedVerb : Type 0 where
  get_verb delete_verb other_verb : PublishedVerb

module _ {S B : Type 0} (sql : Sql S B) (codec : ServiceCodec B) where
  abbrev pub save_published : S → Text → PublishedService → S × Option Text
  save_published s key ps = put_value sql codec.marshal s published_collection key ps

  abbrev pub delete_published : S → Text → S × Option Text
  delete_published s key = delete_value sql s published_collection key

  abbrev pub list_published : S → Result (List PublishedService)
  list_published s = list_values sql codec.unmarshal s published_collection

  abbrev pub save_if : Option S → Text → PublishedService → Option S
  save_if none key ps = none
  save_if (some s) key ps = some (save_published s key ps).0

  abbrev pub delete_if : Option S → Text → Option S
  delete_if none key = none
  delete_if (some s) key = some (delete_published s key).0

  abbrev pub of_cluster : Text → Result (List PublishedService) → PublishedReply
  of_cluster cluster (fail err) = db_error (codes "list_published") err
  of_cluster cluster (ok list) = services (in_cluster cluster list)

  abbrev pub list_services : Text → Option S → PublishedReply
  list_services cluster none = services []
  list_services cluster (some s) = of_cluster cluster (list_published s)

  module _ {E D K T M L : Type 0} (net : Network E T L) where
    abbrev pub listened :
        World E S D K T M L → Text → Text → Text → E × Result (L × Text) → World E S D K T M L
    listened w cluster service now (e, fail err) = record w { env = e }
    listened w cluster service now (e, ok (ln, addr)) =
        let key = service_key cluster service in
        record w {
          env = e;
          published_map =
              insert key
                (record {
                  cluster_id = cluster;
                  service = service;
                  addr = addr;
                  ln = ln;
                  added_at = now;
                })
                w.published_map;
          db =
              save_if w.db key
                (record { cluster_id = cluster; service = service; addr = addr; added_at = now });
        }

    abbrev pub unless_published :
        World E S D K T M L
        → T
        → Text
        → Text
        → Text
        → Text
        → Option (PublishedListener L)
        → World E S D K T M L
    unless_published w ts cluster service port now (some pl) = w
    unless_published w ts cluster service port now none =
        listened w cluster service now (net.listen w.env ts (b':' ∷ port))

    -- a service is published at a local port: `port` is the text of it
    unfoldable pub publish :
        World E S D K T M L → T → Text → Text → Text → Text → World E S D K T M L
    publish w ts cluster service port now =
        unless_published w ts cluster service port now
          (lookup (service_key cluster service) w.published_map)

    -- the end of the accept loop of a listener, up to the unlock of the map
    unfoldable pub unpublish : World E S D K T M L → Text → L → World E S D K T M L
    unpublish w key ln = record w {
      env = net.close w.env ln;
      published_map = delete key w.published_map;
    }

    -- and after it
    unfoldable pub forget_row : World E S D K T M L → Text → World E S D K T M L
    forget_row w key = record w { db = delete_if w.db key }

    -- the accept loop ends when an Accept fails, and goes on otherwise
    unfoldable pub accept_step : World E S D K T M L → Text → L → Option (World E S D K T M L)
    accept_step w key ln = if net.accept_fails w.env ln then some (unpublish w key ln) else none

    abbrev pub deleted :
        World E S D K T M L → S × Option Text → World E S D K T M L × PublishedReply
    deleted w (s, some err) = (record w { db = some s }, db_error (codes "delete_published") err)
    deleted w (s, none) = (record w { db = some s }, removed)

    abbrev pub delete_stored :
        World E S D K T M L → Text → Option S → World E S D K T M L × PublishedReply
    delete_stored w key none = (w, removed)
    delete_stored w key (some s) = deleted w (delete_published s key)

    abbrev pub close_or_delete :
        World E S D K T M L
        → Text
        → Option (PublishedListener L)
        → World E S D K T M L × PublishedReply
    close_or_delete w key (some pl) = (record w { env = net.close w.env pl.ln }, removed)
    close_or_delete w key none = delete_stored w key w.db

    unfoldable pub delete_service :
        World E S D K T M L → Text → Text → World E S D K T M L × PublishedReply
    delete_service w cluster service =
        let key = service_key cluster service in close_or_delete w key (lookup key w.published_map)

    -- `rest` are the parts of the path behind published-services
    unfoldable pub handle_published :
        PublishedVerb
        → Text
        → List Text
        → World E S D K T M L
        → World E S D K T M L × PublishedReply
    handle_published get_verb cluster [] w = (w, list_services cluster w.db)
    handle_published get_verb cluster (part ∷ rest) w = (w, not_allowed)
    handle_published delete_verb cluster [] w = (w, not_allowed)
    handle_published delete_verb cluster (service ∷ rest) w = delete_service w cluster service
    handle_published other_verb cluster rest w = (w, not_allowed)

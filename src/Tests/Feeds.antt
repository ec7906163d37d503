-- ===== src/Tests/Feeds.antt =====
-- A subscriber of the table users, over a database whose cursor reads two changes of a row.
use guild_net.Prelude.{
  ◌≡◌, refl, true, none, some, List, [], ◌∷◌, codes, All, any, text_eq, take, arith, nat_eq,
}
use guild_net.Http.{get, Request}
use guild_net.DbManager.{ok}
use guild_net.Changefeed.{
  ChangefeedEvent, new_event, Cursor, Signal, done, received, beat, subscribe_table,
  handle_changefeed,
}
use guild_net.Changefeed.Delivery.{
  all_written, IsStreamOf, log_write, IsStatus, events_in, feed_path, handle_changefeed_paused,
  handle_changefeed-feed,
}
use guild_net.Tests.Database.{same}
use guild_net.Tests.Fixtures.{ann, shop, request}

abbrev two_changes : Cursor
two_changes = record {
  changes =
      record { new_val = some ann; old_val = none; read_at = codes "t1" }
      ∷ (record { new_val = none; old_val = some ann; read_at = codes "t2" } ∷ []);
  err = some (codes "connection reset", codes "t3");
}

-- a beat before the changes, and a client that is gone after two of them
abbrev signals_of : List Signal
signals_of = beat (codes "t0") ∷ (received ∷ (received ∷ (done ∷ [])))

abbrev subscription : Request
subscription = record (request get (codes "user:vic")) {
  path = feed_path (codes "shop") (codes "users");
  query = λ k. [];
}

handle_changefeed-feed_example :
    let served =
      handle_changefeed all_written
        (subscribe_table same (λ s db table. ok two_changes))
        shop
        subscription
        true
        (codes "t")
        signals_of
        3
        [] in
    ((evs : List ChangefeedEvent) × IsStreamOf
        (codes "users")
        two_changes.changes
        two_changes.err
        evs
      × (events_in served.wire ≡ new_event (codes "init") (codes "users") (codes "t") ∷ take 2 evs))
    × (served.active ≡ 3)
unfolding any text_eq
handle_changefeed-feed_example =
    handle_changefeed-feed same (λ s db table. ok two_changes) shop (ann ∷ []) subscription
      (codes "shop") (codes "users") (codes "t") signals_of two_changes 3 refl refl refl refl refl
      refl (omega arith)

abbrev paused_subscription : Request
paused_subscription = record subscription { query = λ k. codes "1" }

handle_changefeed_paused_example :
    All IsStatus
      (handle_changefeed
        (log_write (λ n. true))
        (subscribe_table same (λ s db table. ok two_changes))
        shop
        paused_subscription
        true
        (codes "t")
        signals_of
        3
        []).wire
unfolding text_eq
handle_changefeed_paused_example =
    handle_changefeed_paused (λ n. true) (subscribe_table same (λ s db table. ok two_changes)) shop
      paused_subscription true (codes "t") signals_of 3 refl

-- ===== src/Changefeed/Delivery.antt =====
-- What a subscriber of a table is sent.
use guild_net.Prelude.{
  ℕ, suc, ◌^◌, ◌≤◌, ◌<◌, Bool, true, false, ◌&&◌, Bool-cases, Option, none, some, ◌≡◌, refl, sym,
  ap, ◌∙◌, inl, inr, List, [], ◌∷◌, ◌++◌, Text, codes, length, take, ltb, any, All, ◌==◌, text_eq,
  text_eq_inst, nat_eq, arith,
}
use mathlib.Core.List.{append-nil, append_assoc}
use guild_net.Prelude.Lists.{All-append, length-append}
use guild_net.Prelude.Strings.{trim_prefix, split, split-append, trim_prefix-append}
use guild_net.Json.{Row}
use guild_net.Http.{Request}
use guild_net.DbManager.{Result, ok, fail}
use guild_net.DbApi.{DbApi}
use guild_net.RethinkDb.{db_name}
use guild_net.Metrics.{changefeed_inc, changefeed_dec}
use guild_net.Changefeed.{
  ChangefeedEvent, new_event, Raw, change_event, Cursor, feed, subscribe_table, Signal, done,
  received, beat, Frame, event, ping, Stream, push, if_written, on_beat, serve_signals,
  serve_stream, Served, streaming, stream_of, subscribed, with_manager, feed_route,
  handle_changefeed,
}

-- A client that keeps what it is sent; `accept` tells of each frame whether it is written.
abbrev pub log_write : (ℕ → Bool) → List Frame → Frame → List Frame × Bool
log_write accept out frame = (out ++ frame ∷ [], accept (length out))

-- an event without a row, that counts 512 pending events at most; or a ping
abbrev pub IsStatus : Frame → Type 0
IsStatus (event ev) = (ev.before ≡ none) × (ev.after ≡ none) × (ev.pending ≤ 512)
IsStatus ping = Unit {0}

module _ (accept : ℕ → Bool) where
  abbrev IsQuiet : Stream (List Frame) → Type 0
  IsQuiet st = All IsStatus st.wire × (length st.backlog ≤ 512)

  push_bounded :
      (ev : ChangefeedEvent) (backlog : List ChangefeedEvent)
      → length backlog ≤ 512
      → length (push (log_write accept) ev backlog) ≤ 512
  push_bounded ev backlog h = elim (Bool-cases (ltb (length backlog) 512)) [
    | inl room ↦ rw room (ground (arith, length-append {0} backlog (ev ∷ [])))
    | inr full ↦ rw full h
  ]

  if_written-IsQuiet :
      (rest : Stream (List Frame) → Stream (List Frame)) (backlog : List ChangefeedEvent)
      (p : List Frame × Bool)
      → ((st : Stream (List Frame)) → IsQuiet st → IsQuiet (rest st))
      → All IsStatus p.0
      → length backlog ≤ 512
      → IsQuiet (if_written (log_write accept) rest backlog p)
  if_written-IsQuiet rest backlog (e, true) h quiet small = h _ (quiet, small)
  if_written-IsQuiet rest backlog (e, false) h quiet small = (quiet, small)

  on_beat-IsQuiet :
      (rest : Stream (List Frame) → Stream (List Frame)) (table ts : Text)
      (backlog : List ChangefeedEvent) (e : List Frame)
      → ((st : Stream (List Frame)) → IsQuiet st → IsQuiet (rest st))
      → All IsStatus e
      → length backlog ≤ 512
      → IsQuiet (on_beat (log_write accept) rest table ts true backlog e)
  on_beat-IsQuiet rest table ts [] e h quiet small =
      if_written-IsQuiet rest [] _ h (All-append IsStatus e (ping ∷ []) quiet (tt, tt)) small
  on_beat-IsQuiet rest table ts (ev ∷ backlog) e h quiet small =
      h _ (All-append IsStatus e _ quiet ((refl, refl, small), tt), small)

  serve_signals-IsQuiet :
      (table : Text) (sigs : List Signal) (evs : List ChangefeedEvent) (st : Stream (List Frame))
      → IsQuiet st
      → IsQuiet (serve_signals (log_write accept) table true sigs evs st)
  unfolding serve_signals
  serve_signals-IsQuiet table [] evs st h = h
  serve_signals-IsQuiet table (done ∷ sigs) evs st h = h
  serve_signals-IsQuiet table (received ∷ sigs) [] st h = h
  serve_signals-IsQuiet table (received ∷ sigs) (ev ∷ evs) st (quiet, small) =
      serve_signals-IsQuiet table sigs evs _ (quiet, push_bounded ev st.backlog small)
  serve_signals-IsQuiet table (beat ts ∷ sigs) evs st (quiet, small) =
      on_beat-IsQuiet (serve_signals (log_write accept) table true sigs evs) table ts st.backlog
        st.wire (serve_signals-IsQuiet table sigs evs) quiet small

  streaming-IsQuiet :
      (table : Text) (r : Request) (flushes : Bool) (now : Text) (sigs : List Signal)
      (evs : List ChangefeedEvent) (active : ℕ)
      → (r.query (codes "pause") == codes "1") ≡ true
      → All IsStatus (streaming (log_write accept) table r flushes now sigs evs active []).wire
  unfolding serve_stream
  streaming-IsQuiet table r true now sigs evs active paused =
      rw (paused, serve_stream)
        (serve_signals-IsQuiet table sigs evs _ (((refl, refl, omega arith), tt), omega arith)).0
  streaming-IsQuiet table r false now sigs evs active paused = tt

  feed_route-quiet :
      (serve : Text → Text → ℕ → List Frame → Served (log_write accept)) (parts : List Text)
      (active : ℕ)
      → ((db table : Text) → All IsStatus (serve db table active []).wire)
      → All IsStatus (feed_route (log_write accept) serve parts active []).wire
  feed_route-quiet serve [] active h = tt
  feed_route-quiet serve (db ∷ []) active h = tt
  feed_route-quiet serve (db ∷ (tables ∷ [])) active h = tt
  feed_route-quiet serve (db ∷ (tables ∷ (table ∷ []))) active h = tt
  feed_route-quiet serve (db ∷ (tables ∷ (table ∷ (changes ∷ rest)))) active h =
      elim (Bool-cases (tables == codes "tables" && changes == codes "changes")) [
        | inl route ↦ rw route (h db table)
        | inr other ↦ rw other tt
      ]

  subscribed-quiet :
      (table : Text) (r : Request) (flushes : Bool) (now : Text) (sigs : List Signal)
      (sub : Result (List ChangefeedEvent)) (active : ℕ)
      → (r.query (codes "pause") == codes "1") ≡ true
      → All IsStatus
          (subscribed
            (log_write accept)
            (streaming (log_write accept) table r flushes now sigs)
            sub
            active
            []).wire
  subscribed-quiet table r flushes now sigs (fail err) active paused = tt
  subscribed-quiet table r flushes now sigs (ok stream) active paused =
      streaming-IsQuiet table r flushes now sigs stream active paused

  module _ {S : Type 0} where
    with_manager-quiet :
        (subscribe : S → Result (List ChangefeedEvent)) (table : Text) (r : Request)
        (flushes : Bool) (now : Text) (sigs : List Signal) (o : Option S) (active : ℕ)
        → (r.query (codes "pause") == codes "1") ≡ true
        → All IsStatus
            (with_manager
              (log_write accept)
              subscribe
              (streaming (log_write accept) table r flushes now sigs)
              o
              active
              []).wire
    with_manager-quiet subscribe table r flushes now sigs none active paused = tt
    with_manager-quiet subscribe table r flushes now sigs (some s) active paused =
        subscribed-quiet table r flushes now sigs (subscribe s) active paused

    -- Whatever the request with pause=1, the table and the signals are, and whatever writes fail, the
    -- client is sent no row: all frames are pings and events without a row, which count 512 pending
    -- events at most.
    pub handle_changefeed_paused :
        (subscribe : S → Text → Text → Text → Result (List ChangefeedEvent)) (api : DbApi S)
        (r : Request) (flushes : Bool) (now : Text) (sigs : List Signal) (active : ℕ)
        → (r.query (codes "pause") == codes "1") ≡ true
        → All IsStatus
            (handle_changefeed (log_write accept) subscribe api r flushes now sigs active []).wire
    unfolding handle_changefeed
    handle_changefeed_paused subscribe api r flushes now sigs active paused =
        feed_route-quiet _ (split b'/' (trim_prefix (codes "/sse/db/") r.path)) active (λ db table.
          with_manager-quiet (λ s. subscribe s api.org_id db table) table r flushes now sigs
            api.manager active paused)

-- Every write succeeds.
abbrev pub all_written : List Frame → Frame → List Frame × Bool
all_written = log_write (λ n. true)

abbrev pub events_in : List Frame → List ChangefeedEvent
events_in [] = []
events_in (event ev ∷ frames) = ev ∷ events_in frames
events_in (ping ∷ frames) = events_in frames

-- how many receipts there are before the client is gone
abbrev pub receipts : List Signal → ℕ
receipts [] = 0
receipts (done ∷ sigs) = 0
receipts (received ∷ sigs) = suc (receipts sigs)
receipts (beat ts ∷ sigs) = receipts sigs

-- the type of an event by the old and the new row
abbrev pub kind_of : Option Row → Option Row → Text
kind_of none (some new) = codes "insert"
kind_of (some old) (some new) = codes "update"
kind_of (some old) none = codes "delete"
kind_of none none = []

-- an event that tells of a change: both its rows, whole
abbrev pub IsChange : Text → Raw → ChangefeedEvent → Type 0
IsChange table raw ev =
    (ev.kind ≡ kind_of raw.old_val raw.new_val)
    × (ev.before ≡ raw.old_val)
    × (ev.after ≡ raw.new_val)
    × (ev.table_id ≡ table)
    × (ev.ts ≡ raw.read_at)

-- an event that tells of the error of the cursor
abbrev pub IsError : Text → Text × Text → ChangefeedEvent → Type 0
IsError table (msg, ts) ev =
    (ev.kind ≡ codes "error") × (ev.error ≡ msg) × (ev.table_id ≡ table) × (ev.ts ≡ ts)

-- one event for each change, in their order, and one for the error, if there is one
abbrev pub IsStreamOf : Text → List Raw → Option (Text × Text) → List ChangefeedEvent → Type 0
IsStreamOf table [] none [] = Unit {0}
IsStreamOf table [] none (ev ∷ evs) = ⊥
IsStreamOf table [] (some err) [] = ⊥
IsStreamOf table [] (some err) (ev ∷ evs) = IsError table err ev × (evs ≡ [])
IsStreamOf table (raw ∷ raws) err [] = ⊥
IsStreamOf table (raw ∷ raws) err (ev ∷ evs) = IsChange table raw ev × IsStreamOf table raws err evs

change_event-IsChange :
    (table ts : Text) (old new : Option Row)
    → IsChange table
        (record { new_val = new; old_val = old; read_at = ts })
        (change_event table ts old new)
change_event-IsChange table ts none none = (refl, refl, refl, refl, refl)
change_event-IsChange table ts none (some new) = (refl, refl, refl, refl, refl)
change_event-IsChange table ts (some old) none = (refl, refl, refl, refl, refl)
change_event-IsChange table ts (some old) (some new) = (refl, refl, refl, refl, refl)

feed-IsStreamOf :
    (table : Text) (raws : List Raw) (err : Option (Text × Text))
    → IsStreamOf table raws err (feed table (record { changes = raws; err = err }))
unfolding feed
feed-IsStreamOf table [] none = tt
feed-IsStreamOf table [] (some err) = ((refl, refl, refl, refl), refl)
feed-IsStreamOf table (raw ∷ raws) err = (
  change_event-IsChange table raw.read_at raw.old_val raw.new_val,
  feed-IsStreamOf table raws err,
)

events_in-append : (xs ys : List Frame) → events_in (xs ++ ys) ≡ events_in xs ++ events_in ys
events_in-append [] ys = refl
events_in-append (event ev ∷ xs) ys = ap (λ r. ev ∷ r) (events_in-append xs ys)
events_in-append (ping ∷ xs) ys = events_in-append xs ys

events_in-serve_signals :
    (table : Text) (sigs : List Signal) (evs : List ChangefeedEvent) (st : Stream (List Frame))
    → events_in (serve_signals all_written table false sigs evs st).wire
      ≡ events_in st.wire ++ take (receipts sigs) evs
unfolding serve_signals
events_in-serve_signals table [] evs st = sym (append-nil _)
events_in-serve_signals table (done ∷ sigs) evs st = sym (append-nil _)
events_in-serve_signals table (received ∷ sigs) [] st = sym (append-nil _)
events_in-serve_signals table (received ∷ sigs) (ev ∷ evs) st = simp (
  events_in-serve_signals table sigs evs (record st { wire = st.wire ++ event ev ∷ [] }),
  events_in-append,
  append_assoc,
)
events_in-serve_signals table (beat ts ∷ sigs) evs st = simp (
  events_in-serve_signals table sigs evs (record st { wire = st.wire ++ ping ∷ [] }),
  events_in-append,
  append-nil,
)

events_in-serve_stream :
    (table now : Text) (sigs : List Signal) (evs : List ChangefeedEvent)
    → events_in (serve_stream all_written table false now sigs evs []).wire
      ≡ new_event (codes "init") table now ∷ take (receipts sigs) evs
unfolding serve_stream
events_in-serve_stream table now sigs evs = events_in-serve_signals table sigs evs _

abbrev pub feed_path : Text → Text → Text
feed_path db table =
    codes "/sse/db/" ++ (db ++ b'/' ∷ (codes "tables" ++ b'/' ∷ (table ++ b'/' ∷ codes "changes")))

no_slash : any (λ c. c == b'/') (codes "tables") ≡ false
unfolding any
no_slash = refl

split_last : split b'/' (codes "changes") ≡ codes "changes" ∷ []
unfolding split
split_last = refl

split-feed_path :
    (db table : Text)
    → any (λ c. c == b'/') db ≡ false
    → any (λ c. c == b'/') table ≡ false
    → split b'/' (trim_prefix (codes "/sse/db/") (feed_path db table))
      ≡ db ∷ (codes "tables" ∷ (table ∷ (codes "changes" ∷ [])))
split-feed_path db table one_db one_table =
    ap (split b'/') (trim_prefix-append (codes "/sse/db/") _)
    ∙ (split-append b'/' db _ one_db
        ∙ ap (λ r. db ∷ r)
            (split-append b'/' (codes "tables") _ no_slash
              ∙ ap (λ r. codes "tables" ∷ r)
                  (split-append b'/' table _ one_table ∙ ap (λ r. table ∷ r) split_last)))

gauge_restored : (g : ℕ) → g < 2 ^ 64 → changefeed_dec (changefeed_inc g) ≡ g
unfolding changefeed_dec changefeed_inc
gauge_restored g h = omega arith

module _ {S : Type 0} (unicode_lower : ℕ → ℕ) (changes : S → Text → Text → Result Cursor) where
  -- A request for the changes of a table, without pause=1, whose writes all succeed and whose select
  -- gets n receipts before the client is gone, is sent the hello and then the first n of these events:
  -- one for each change that the cursor of the table reads, in their order, with the whole old and new
  -- row and the type that they make, and one for the error that the cursor ends with; whoever asks,
  -- since no role is looked up and no column masked. The gauge is then as before.
  pub handle_changefeed-feed :
      (api : DbApi S) (s : S) (r : Request) (db table now : Text) (sigs : List Signal)
      (cur : Cursor) (active : ℕ)
      → any (λ c. c == b'/') db ≡ false
      → any (λ c. c == b'/') table ≡ false
      → r.path ≡ feed_path db table
      → (r.query (codes "pause") == codes "1") ≡ false
      → api.manager ≡ some s
      → changes s (db_name unicode_lower api.org_id db) table ≡ ok cur
      → active < 2 ^ 64
      → let served =
          handle_changefeed all_written
            (subscribe_table unicode_lower changes)
            api
            r
            true
            now
            sigs
            active
            [] in
        ((evs : List ChangefeedEvent) × IsStreamOf table cur.changes cur.err evs
          × (events_in served.wire ≡ new_event (codes "init") table now ∷ take (receipts sigs) evs))
        × (served.active ≡ active)
  unfolding handle_changefeed subscribe_table text_eq
  handle_changefeed-feed api s r db table now sigs cur active one_db one_table path playing manager
        run bound =
      let serve : Text → Text → ℕ → List Frame → Served all_written = λ db table.
        with_manager all_written (λ s. subscribe_table unicode_lower changes s api.org_id db table)
          (streaming all_written table r true now sigs) api.manager in
      let streams : handle_changefeed all_written (subscribe_table unicode_lower changes) api r true
            now sigs active []
          ≡ streaming all_written table r true now sigs (feed table cur) active [] =
        ap
          (λ path.
            feed_route all_written serve (split b'/' (trim_prefix (codes "/sse/db/") path)) active
              [])
          path
        ∙ ap (λ parts. feed_route all_written serve parts active [])
            (split-feed_path db table one_db one_table)
        ∙ ap
            (λ o.
              with_manager all_written
                (λ s. subscribe_table unicode_lower changes s api.org_id db table)
                (streaming all_written table r true now sigs) o active [])
            manager
        ∙ ap
            (λ c.
              subscribed all_written (streaming all_written table r true now sigs)
                (stream_of unicode_lower changes table c) active [])
            run in
      (
        (
          feed table cur,
          feed-IsStreamOf table cur.changes cur.err,
          ap (λ (x : Served all_written). events_in x.wire) streams
              ∙ ap
                  (λ paused.
                    events_in
                      (serve_stream all_written table paused now sigs (feed table cur) []).wire)
                  playing
              ∙ events_in-serve_stream table now sigs (feed table cur),
        ),
        ap (λ (x : Served all_written). x.active) streams ∙ gauge_restored active bound,
      )

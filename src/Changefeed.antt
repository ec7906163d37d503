-- ===== src/Changefeed.antt =====
-- The changefeed of a table. `subscribe_table` is `SubscribeTable` of internal/db/db.go, with what its
-- cursor yields until it ends as a list, and `handle_changefeed` is `handleChangefeed` of
-- internal/httpx/db_handlers.go over the signals that its select gets, in their order.
pub mod Delivery
use guild_net.Prelude.{
  ℕ, zero, suc, Bool, true, false, ◌&&◌, Option, none, some, List, [], ◌∷◌, ◌++◌, Text, codes, map,
  length, ltb, ◌==◌, text_eq_inst, if◌then◌else◌,
}
use guild_net.Prelude.Strings.{trim_prefix, split}
use guild_net.Json.{Row}
use guild_net.Http.{Request, Body, Response, respond, json_error, json_error_detail}
use guild_net.DbManager.{Result, ok, fail}
use guild_net.DbApi.{DbApi}
use guild_net.RethinkDb.{db_name}
use guild_net.Metrics.{changefeed_inc, changefeed_dec}

pub record ChangefeedEvent : Type 0 where
  pub kind : Text
  pub table_id : Text
  pub row_id : Text
  pub before : Option Row
  pub after : Option Row
  pub cursor : Text
  pub ts : Text
  pub pending : ℕ
  pub snapshot : Bool
  pub error : Text

-- what the literals of the code leave out is zero
abbrev pub new_event : Text → Text → Text → ChangefeedEvent
new_event kind table ts = record {
  kind = kind;
  table_id = table;
  row_id = [];
  before = none;
  after = none;
  cursor = [];
  ts = ts;
  pending = 0;
  snapshot = false;
  error = [];
}

-- a change as the cursor reads it, and the time of the reading
pub record Raw : Type 0 where
  pub new_val : Option Row
  pub old_val : Option Row
  pub read_at : Text

abbrev pub change_event : Text → Text → Option Row → Option Row → ChangefeedEvent
change_event table ts none (some new) = record (new_event (codes "insert") table ts) {
  after = some new;
}
change_event table ts (some old) (some new) = record (new_event (codes "update") table ts) {
  before = some old;
  after = some new;
}
change_event table ts (some old) none = record (new_event (codes "delete") table ts) {
  before = some old;
}
change_event table ts none none = new_event [] table ts

-- what a cursor yields, and the error that it ends with
pub record Cursor : Type 0 where
  pub changes : List Raw
  pub err : Option (Text × Text)

abbrev pub error_event : Text → Option (Text × Text) → List ChangefeedEvent
error_event table none = []
error_event table (some (msg, ts)) =
    record (new_event (codes "error") table ts) { error = msg } ∷ []

unfoldable pub feed : Text → Cursor → List ChangefeedEvent
feed table cur =
    map (λ (raw : Raw). change_event table raw.read_at raw.old_val raw.new_val) cur.changes
    ++ error_event table cur.err

-- `changes` runs the query of a table of a database
module _ {S : Type 0} (unicode_lower : ℕ → ℕ) (changes : S → Text → Text → Result Cursor) where
  abbrev pub stream_of : Text → Result Cursor → Result (List ChangefeedEvent)
  stream_of table (fail e) = fail e
  stream_of table (ok cur) = ok (feed table cur)

  unfoldable pub subscribe_table : S → Text → Text → Text → Result (List ChangefeedEvent)
  subscribe_table s org_id db_id table =
      stream_of table (changes s (db_name unicode_lower org_id db_id) table)

-- What the select of the handler gets: the end of the request, the next event of the stream or that
-- the stream is closed, or a beat, with the time of day.
pub data Signal : Type 0 where
  done received : Signal
  beat : Text → Signal

-- what is written to the client: an event as a data line, or the comment ": ping"
pub data Frame : Type 0 where
  event : ChangefeedEvent → Frame
  ping : Frame

-- the state of the loop; `wire` is what is behind the writer
pub record Stream (E : Type 0) : Type 0 where
  pub backlog : List ChangefeedEvent
  pub wire : E

-- `write` also tells whether the frame was written without an error
module _ {E : Type 0} (write : E → Frame → E × Bool) where
  abbrev pub backlog_cap : ℕ
  backlog_cap = 512

  abbrev pub push : ChangefeedEvent → List ChangefeedEvent → List ChangefeedEvent
  push ev backlog = if ltb (length backlog) backlog_cap then backlog ++ ev ∷ [] else backlog

  abbrev pub if_written : (Stream E → Stream E) → List ChangefeedEvent → E × Bool → Stream E
  if_written rest backlog (e, true) = rest (record { backlog = backlog; wire = e })
  if_written rest backlog (e, false) = record { backlog = backlog; wire = e }

  abbrev pub on_event : (Stream E → Stream E) → Bool → ChangefeedEvent → Stream E → Stream E
  on_event rest true ev st = rest (record st { backlog = push ev st.backlog })
  on_event rest false ev st = if_written rest st.backlog (write st.wire (event ev))

  abbrev pub paused_event : Text → Text → List ChangefeedEvent → ChangefeedEvent
  paused_event table ts backlog = record (new_event (codes "paused") table ts) {
    pending = length backlog;
  }

  -- an error of the status event is not looked at
  abbrev pub on_beat :
      (Stream E → Stream E) → Text → Text → Bool → List ChangefeedEvent → E → Stream E
  on_beat rest table ts true (ev ∷ backlog) e = rest (record {
    backlog = ev ∷ backlog;
    wire = (write e (event (paused_event table ts (ev ∷ backlog)))).0;
  })
  on_beat rest table ts true [] e = if_written rest [] (write e ping)
  on_beat rest table ts false backlog e = if_written rest backlog (write e ping)

  -- `evs` is what the stream has left
  unfoldable pub serve_signals :
      Text → Bool → List Signal → List ChangefeedEvent → Stream E → Stream E
  serve_signals table paused [] evs st = st
  serve_signals table paused (done ∷ sigs) evs st = st
  serve_signals table paused (received ∷ sigs) [] st = st
  serve_signals table paused (received ∷ sigs) (ev ∷ evs) st =
      on_event (serve_signals table paused sigs evs) paused ev st
  serve_signals table paused (beat ts ∷ sigs) evs st =
      on_beat (serve_signals table paused sigs evs) table ts paused st.backlog st.wire

  unfoldable pub serve_stream :
      Text → Bool → Text → List Signal → List ChangefeedEvent → E → Stream E
  serve_stream table paused now sigs evs e =
      serve_signals table paused sigs evs
        (record { backlog = []; wire = (write e (event (new_event (codes "init") table now))).0 })

  -- what was answered if nothing was streamed, the gauge of the subscribers, and the writer
  pub record Served : Type 0 where
    pub answer : Option Response
    pub active : ℕ
    pub wire : E

  abbrev pub answered : Response → ℕ → E → Served
  answered resp active e = record { answer = some resp; active = active; wire = e }

  -- `flushes` tells whether the writer is a Flusher; the gauge is lowered on every return
  abbrev pub streaming :
      Text → Request → Bool → Text → List Signal → List ChangefeedEvent → ℕ → E → Served
  streaming table r true now sigs evs active e = record {
    answer = none;
    active = changefeed_dec (changefeed_inc active);
    wire = (serve_stream table (r.query (codes "pause") == codes "1") now sigs evs e).wire;
  }
  streaming table r false now sigs evs active e =
      answered (json_error 500 (codes "stream unsupported") (codes "stream_unsupported"))
        (changefeed_dec (changefeed_inc active)) e

  abbrev pub subscribed : {A : Type 0} → (A → ℕ → E → Served) → Result A → ℕ → E → Served
  subscribed serve (fail err) active e =
      answered (json_error_detail 500 (codes "subscribe failed") (codes "subscribe_failed") err)
        active e
  subscribed serve (ok stream) active e = serve stream active e

  -- the handler calls the manager without a test for nil
  abbrev pub with_manager :
      {S A : Type 0} → (S → Result A) → (A → ℕ → E → Served) → Option S → ℕ → E → Served
  with_manager subscribe serve none active e = answered (respond 0 Body.aborted) active e
  with_manager subscribe serve (some s) active e = subscribed serve (subscribe s) active e

  abbrev pub feed_route : (Text → Text → ℕ → E → Served) → List Text → ℕ → E → Served
  feed_route serve (db ∷ (tables ∷ (table ∷ (changes ∷ rest)))) active e =
      if tables == codes "tables" && changes == codes "changes"
      then serve db table active e
      else answered (respond 404 Body.no_body) active e
  feed_route serve _ active e = answered (respond 404 Body.no_body) active e

  unfoldable pub handle_changefeed :
      {S : Type 0}
      → (S → Text → Text → Text → Result (List ChangefeedEvent))
      → DbApi S
      → Request
      → Bool
      → Text
      → List Signal
      → ℕ
      → E
      → Served
  handle_changefeed subscribe api r flushes now sigs active e =
      feed_route
        (λ db table.
          with_manager (λ s. subscribe s api.org_id db table) (streaming table r flushes now sigs)
            api.manager)
        (split b'/' (trim_prefix (codes "/sse/db/") r.path)) active e

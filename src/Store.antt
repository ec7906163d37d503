-- ===== src/Store.antt =====
-- internal/store/store.go: the store in memory of servers, their logs and the agents. The mutex makes
-- each method one step. Servers and agents are held by value: what a caller writes later through its
-- own pointer to one is not seen. `now` is model.NowISO at the call.
pub mod Lines
pub mod Agents
use guild_net.Prelude.{
  ℕ, zero, suc, ◌+◌, ◌-◌, Bool, true, false, ◌||◌, Option, none, some, List, [], ◌∷◌, ◌++◌, Text,
  codes, text_eq_inst, nat_eq, ◌==◌, if◌then◌else◌, ltb, leb, length, drop, Assoc, lookup, insert,
  has, is_empty,
}
use guild_net.Prelude.Numbers.{ℤ, pos, negsuc}
use guild_net.Prelude.Strings.{has_prefix}
use guild_net.DbManager.{Result, ok, fail}
use guild_net.Model.Servers.{Server, LogLine, AgentRecord}

pub record PerServerLogs : Type 0 where
  pub info : List LogLine
  pub debug : List LogLine
  pub error : List LogLine

-- a subscriber's channel: what it has buffered, the oldest first
pub record LogChannel : Type 0 where
  pub chan_id : ℕ
  pub buffered : List LogLine

pub record Store : Type 0 where
  pub servers : Assoc Text Server
  pub logs : Assoc Text PerServerLogs
  pub subs : Assoc Text (List LogChannel)
  pub agents : Assoc Text AgentRecord
  pub next_chan : ℕ

abbrev pub no_logs : PerServerLogs
no_logs = record { info = []; debug = []; error = [] }

abbrev pub new_store : Store
new_store = record { servers = []; logs = []; subs = []; agents = []; next_chan = 0 }

abbrev pub bar : ℕ
bar = b'|'

abbrev pub key : Text → Text → Text
key id level = id ++ bar ∷ level

-- `if s == "" { s = other }`
abbrev pub or_else : Text → Text → Text
or_else s other = if is_empty s then other else s

unfoldable pub upsert_server : Text → Server → Store → Store
upsert_server now srv s =
    let srv' : Server = record srv {
      created_at = or_else srv.created_at now;
      updated_at = now;
      status = or_else srv.status (codes "running");
    } in
    record s {
      servers = insert srv.id srv' s.servers;
      logs = if has srv.id s.logs then s.logs else insert srv.id no_logs s.logs;
    }

abbrev pub values : Assoc Text Server → List Server
values [] = []
values ((id, srv) ∷ m) = srv ∷ values m

abbrev pub get_servers : Store → List Server
get_servers s = values s.servers

abbrev pub get_server : Text → Store → Option Server
get_server id s = lookup id s.servers

-- an unknown level counts as info
abbrev pub add_line : Text → LogLine → PerServerLogs → PerServerLogs
add_line level line l =
    if level == codes "info"
    then record l { info = l.info ++ line ∷ [] }
    else (if level == codes "debug"
        then record l { debug = l.debug ++ line ∷ [] }
        else (if level == codes "error"
            then record l { error = l.error ++ line ∷ [] }
            else record l { info = l.info ++ line ∷ [] }))

abbrev pub sub_cap : ℕ
sub_cap = 64

-- one non-blocking send
abbrev pub send : LogLine → LogChannel → LogChannel
send line ch =
    if ltb (length ch.buffered) sub_cap
    then record ch { buffered = ch.buffered ++ line ∷ [] }
    else ch

abbrev pub send_all : LogLine → List LogChannel → List LogChannel
send_all line [] = []
send_all line (ch ∷ chs) = send line ch ∷ send_all line chs

abbrev pub notify : Text → LogLine → Assoc Text (List LogChannel) → Assoc Text (List LogChannel)
notify k line subs = elim (lookup k subs) [
  | none ↦ subs
  | some chs ↦ insert k (send_all line chs) subs
]

abbrev pub unknown_server : Text
unknown_server = codes "unknown server"

unfoldable pub append_log : Text → Text → Text → Text → Store → Store × Result LogLine
append_log now id level msg s =
    let line : LogLine = record { t = now; lvl = level; msg = msg } in
    elim (lookup id s.logs) [
      | none ↦ (s, fail unknown_server)
      | some l ↦ (
        record s {
          logs = insert id (add_line level line l) s.logs;
          subs = notify (key id level) line s.subs;
        },
        ok line,
      )
    ]

unfoldable pub lines_at : Text → PerServerLogs → List LogLine
lines_at level l =
    if level == codes "debug" then l.debug else (if level == codes "error" then l.error else l.info)

-- `src[len(src)-limit:]`, or all of it
unfoldable pub last_lines : ℤ → List LogLine → List LogLine
last_lines (negsuc n) src = src
last_lines (pos zero) src = src
last_lines (pos (suc n)) src =
    if leb (length src) (suc n) then src else drop (length src - suc n) src

unfoldable pub get_logs : Text → Text → ℤ → Store → Result (List LogLine)
get_logs id level limit s = elim (lookup id s.logs) [
  | none ↦ fail unknown_server
  | some l ↦ ok (last_lines limit (lines_at level l))
]

abbrev pub chans_of : Text → Store → List LogChannel
chans_of k s = elim (lookup k s.subs) [ some chs ↦ chs | none ↦ [] ]

unfoldable pub subscribe_logs : Text → Text → Store → Store × ℕ
subscribe_logs id level s =
    let ch : LogChannel = record { chan_id = s.next_chan; buffered = [] } in
    (
      record s {
        subs = insert (key id level) (chans_of (key id level) s ++ ch ∷ []) s.subs;
        next_chan = s.next_chan + 1;
      },
      s.next_chan,
    )

abbrev pub drop_chan : ℕ → List LogChannel → List LogChannel
drop_chan n [] = []
drop_chan n (ch ∷ chs) = if ch.chan_id == n then chs else ch ∷ drop_chan n chs

-- the `cancel` that `SubscribeLogs` returns; a channel that is not there is not removed again
unfoldable pub cancel_sub : Text → Text → ℕ → Store → Store
cancel_sub id level n s = record s {
  subs = insert (key id level) (drop_chan n (chans_of (key id level) s)) s.subs;
}

abbrev pub agent_key : Text → Text → Text
agent_key org id = org ++ bar ∷ id

unfoldable pub upsert_agent : Text → AgentRecord → Store → Store
upsert_agent now a s =
    let a' : AgentRecord = record a { last_seen = or_else a.last_seen now } in
    record s { agents = insert (agent_key a.org a.id) a' s.agents }

unfoldable pub get_agent : Text → Text → Store → Option AgentRecord
get_agent org id s = lookup (agent_key org id) s.agents

abbrev pub is_listed : Text → Text → Bool
is_listed org k = is_empty org || has_prefix (org ++ bar ∷ []) k

unfoldable pub listed_agents : Text → Assoc Text AgentRecord → List AgentRecord
listed_agents org [] = []
listed_agents org ((k, v) ∷ agents) =
    let rest = listed_agents org agents in if is_listed org k then v ∷ rest else rest

abbrev pub list_agents : Text → Store → List AgentRecord
list_agents org s = listed_agents org s.agents

-- seen before the cutoff, as far as the time can be parsed
abbrev pub is_stale : (Text → Option ℕ) → ℕ → AgentRecord → Bool
is_stale parse cutoff v = elim (parse v.last_seen) [ some t ↦ ltb t cutoff | none ↦ false ]

unfoldable pub pruned : (Text → Option ℕ) → ℕ → Assoc Text AgentRecord → Assoc Text AgentRecord × ℕ
pruned parse cutoff [] = ([], 0)
pruned parse cutoff ((k, v) ∷ agents) =
    let (rest, removed) = pruned parse cutoff agents in
    if is_stale parse cutoff v then (rest, suc removed) else ((k, v) ∷ rest, removed)

unfoldable pub prune_agents : (Text → Option ℕ) → ℕ → Store → Store × ℕ
prune_agents parse cutoff s =
    let (agents, removed) = pruned parse cutoff s.agents in (record s { agents = agents }, removed)

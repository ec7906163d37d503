-- ===== src/Tests/Servers.antt =====
-- The store of servers and agents at concrete calls.
use guild_net.Prelude.{
  ℕ, Option, none, some, List, [], ◌∷◌, ◌++◌, ◌≡◌, refl, Text, codes, text_eq, text_eq_inst, lookup,
  insert, has, length, any,
}
use guild_net.Prelude.Numbers.{pos}
use guild_net.DbManager.{ok}
use guild_net.Model.Servers.{Server, LogLine, AgentRecord}
use guild_net.Store.{
  Store, no_logs, new_store, upsert_server, get_logs, upsert_agent, list_agents, lines_at,
}
use guild_net.Store.Lines.{history_at, append_each, window, get_logs-append_each}
use guild_net.Store.Agents.{Reachable, fresh, agent_added, agents_of, list_agents-agents_of}

abbrev web : Server
web = record {
  id = codes "s1";
  name = codes "web";
  image = codes "nginx";
  status = [];
  node = [];
  created_at = [];
  updated_at = [];
  ports = [];
  resources = none;
  args = [];
  env = [];
  events = [];
  url = [];
}

abbrev lines : List LogLine
lines =
    record { t = codes "1"; lvl = codes "info"; msg = codes "up" }
    ∷ record { t = codes "2"; lvl = codes "debug"; msg = codes "poll" }
    ∷ record { t = codes "3"; lvl = codes "warn"; msg = codes "slow" }
    ∷ []

abbrev one_server : Store
one_server = upsert_server (codes "0") web new_store

get_logs-append_each_example :
    (pre : List LogLine) × (out : List LogLine) × (get_logs
        (codes "s1")
        (codes "info")
        (pos 1)
        (append_each (codes "s1") lines one_server)
      ≡ ok out)
    × (lines_at (codes "info") no_logs ++ history_at (codes "info") lines ≡ pre ++ out)
    × (length out
        ≡ window
            (pos 1)
            (length (lines_at (codes "info") no_logs ++ history_at (codes "info") lines)))
unfolding upsert_server has insert lookup text_eq
get_logs-append_each_example =
    get_logs-append_each (codes "s1") (codes "info") (pos 1) lines one_server no_logs refl

abbrev agent : Text → Text → AgentRecord
agent org seen = record {
  id = codes "gw";
  org = org;
  hostname = [];
  ip = codes "100.64.0.1";
  ports = [];
  capabilities = [];
  version = [];
  last_seen = seen;
}

-- two organisations, each with an agent named gw
abbrev two_agents : Store
two_agents =
    upsert_agent (codes "now") (agent (codes "north") (codes "3"))
      (upsert_agent (codes "now") (agent (codes "south") (codes "9")) new_store)

-- a time of one digit
abbrev one_digit : Text → Option ℕ
one_digit [] = none
one_digit (c ∷ s) = some c

two_agents-Reachable : Reachable one_digit two_agents
two_agents-Reachable =
    agent_added (codes "now") (agent (codes "north") (codes "3"))
      (agent_added (codes "now") (agent (codes "south") (codes "9")) fresh)

list_agents-agents_of_example :
    list_agents (codes "north") two_agents ≡ agents_of (codes "north") two_agents.agents
unfolding upsert_agent insert text_eq any
list_agents-agents_of_example =
    list_agents-agents_of one_digit two_agents (codes "north") two_agents-Reachable refl refl refl

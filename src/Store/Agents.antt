-- ===== src/Store/Agents.antt =====
-- The agents of a store that any calls have made: what a list of them has, and what pruning leaves.
use guild_net.Prelude.{
  ℕ, Bool, true, false, ◌&&◌, not, Bool-cases, Option, none, some, List, [], ◌∷◌, ◌++◌, ◌≡◌, refl,
  inl, inr, Text, text_eq, text_eq_inst, text_eq_iff, nat_eq, ◌==◌, if◌then◌else◌, arith, any,
  is_empty, Assoc, lookup, insert,
}
use guild_net.Prelude.Maps.{lookup-insert}
use guild_net.Prelude.Strings.{has_prefix, strip_prefix}
use guild_net.Model.Servers.{Server, AgentRecord}
use guild_net.Store.{
  Store, new_store, bar, or_else, agent_key, upsert_agent, get_agent, listed_agents, list_agents,
  is_stale, pruned, prune_agents, upsert_server, append_log, subscribe_logs, cancel_sub,
}

-- the stores that calls of the methods lead to
pub data Reachable (parse : Text → Option ℕ) : Store → Type 0 where
  fresh : Reachable parse new_store
  server_added :
      {s : Store} (now : Text) (srv : Server)
      → Reachable parse s
      → Reachable parse (upsert_server now srv s)
  line_added :
      {s : Store} (now id level msg : Text)
      → Reachable parse s
      → Reachable parse (append_log now id level msg s).0
  subscribed :
      {s : Store} (id level : Text)
      → Reachable parse s
      → Reachable parse (subscribe_logs id level s).0
  unsubscribed :
      {s : Store} (id level : Text) (n : ℕ)
      → Reachable parse s
      → Reachable parse (cancel_sub id level n s)
  agent_added :
      {s : Store} (now : Text) (a : AgentRecord)
      → Reachable parse s
      → Reachable parse (upsert_agent now a s)
  agents_pruned :
      {s : Store} (cutoff : ℕ) → Reachable parse s → Reachable parse (prune_agents parse cutoff s).0

-- every agent stands once, under its own key
abbrev pub IsKeyed : Assoc Text AgentRecord → Type 0
IsKeyed [] = Unit
IsKeyed ((k, v) ∷ m) = (k ≡ agent_key v.org v.id) × (lookup k m ≡ none) × IsKeyed m

insert-IsKeyed :
    (v : AgentRecord) (m : Assoc Text AgentRecord)
    → IsKeyed m
    → IsKeyed (insert (agent_key v.org v.id) v m)
unfolding insert lookup
insert-IsKeyed v [] h = (refl, refl, tt)
insert-IsKeyed v ((k, w) ∷ m) (own, once, rest) = elim (Bool-cases (k == agent_key v.org v.id)) [
  | inl same ↦ rw same (refl, ground (arith, text_eq_iff k (agent_key v.org v.id)), rest)
  | inr apart ↦ rw apart (
    own,
    ground (
      arith,
      lookup-insert (agent_key v.org v.id) k v m,
      text_eq_iff k (agent_key v.org v.id),
      text_eq_iff (agent_key v.org v.id) k,
    ),
    insert-IsKeyed v m rest,
  )
]

module _ (parse : Text → Option ℕ) where
  lookup-pruned :
      (cutoff : ℕ) (k : Text) (m : Assoc Text AgentRecord)
      → lookup k m ≡ none
      → lookup k (pruned parse cutoff m).0 ≡ none
  unfolding pruned lookup
  lookup-pruned cutoff k [] h = refl
  lookup-pruned cutoff k ((i, v) ∷ m) h = ground (arith, lookup-pruned cutoff k m)

  pruned-IsKeyed :
      (cutoff : ℕ) (m : Assoc Text AgentRecord) → IsKeyed m → IsKeyed (pruned parse cutoff m).0
  unfolding pruned
  pruned-IsKeyed cutoff [] h = tt
  pruned-IsKeyed cutoff ((k, v) ∷ m) (own, once, rest) =
      elim (Bool-cases (is_stale parse cutoff v)) [
        | inl stale ↦ rw stale (pruned-IsKeyed cutoff m rest)
        | inr seen ↦ rw seen (own, lookup-pruned cutoff k m once, pruned-IsKeyed cutoff m rest)
      ]

  agents-append_log :
      (now id level msg : Text) (s : Store) → (append_log now id level msg s).0.agents ≡ s.agents
  unfolding append_log
  agents-append_log now id level msg s = ground arith

  pub agents-IsKeyed : (s : Store) → Reachable parse s → IsKeyed s.agents
  unfolding upsert_server subscribe_logs cancel_sub upsert_agent prune_agents
  agents-IsKeyed _ fresh = tt
  agents-IsKeyed _ (server_added {s} now srv r) = agents-IsKeyed s r
  agents-IsKeyed _ (line_added {s} now id level msg r) =
      rw (agents-append_log now id level msg s) (agents-IsKeyed s r)
  agents-IsKeyed _ (subscribed {s} id level r) = agents-IsKeyed s r
  agents-IsKeyed _ (unsubscribed {s} id level n r) = agents-IsKeyed s r
  agents-IsKeyed _ (agent_added {s} now a r) =
      insert-IsKeyed (record a { last_seen = or_else a.last_seen now }) s.agents
        (agents-IsKeyed s r)
  agents-IsKeyed _ (agents_pruned {s} cutoff r) =
      pruned-IsKeyed cutoff s.agents (agents-IsKeyed s r)

  abbrev pub forget_stale : ℕ → Option AgentRecord → Option AgentRecord
  forget_stale cutoff none = none
  forget_stale cutoff (some v) = if is_stale parse cutoff v then none else some v

  lookup-pruned_keyed :
      (cutoff : ℕ) (k : Text) (m : Assoc Text AgentRecord)
      → IsKeyed m
      → lookup k (pruned parse cutoff m).0 ≡ forget_stale cutoff (lookup k m)
  unfolding pruned lookup
  lookup-pruned_keyed cutoff k [] h = refl
  lookup-pruned_keyed cutoff k ((i, v) ∷ m) (own, once, rest) =
      ground
        (arith, lookup-pruned_keyed cutoff k m rest, lookup-pruned cutoff i m once, text_eq_iff i k)

  -- In a store that any calls have made, PruneAgents forgets an agent exactly if its last-seen time
  -- can be parsed and is before the cutoff, and leaves the record of every other as it is.
  get_agent-prune_agents :
      (s : Store) (cutoff : ℕ) (org id : Text)
      → Reachable parse s
      → get_agent org id (prune_agents parse cutoff s).0 ≡ forget_stale cutoff (get_agent org id s)
  unfolding get_agent prune_agents
  get_agent-prune_agents s cutoff org id r =
      lookup-pruned_keyed cutoff (agent_key org id) s.agents (agents-IsKeyed s r)

-- a text without the bar that separates the parts of a key
abbrev pub is_plain : Text → Bool
is_plain s = not (any (λ c. c == bar) s)

abbrev pub all_plain : Assoc Text AgentRecord → Bool
all_plain [] = true
all_plain ((k, v) ∷ m) = is_plain v.org && all_plain m

-- the agents whose organisation is the one asked for
abbrev pub agents_of : Text → Assoc Text AgentRecord → List AgentRecord
agents_of org [] = []
agents_of org ((k, v) ∷ m) = let rest = agents_of org m in if v.org == org then v ∷ rest else rest

has_prefix-agent_key :
    (org o id : Text)
    → is_plain org ≡ true
    → is_plain o ≡ true
    → has_prefix (org ++ bar ∷ []) (agent_key o id) ≡ (o == org)
unfolding strip_prefix any text_eq
has_prefix-agent_key [] [] id h g = refl
has_prefix-agent_key [] (c ∷ o) id h g = ground arith
has_prefix-agent_key (p ∷ org) [] id h g = ground arith
has_prefix-agent_key (p ∷ org) (c ∷ o) id h g = ground (arith, has_prefix-agent_key org o id)

listed_agents-of :
    (org : Text) (m : Assoc Text AgentRecord)
    → is_empty org ≡ false
    → is_plain org ≡ true
    → all_plain m ≡ true
    → IsKeyed m
    → listed_agents org m ≡ agents_of org m
unfolding listed_agents
listed_agents-of org [] named plain plains h = refl
listed_agents-of org ((k, v) ∷ m) named plain plains (own, once, rest) =
    rw own (ground (arith, has_prefix-agent_key org v.org v.id, listed_agents-of org m))

-- In a store that any calls have made, ListAgents of an organisation gives the agents of that
-- organisation and no other's, if neither its id, which is not empty, nor the id of an agent's
-- organisation has a vertical bar.
pub list_agents-agents_of :
    (parse : Text → Option ℕ) (s : Store) (org : Text)
    → Reachable parse s
    → is_empty org ≡ false
    → is_plain org ≡ true
    → all_plain s.agents ≡ true
    → list_agents org s ≡ agents_of org s.agents
list_agents-agents_of parse s org r named plain plains =
    listed_agents-of org s.agents named plain plains (agents-IsKeyed parse s r)

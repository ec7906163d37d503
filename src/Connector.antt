-- ===== src/Connector.antt =====
-- internal/ts/connector/connector.go: the embedded tsnet server of a cluster. tsnet, the file system
-- and the context of a call are the operations of `Tsnet` over their state `E`, and a server is a
-- handle of type `V`; an error is its message.
pub mod Lifecycle
pub mod Polling
use guild_net.Prelude.{
  ℕ, zero, suc, Bool, true, false, ◌&&◌, ◌||◌, not, Option, none, some, List, [], ◌∷◌, ◌++◌, Text,
  codes, is_empty, leb, ◌==◌, nat_eq, text_eq_inst, if◌then◌else◌,
}
use guild_net.Prelude.Strings.{trim_space, to_lower}
use guild_net.Json.{str, Row}
use guild_net.DbManager.{Result, ok, fail}

pub record Config : Type 0 where
  pub cluster_id : Text
  pub login_server : Text
  pub client_auth_key : Text
  pub state_dir : Text
  pub hostname : Text

-- the fields of a new tsnet.Server
pub record ServerConfig : Type 0 where
  pub dir : Text
  pub hostname : Text
  pub auth_key : Text
  pub control_url : Text

-- what the code reads of a tsnet status; `self` is the DNS name of the node itself
pub record Status : Type 0 where
  pub tailscale_ips : List Text
  pub self : Option Text

-- `mkdir_all` and `chmod` are those of a directory with mode 0700; `random` is four bytes in
-- hexadecimal; `status` may give a nil status without an error; `expired` is the end of the 30
-- seconds, and `pause` the wait for 200 ms, or the error of the context if it ends first.
pub record Tsnet (E V : Type 0) : Type 0 where
  pub home : E → Text
  pub join : Text → Text → Text
  pub mkdir_all : E → Text → E × Option Text
  pub chmod : E → Text → E
  pub dir_exists : E → Text → Bool
  pub host_name : E → Text
  pub random : E → E × Text
  pub start : E → ServerConfig → E × Result V
  pub local_client : E → V → E × Option Text
  pub status : E → V → E × Result (Option Status)
  pub expired : E → Bool
  pub pause : E → E × Option Text
  pub close : E → V → E × Option Text

-- `started` and `stopped` are the two sync.Once.
pub record Connector (V : Type 0) : Type 0 where
  pub cfg : Config
  pub srv : Option V
  pub started : Bool
  pub stopped : Bool

-- the character that `sanitizeID` writes for one that it reads
unfoldable pub sanitized_rune : ℕ → Option ℕ
sanitized_rune r =
    if leb b'a' r && leb r b'z' || leb b'0' r && leb r b'9'
    then some r
    else (if r == b'-' || (r == b'_' || r == b'.') then some b'-' else none)

abbrev pub written : Option ℕ → Text → Text
written none s = s
written (some c) s = c ∷ s

unfoldable pub sanitized_runes : Text → Text
sanitized_runes [] = []
sanitized_runes (r ∷ s) = written (sanitized_rune r) (sanitized_runes s)

-- `strings.Trim` at a dash
unfoldable pub trim_left_dash : Text → Text
trim_left_dash [] = []
trim_left_dash (c ∷ s) = let rest = trim_left_dash s in if c == b'-' then rest else c ∷ s

abbrev pub without_dash : ℕ → Text → Text
without_dash c [] = if c == b'-' then [] else c ∷ []
without_dash c (d ∷ s) = c ∷ (d ∷ s)

unfoldable pub trim_right_dash : Text → Text
trim_right_dash [] = []
trim_right_dash (c ∷ s) = without_dash c (trim_right_dash s)

abbrev pub default_if_empty : Text → Text
default_if_empty [] = codes "default"
default_if_empty (c ∷ s) = c ∷ s

module _ (unicode_lower : ℕ → ℕ) where
  unfoldable pub sanitize_id : Text → Text
  sanitize_id s =
      default_if_empty
        (trim_right_dash (trim_left_dash (sanitized_runes (to_lower unicode_lower (trim_space s)))))

-- the server is up if it has an address or a name
abbrev pub has_address : List Text → Bool
has_address [] = false
has_address (x ∷ xs) = true

abbrev pub has_name : Option Text → Bool
has_name none = false
has_name (some name) = not (is_empty name)

abbrev pub is_up : Result (Option Status) → Bool
is_up (ok (some st)) = has_address st.tailscale_ips || has_name st.self
is_up _ = false

-- `strings.TrimSuffix` of a dot
unfoldable pub trim_dot : Text → Text
trim_dot [] = []
trim_dot (c ∷ []) = if c == b'.' then [] else c ∷ []
trim_dot (c ∷ (d ∷ s)) = c ∷ trim_dot (d ∷ s)

module _ {E V : Type 0} (t : Tsnet E V) where
  abbrev pub rand_suffix : E → Text → E × Text
  rand_suffix e prefix = let (e, bytes) = t.random e in (e, prefix ++ (codes "-" ++ bytes))

  abbrev pub named_host : E → Text → E × Text
  named_host e [] = rand_suffix e (codes "node")
  named_host e (c ∷ host) = (e, c ∷ host)

  -- `Stop` once, and `CloseServer` as often as it is called
  abbrev pub closed : Connector V → Option V → E → E × Connector V × Option Text
  closed c none e = (e, c, none)
  closed c (some s) e = let (e, err) = t.close e s in (e, record c { srv = none }, err)

  unfoldable pub close_server : E → Connector V → E × Connector V × Option Text
  close_server e c = closed c c.srv e

  unfoldable pub stop : E → Connector V → E × Connector V × Option Text
  unfolding close_server
  stop e c = if c.stopped then (e, c, none) else (close_server e (record c { stopped = true }))

  -- the loop that waits for the server; none where the fuel runs out
  abbrev pub after_wait :
      (E → Option (E × Option Text)) → E × Option Text → Option (E × Option Text)
  after_wait rest (e, some ended) = some (e, some ended)
  after_wait rest (e, none) = rest e

  abbrev pub polled :
      (E → Option (E × Option Text)) → E × Result (Option Status) → Option (E × Option Text)
  polled rest (e, st) =
      let later = after_wait rest (t.pause e) in
      if is_up st then some (e, none) else if t.expired e then some (e, none) else later

  unfoldable pub wait_up : ℕ → V → E → Option (E × Option Text)
  wait_up zero s e = none
  wait_up (suc fuel) s e = polled (wait_up fuel s) (t.status e s)

  -- a server that did not come up by the end of the context is closed
  abbrev pub kept_or_closed :
      Connector V → V → Option (E × Option Text) → Option (E × Connector V × Option Text)
  kept_or_closed c s none = none
  kept_or_closed c s (some (e, none)) = some (e, record c { srv = some s }, none)
  kept_or_closed c s (some (e, some ended)) = some ((t.close e s).0, c, some ended)

  abbrev pub with_client :
      ℕ → Connector V → V → E × Option Text → Option (E × Connector V × Option Text)
  with_client fuel c s (e, some err) =
      some ((t.close e s).0, c, some (codes "local client: " ++ err))
  with_client fuel c s (e, none) = kept_or_closed c s (wait_up fuel s e)

  abbrev pub with_server : ℕ → Connector V → E × Result V → Option (E × Connector V × Option Text)
  with_server fuel c (e, fail err) = some (e, c, some (codes "tsnet start: " ++ err))
  with_server fuel c (e, ok s) = with_client fuel c s (t.local_client e s)

  abbrev pub server_config : Config → ServerConfig
  server_config cfg = record {
    dir = cfg.state_dir;
    hostname = cfg.hostname;
    auth_key = trim_space cfg.client_auth_key;
    control_url = trim_space cfg.login_server;
  }

  unfoldable pub start_server : ℕ → E → Connector V → Option (E × Connector V × Option Text)
  start_server fuel e c = with_server fuel c (t.start e (server_config c.cfg))

  -- what the once of `Start` runs
  unfoldable pub start_once : ℕ → E → Connector V → Option (E × Connector V × Option Text)
  unfolding start_server
  start_once fuel e c =
      if not (t.dir_exists e c.cfg.state_dir) && is_empty (trim_space c.cfg.client_auth_key)
      then some (e, c, some (codes "clientAuthKey required for first start"))
      else start_server fuel e c

  unfoldable pub start : ℕ → E → Connector V → Option (E × Connector V × Option Text)
  unfolding start_once
  start fuel e c =
      if c.started then some (e, c, none) else start_once fuel e (record c { started = true })

  -- `DialContext` and `Listen`, with what tsnet does as `call`
  unfoldable pub on_server : {A : Type 0} → (V → E × Result A) → E → Connector V → E × Result A
  on_server call e c = elim c.srv [
    | none ↦ (e, fail (codes "connector not started"))
    | some s ↦ call s
  ]

  abbrev pub first_ip : List Text → Text
  first_ip [] = []
  first_ip (ip ∷ ips) = ip

  abbrev pub fqdn_of : Option Text → Text
  fqdn_of none = []
  fqdn_of (some name) = trim_dot name

  -- a nil status is dereferenced, which is `none`
  abbrev pub health_of : Row → Result (Option Status) → Option (Text × Row)
  health_of det (fail err) = some (codes "degraded", (codes "error", str err) ∷ det)
  health_of det (ok none) = none
  health_of det (ok (some st)) =
      let ip : Text = first_ip st.tailscale_ips in
      let fqdn : Text = fqdn_of st.self in
      let det' : Row = (codes "ip", str ip) ∷ ((codes "fqdn", str fqdn) ∷ det) in
      some (if is_empty ip && is_empty fqdn then codes "starting" else codes "ok", det')

  -- the details are the entries of the map, in the order in which they were written
  abbrev pub client_health : E → V → Row → Option Text → Option (Text × Row)
  client_health e s det (some err) = some (codes "degraded", (codes "error", str err) ∷ det)
  client_health e s det none = health_of det (t.status e s).1

  abbrev pub server_health : E → Row → Option V → Option (Text × Row)
  server_health e det none = some (codes "stopped", det)
  server_health e det (some s) = client_health (t.local_client e s).0 s det (t.local_client e s).1

  unfoldable pub health : E → Connector V → Option (Text × Row)
  unfolding trim_dot
  health e c =
      server_health e
        ((codes "clusterId", str c.cfg.cluster_id)
          ∷ ((codes "stateDir", str c.cfg.state_dir)
              ∷ ((codes "loginServer", str c.cfg.login_server) ∷ [])))
        c.srv

  module _ (unicode_lower : ℕ → ℕ) where
    abbrev pub with_host : Config → Text → Text → E × Text → E × Result (Connector V)
    with_host cfg id state (e, host) = (
      e,
      ok (record {
        cfg = record cfg {
          state_dir = state;
          hostname =
              codes "guildnet-"
              ++ (sanitize_id unicode_lower id ++ (codes "-" ++ sanitize_id unicode_lower host));
        };
        srv = none;
        started = false;
        stopped = false;
      }),
    )

    abbrev pub with_name : Config → Text → Text → E → E × Result (Connector V)
    with_name cfg id state e =
        if is_empty (trim_space cfg.hostname)
        then with_host cfg id state (named_host e (t.host_name e))
        else (
          e,
          ok (record {
            cfg = record cfg { state_dir = state };
            srv = none;
            started = false;
            stopped = false;
          }),
        )

    abbrev pub made : Config → Text → Text → E × Option Text → E × Result (Connector V)
    made cfg id state (e, some err) = (e, fail (codes "state dir: " ++ err))
    made cfg id state (e, none) = with_name cfg id state (t.chmod e state)

    abbrev pub in_dir : E → Config → Text → Result Text → E × Result (Connector V)
    in_dir e cfg id (fail err) = (e, fail err)
    in_dir e cfg id (ok state) = made cfg id state (t.mkdir_all e state)

    abbrev pub home_dir : Text → Text → Result Text
    home_dir id [] = fail (codes "no home dir for state")
    home_dir id (c ∷ home) = ok (
        t.join (t.join (t.join (c ∷ home) (codes ".guildnet")) (codes "tsnet"))
          (codes "cluster-" ++ sanitize_id unicode_lower id))

    abbrev pub state_of : E → Text → Text → Result Text
    state_of e id [] = home_dir id (t.home e)
    state_of e id (c ∷ state) = ok (c ∷ state)

    unfoldable pub new : E → Config → E × Result (Connector V)
    new e cfg =
        let id : Text = trim_space cfg.cluster_id in
        if is_empty id
        then (e, fail (codes "clusterID required"))
        else if is_empty (trim_space cfg.login_server)
        then (e, fail (codes "loginServer required"))
        else in_dir e cfg id (state_of e id (trim_space cfg.state_dir))

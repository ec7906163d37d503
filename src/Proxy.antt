-- ===== src/Proxy.antt =====
-- internal/proxy/allowlist.go: the hosts and ports that the proxy may reach. The addresses and networks
-- of package net and strings.EqualFold are the interface `Net`.
pub mod Matching
pub mod Headers
pub mod Forwarding
pub mod Target
pub mod Cookies
use guild_net.Prelude.{
  ℕ, zero, suc, Bool, true, false, ◌&&◌, ◌||◌, not, Option, none, some, List, [], ◌∷◌, ◌++◌, Text,
  codes, text_eq_inst, nat_eq, ◌==◌, if◌then◌else◌, leb, any, is_empty,
}
use guild_net.Prelude.Numbers.{ℤ, pos, negsuc, atoi}
use guild_net.Prelude.Strings.{trim_space, push_head}
use guild_net.DbManager.{Result, ok, fail}

-- `net.ParseCIDR`, `net.ParseIP`, `IPNet.Contains`, `strings.EqualFold` and `%q`
pub record Net (I N : Type 0) : Type 0 where
  pub parse_cidr : Text → Result N
  pub parse_ip : Text → Option I
  pub contains_ip : N → I → Bool
  pub equal_fold : Text → Text → Bool
  pub quote : Text → Text

-- `strings.Cut` at one character
unfoldable pub cut : ℕ → Text → Option (Text × Text)
cut sep [] = none
cut sep (c ∷ s) =
    let rest = cut sep s in
    if c == sep
    then some ([], s)
    else elim rest [ none ↦ none | some (before, after) ↦ some (c ∷ before, after) ]

pub data Entry (N : Type 0) : Type 0 where
  cidr_entry : N → Entry N
  host_port_entry : Text → ℤ → Entry N

-- `port <= 0 || port > 65535`
abbrev pub is_port : ℤ → Bool
is_port (pos (suc n)) = leb (suc n) 65535
is_port (pos zero) = false
is_port (negsuc n) = false

abbrev pub same_port : ℤ → ℤ → Bool
same_port (pos a) (pos b) = a == b
same_port (negsuc a) (negsuc b) = a == b
same_port _ _ = false

-- `strings.Contains(it, "/")`
abbrev pub has_slash : Text → Bool
has_slash it = any (λ c. c == b'/') it

-- `IsEmpty`
abbrev pub has_no_entry : {N : Type 0} → List (Entry N) → Bool
has_no_entry [] = true
has_no_entry (e ∷ entries) = false

module _ {I N : Type 0} (net : Net I N) where
  abbrev pub invalid_port : Text → Text
  invalid_port it = codes "invalid port in " ++ net.quote it

  abbrev pub checked_port : Text → Text → Option ℤ → Result (Entry N)
  checked_port it h none = fail (invalid_port it)
  checked_port it h (some port) =
      if is_port port then ok (host_port_entry h port) else fail (invalid_port it)

  abbrev pub host_port : Text → Option (Text × Text) → Result (Entry N)
  host_port it none =
      fail (codes "invalid allowlist item " ++ (net.quote it ++ codes " (want host:port or CIDR)"))
  host_port it (some (h, p)) = checked_port it h (atoi p)

  abbrev pub cidr : Text → Result N → Result (Entry N)
  cidr it (fail err) = fail (codes "invalid CIDR " ++ (net.quote it ++ (codes ": " ++ err)))
  cidr it (ok ipnet) = ok (cidr_entry ipnet)

  -- one item, trimmed and not empty
  abbrev pub parse_item : Text → Result (Entry N)
  parse_item it =
      let of_net = cidr it (net.parse_cidr it) in
      let of_host = host_port it (cut b':' it) in if has_slash it then of_net else of_host

  abbrev pub add_entry : Result (Entry N) → Result (List (Entry N)) → Result (List (Entry N))
  add_entry (fail err) rest = fail err
  add_entry (ok e) (fail err) = fail err
  add_entry (ok e) (ok entries) = ok (e ∷ entries)

  -- `NewAllowlist`: the first item that cannot be read is the error
  unfoldable pub new_allowlist : List Text → Result (List (Entry N))
  new_allowlist [] = ok []
  new_allowlist (item ∷ items) =
      let rest = new_allowlist items in
      let it = trim_space item in if is_empty it then rest else add_entry (parse_item it) rest

  -- the `Allowed` of an entry
  abbrev pub in_net : N → Option I → Bool
  in_net n none = false
  in_net n (some ip) = net.contains_ip n ip

  abbrev pub entry_allowed : Entry N → Text → ℤ → Bool
  entry_allowed (cidr_entry n) host port = in_net n (net.parse_ip host)
  entry_allowed (host_port_entry h p) host port = net.equal_fold host h && same_port port p

  -- the test of a network before the entry's own
  abbrev pub cidr_first : Entry N → Option I → Bool
  cidr_first (cidr_entry n) ip = in_net n ip
  cidr_first (host_port_entry h p) ip = false

  unfoldable pub allowed : List (Entry N) → Text → ℤ → Bool
  allowed [] host port = false
  allowed (e ∷ entries) host port =
      let rest = allowed entries host port in
      if cidr_first e (net.parse_ip host)
      then true
      else (if entry_allowed e host port then true else rest)

  abbrev pub allowed_at : List (Entry N) → Text → Option ℤ → Bool
  allowed_at entries h none = false
  allowed_at entries h (some port) = allowed entries h port

  abbrev pub allowed_cut : List (Entry N) → Option (Text × Text) → Bool
  allowed_cut entries none = false
  allowed_cut entries (some (h, p)) = allowed_at entries h (atoi p)

  abbrev pub allowed_addr : List (Entry N) → Text → Bool
  allowed_addr entries addr = allowed_cut entries (cut b':' addr)

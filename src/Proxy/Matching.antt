-- ===== src/Proxy/Matching.antt =====
-- The allowlist against its items: what a list of items lets through, and when it cannot be read.
use guild_net.Prelude.{
  Bool, false, ◌&&◌, ◌||◌, Bool-cases, Option, none, some, List, [], ◌∷◌, ◌≡◌, refl, ◌∙◌, inl, inr,
  Text, text_eq_inst, nat_eq, if◌then◌else◌, arith, is_empty, any,
}
use guild_net.Prelude.Numbers.{ℤ, atoi}
use guild_net.Prelude.Strings.{trim_space}
use guild_net.DbManager.{Result, ok, fail}
use guild_net.Proxy.{
  Net, cut, Entry, cidr_entry, host_port_entry, is_port, same_port, has_slash, checked_port,
  host_port, cidr, parse_item, add_entry, new_allowlist, in_net, entry_allowed, allowed,
}

module _ {I N : Type 0} (net : Net I N) where
  abbrev net_lets : Text → ℤ → Result N → Bool
  net_lets host port (fail e) = false
  net_lets host port (ok n) = in_net net n (net.parse_ip host)

  abbrev port_lets : Text → ℤ → Text → Option ℤ → Bool
  port_lets host port h none = false
  port_lets host port h (some p) = is_port p && (net.equal_fold host h && same_port port p)

  abbrev pair_lets : Text → ℤ → Option (Text × Text) → Bool
  pair_lets host port none = false
  pair_lets host port (some (h, p)) = port_lets host port h (atoi p)

  -- What one item lets through: a network its addresses, a host and port that host at that port, an
  -- item that cannot be read nothing.
  pub item_lets : Text → ℤ → Text → Bool
  item_lets host port it =
      if is_empty it
      then false
      else (if has_slash it
          then net_lets host port (net.parse_cidr it)
          else pair_lets host port (cut b':' it))

  -- an entry lets through what its item does
  abbrev Matches : Text → ℤ → Bool → Result (Entry N) → Type 0
  Matches host port lets (fail e) = Unit
  Matches host port lets (ok e) = entry_allowed net e host port ≡ lets

  cidr-Matches :
      (host : Text) (port : ℤ) (it : Text) (r : Result N)
      → Matches host port (net_lets host port r) (cidr net it r)
  cidr-Matches host port it (fail e) = tt
  cidr-Matches host port it (ok n) = refl

  checked_port-Matches :
      (host : Text) (port : ℤ) (it h : Text) (p : Option ℤ)
      → Matches host port (port_lets host port h p) (checked_port net it h p)
  checked_port-Matches host port it h none = tt
  checked_port-Matches host port it h (some p) = elim (Bool-cases (is_port p)) [
    | inl fine ↦ rw fine refl
    | inr bad ↦ rw bad tt
  ]

  host_port-Matches :
      (host : Text) (port : ℤ) (it : Text) (hp : Option (Text × Text))
      → Matches host port (pair_lets host port hp) (host_port net it hp)
  host_port-Matches host port it none = tt
  host_port-Matches host port it (some (h, p)) = checked_port-Matches host port it h (atoi p)

  parse_item-Matches :
      (host : Text) (port : ℤ) (it : Text)
      → is_empty it ≡ false
      → Matches host port (item_lets host port it) (parse_item net it)
  unfolding item_lets
  parse_item-Matches host port it filled = elim (Bool-cases (has_slash it)) [
    | inl slash ↦ rw (filled, slash) (cidr-Matches host port it (net.parse_cidr it))
    | inr none_there ↦ rw (filled, none_there) (host_port-Matches host port it (cut b':' it))
  ]

  entry_first :
      (e : Entry N) (host : Text) (port : ℤ) (entries : List (Entry N))
      → allowed net (e ∷ entries) host port
        ≡ (entry_allowed net e host port || allowed net entries host port)
  unfolding allowed
  entry_first (cidr_entry n) host port entries = ground arith
  entry_first (host_port_entry h p) host port entries = ground arith

  allowed-add_entry :
      (host : Text) (port : ℤ) (lets rest_lets : Bool) (e : Result (Entry N))
      (rest : Result (List (Entry N))) (entries : List (Entry N))
      → Matches host port lets e
      → ((es : List (Entry N)) → rest ≡ ok es → allowed net es host port ≡ rest_lets)
      → add_entry net e rest ≡ ok entries
      → allowed net entries host port ≡ (lets || rest_lets)
  allowed-add_entry host port lets rest_lets (fail e) rest entries h k built = cc
  allowed-add_entry host port lets rest_lets (ok e) (fail err) entries h k built = cc
  allowed-add_entry host port lets rest_lets (ok e) (ok es) entries h k built =
      let whole : entries ≡ e ∷ es = cc in
      rw whole (entry_first e host port es ∙ rw (h, k es refl) refl)

  -- An allowlist that was read lets a host and port through exactly if one of the items it was read
  -- from does.
  pub allowed-new_allowlist :
      (items : List Text) (entries : List (Entry N)) (host : Text) (port : ℤ)
      → new_allowlist net items ≡ ok entries
      → allowed net entries host port ≡ any (λ item. item_lets host port (trim_space item)) items
  unfolding new_allowlist any allowed item_lets
  allowed-new_allowlist [] entries host port built =
      let nothing : entries ≡ [] = cc in rw (nothing, allowed) refl
  allowed-new_allowlist (item ∷ items) entries host port built =
      elim (Bool-cases (is_empty (trim_space item))) [
        | inl blank ↦
            (let unread : new_allowlist net items ≡ ok entries = ground (arith, built) in
              rw (blank, item_lets) (allowed-new_allowlist items entries host port unread))
        | inr filled ↦
            allowed-add_entry host port (item_lets host port (trim_space item))
              (any (λ i. item_lets host port (trim_space i)) items)
              (parse_item net (trim_space item)) (new_allowlist net items) entries
              (parse_item-Matches host port (trim_space item) filled)
              (λ es read. allowed-new_allowlist items es host port read) (ground (arith, built))
      ]

-- ===== src/Tests/Proxies.antt =====
-- The proxy at concrete requests.
use guild_net.Prelude.{
  ℕ, false, Option, none, some, List, [], ◌∷◌, ◌≡◌, refl, Text, codes, text_eq_inst, nat_eq, ◌==◌,
  any,
}
use guild_net.Prelude.Numbers.{pos, digits_value, atoi}
use guild_net.Prelude.Strings.{trim_space, trim_right, trim_left, is_space}
use guild_net.DbManager.{Result, ok, fail}
use guild_net.Proxy.{Net, cut, Entry, cidr_entry, host_port_entry, new_allowlist, allowed}
use guild_net.Proxy.Target.{ProxyRequest, Options, serve_target}
use guild_net.Proxy.Forwarding.{IsSound, serve_target-IsSound}
use guild_net.Proxy.Matching.{item_lets, allowed-new_allowlist}

-- an address is its first character, and a network the addresses with one
abbrev small_net : Net ℕ ℕ
small_net = record {
  parse_cidr = λ t. elim t [ [] ↦ fail (codes "empty") | c ∷ s ↦ ok c ];
  parse_ip = λ t. elim t [ [] ↦ none | c ∷ s ↦ some c ];
  contains_ip = λ n ip. n == ip;
  equal_fold = λ a b. a == b;
  quote = λ t. t;
}

abbrev items : List Text
items = codes " 7/8" ∷ codes "" ∷ codes "db.local:5432" ∷ []

abbrev entries : List (Entry ℕ)
entries = cidr_entry b'7' ∷ host_port_entry (codes "db.local") (pos 5432) ∷ []

allowed-new_allowlist_example :
    allowed small_net entries (codes "db.local") (pos 5432)
    ≡ any (λ item. item_lets small_net (codes "db.local") (pos 5432) (trim_space item)) items
unfolding new_allowlist trim_space trim_right trim_left is_space any cut digits_value atoi
allowed-new_allowlist_example =
    allowed-new_allowlist small_net items entries (codes "db.local") (pos 5432) refl

-- `unicode.ToLower` beyond ASCII, and url.Parse of a path
abbrev same : ℕ → ℕ
same c = c

abbrev as_path : Text → Option Text
as_path t = some t

-- the attributes of `sid=1; Secure; Path=/; Domain=up`
abbrev attributes : List Text
attributes = codes " Secure" ∷ codes " Path=/" ∷ codes " Domain=up" ∷ []

abbrev no_resolver : Options
no_resolver = record { resolve_server = none; has_api_proxy = false }

abbrev to_web : ProxyRequest
to_web = record {
  path = codes "/proxy/web:8443/login";
  query_to = [];
  query_path = [];
  query_scheme = [];
}

abbrev at_colon : Text → Result (Text × Text)
at_colon t = elim (cut b':' t) [ none ↦ fail (codes "missing port") | some hp ↦ ok hp ]

serve_target-IsSound_example :
    IsSound no_resolver (λ t. ok t) at_colon (serve_target no_resolver (λ t. ok t) at_colon to_web)
serve_target-IsSound_example = serve_target-IsSound no_resolver (λ t. ok t) at_colon to_web

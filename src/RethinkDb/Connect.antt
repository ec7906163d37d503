-- ===== src/RethinkDb/Connect.antt =====
-- `Connect`, `ConnectWithOptions` and `ConnectWithSettings` of internal/db/db.go. The session is the
-- driver's.
use guild_net.Prelude.{ℕ, Option, Text, codes, is_empty, ◌++◌, if◌then◌else◌}
use guild_net.Prelude.Strings.{trim_space}
use guild_net.DbManager.{Result, ok, fail}
use guild_net.RethinkDb.Discover.{Kube, auto_discover_addr}

-- a user or a password that is empty is not set; the times are in seconds
pub record ConnectOpts : Type 0 where
  pub address : Text
  pub username : Text
  pub password : Text
  pub initial_cap : ℕ
  pub max_open : ℕ
  pub timeout : ℕ
  pub read_timeout : ℕ
  pub write_timeout : ℕ

abbrev pub connect_opts : Text → Text → Text → ConnectOpts
connect_opts address username password = record {
  address = address;
  username = username;
  password = password;
  initial_cap = 2;
  max_open = 10;
  timeout = 3;
  read_timeout = 3;
  write_timeout = 3;
}

module _ {M : Type 0} (dial : ConnectOpts → Result M) where
  abbrev pub with_session : Text → Result M → Result M
  with_session addr (ok m) = ok m
  with_session addr (fail e) =
      fail (codes "rethinkdb connect failed addr=" ++ (addr ++ (codes ": " ++ e)))

  abbrev pub connect_explicit : Text → Text → Text → Result M
  connect_explicit addr user pass =
      if is_empty addr
      then fail (
          codes
            "rethinkdb: explicit address required; RethinkDB must run inside the Kubernetes cluster")
      else with_session addr (dial (connect_opts addr (trim_space user) (trim_space pass)))

  -- the two functions have the same body
  unfoldable pub connect_with_options : Text → Text → Text → Result M
  connect_with_options address user pass = connect_explicit (trim_space address) user pass

  unfoldable pub connect_with_settings : Text → Text → Text → Result M
  connect_with_settings addr user pass = connect_explicit (trim_space addr) user pass

  abbrev pub connect_at : (Text → Text) → Text → Result M
  connect_at env addr =
      if is_empty addr
      then fail (
          codes
            "rethinkdb: no in-cluster address discovered; RethinkDB must run inside the Kubernetes cluster")
      else with_session addr
          (dial (connect_opts addr (env (codes "RETHINKDB_USER")) (env (codes "RETHINKDB_PASS"))))

  -- the manager that the handlers connect to, from the environment alone
  unfoldable pub connect : (ℕ → Text) → (Text → Text) → Option Kube → Option Text → Result M
  connect print env kc file = connect_at env (auto_discover_addr print env kc file)

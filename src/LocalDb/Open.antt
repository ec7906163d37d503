-- ===== src/LocalDb/Open.antt =====
-- `Open` of internal/localdb/db.go and `OpenManager` of internal/localdb/manager.go. `E` is the state
-- of the files and of the driver, `H` a handle of SQLite.
use guild_net.Prelude.{
  ℕ, zero, suc, ◌+◌, ◌*◌, Option, none, some, List, [], ◌∷◌, ◌++◌, Text, codes, is_empty,
  if◌then◌else◌,
}
use guild_net.DbManager.{Result, ok, fail}

-- `wait` pauses for a number of milliseconds, and gives the error of the context if it ends first.
pub record Files (E H : Type 0) : Type 0 where
  pub make_dir : E → Text → E × Option Text
  pub join : Text → Text → Text
  pub sql_open : E → Text → E × Result H
  pub exec : E → H → Text → E × Option Text
  pub close : E → H → E
  pub wait : E → ℕ → E × Option Text

pub record LocalManager (H : Type 0) : Type 0 where
  pub path : Text
  pub db : H

abbrev pub or_dot : Text → Text
or_dot dir = if is_empty dir then codes "." else dir

abbrev pub sqlite_schema : List Text
sqlite_schema =
    codes
      "CREATE TABLE IF NOT EXISTS kv (collection TEXT NOT NULL, key TEXT NOT NULL, value BLOB, PRIMARY KEY(collection, key))"
    ∷ (codes
          "CREATE TABLE IF NOT EXISTS logs (collection TEXT NOT NULL, key TEXT NOT NULL, value BLOB, PRIMARY KEY(collection, key))"
        ∷ [])

module _ {E H : Type 0} (f : Files E H) where
  abbrev pub after_exec : (E → E × Result H) → H → E × Option Text → E × Result H
  after_exec rest h (e, some err) = (f.close e h, fail (codes "init sqlite schema: " ++ err))
  after_exec rest h (e, none) = rest e

  -- the loop over the statements of the schema
  unfoldable pub exec_each : List Text → H → E → E × Result H
  exec_each [] h e = (e, ok h)
  exec_each (s ∷ statements) h e = after_exec (exec_each statements h) h (f.exec e h s)

  -- a failure of the pragma is ignored
  abbrev pub with_handle : E × Result H → E × Result H
  with_handle (e, fail err) = (e, fail err)
  with_handle (e, ok h) =
      exec_each sqlite_schema h (f.exec e h (codes "PRAGMA journal_mode=WAL;")).0

  abbrev pub in_state_dir : Text → E × Option Text → E × Result H
  in_state_dir dir (e, some err) = (e, fail err)
  in_state_dir dir (e, none) = with_handle (f.sql_open e (f.join dir (codes "guildnet.sqlite")))

  unfoldable pub open_local : E → Text → E × Result H
  open_local e state_dir = in_state_dir (or_dot state_dir) (f.make_dir e (or_dot state_dir))

  abbrev pub after_backoff : (E → E × Result H) → E × Option Text → E × Result H
  after_backoff rest (e, some ended) = (e, fail ended)
  after_backoff rest (e, none) = rest e

  abbrev pub after_open : (E → Text → E × Result H) → ℕ → E × Result H → E × Result H
  after_open rest i (e, ok h) = (e, ok h)
  after_open rest i (e, fail err) = after_backoff (λ e. rest e err) (f.wait e (200 * (i + 1)))

  -- `left` attempts are left, and `i` were made; `last` is the error of the last one
  unfoldable pub open_attempts : ℕ → ℕ → Text → E → Text → E × Result H
  open_attempts zero i dir e last = (e, fail (codes "open per-cluster db: " ++ last))
  open_attempts (suc left) i dir e last =
      after_open (open_attempts left (suc i) dir) i (open_local e dir)

  abbrev pub managed : Text → E × Result H → E × Result (LocalManager H)
  managed dir (e, fail err) = (e, fail err)
  managed dir (e, ok h) = (e, ok (record { path = f.join dir (codes "guildnet.sqlite"); db = h }))

  abbrev pub with_dir : Text → E × Option Text → E × Result (LocalManager H)
  with_dir dir (e, some err) = (e, fail err)
  with_dir dir (e, none) = managed dir (open_attempts 5 0 dir e [])

  unfoldable pub open_manager : E → Text → Text → E × Result (LocalManager H)
  open_manager e state_dir cluster_id =
      let dir = f.join (or_dot state_dir) cluster_id in with_dir dir (f.make_dir e dir)

  unfoldable pub close_manager : E → Option (LocalManager H) → E
  close_manager e none = e
  close_manager e (some m) = f.close e m.db

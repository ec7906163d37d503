-- ===== src/Settings.antt =====
-- internal/settings/settings.go: the getters and setters of the typed settings over the local
-- database.
pub mod Values
pub mod RoundTrip
use guild_net.Prelude.{
  ℕ, Bool, true, false, ◌||◌, not, Option, none, some, List, [], ◌∷◌, ◌++◌, ◌+◌, ◌^◌, ◌&&◌, leb,
  Text, codes, is_empty, map, ◌==◌, nat_eq, text_eq_inst, if◌then◌else◌, lookup,
}
use guild_net.Prelude.Strings.{trim_space}
use guild_net.Json.{Json, null, bool, num, str, arr, obj, Row}
use guild_net.DbManager.{Result, ok, fail}
use guild_net.LocalDb.{Sql, put_value, get_value}
use guild_net.Settings.Values.{
  Tailscale, Database, Global, Cluster, no_tailscale, no_database, no_global, no_cluster, Codec,
  bucket, bucket_clusters, key_ts, key_db, key_global, as_string, fold_case, as_bool, index,
  tailscale_row, read_tailscale, database_row, read_database, global_row, listen_or_default,
  read_global, cluster_row, read_cluster,
}

module _ {S B : Type 0} (sql : Sql S B) (codec : Codec B) where
  -- A getter: a failed Get leaves the zero value, and is no error.
  unfoldable pub read_or : {A : Type 0} → A → ((Text → Json) → A) → Result Row → A × Option Text
  read_or zero_value read (fail e) = (zero_value, none)
  read_or zero_value read (ok tmp) = (read (index tmp), none)

  unfoldable pub get_tailscale : S → Tailscale × Option Text
  get_tailscale s =
      read_or no_tailscale read_tailscale (get_value sql codec.unmarshal s bucket key_ts)

  unfoldable pub put_tailscale : S → Tailscale → S × Option Text
  put_tailscale s ts = put_value sql codec.marshal s bucket key_ts (tailscale_row ts)

  unfoldable pub get_database : S → Database × Option Text
  get_database s = read_or no_database read_database (get_value sql codec.unmarshal s bucket key_db)

  unfoldable pub put_database : S → Database → S × Option Text
  put_database s db = put_value sql codec.marshal s bucket key_db (database_row db)

  unfoldable pub get_global : S → Global × Option Text
  get_global s = read_or no_global read_global (get_value sql codec.unmarshal s bucket key_global)

  unfoldable pub put_global : S → Global → S × Option Text
  put_global s g = put_value sql codec.marshal s bucket key_global (global_row g)

  unfoldable pub get_cluster : S → Text → Cluster → Cluster × Option Text
  get_cluster s cluster_id out =
      if is_empty (trim_space cluster_id)
      then (out, some (codes "cluster id required"))
      else read_or no_cluster (read_cluster out)
          (get_value sql codec.unmarshal s bucket_clusters cluster_id)

  -- the key goes to its own collection, and a failure to store it is ignored
  unfoldable pub put_client_key : S → Text → Text → S
  put_client_key s cluster_id key =
      if is_empty (trim_space key)
      then s
      else (put_value sql codec.marshal s (codes "credentials")
          (codes "cl:" ++ (cluster_id ++ codes ":ts_client_auth"))
          ((codes "value", str key) ∷ (codes "encrypted", bool false) ∷ [])).0

  unfoldable pub put_cluster : S → Text → Cluster → S × Option Text
  put_cluster s cluster_id cs =
      if is_empty (trim_space cluster_id)
      then (s, some (codes "cluster id required"))
      else put_value sql codec.marshal (put_client_key s cluster_id cs.ts_client_auth_key)
          bucket_clusters cluster_id (cluster_row cs)

-- ===== src/Bootstrap/ClusterSettings.antt =====
-- The route /api/settings/cluster/ of internal/api/router.go.
use guild_net.Prelude.{Option, none, some, ◌++◌, Text, codes, is_empty, if◌then◌else◌, text_eq_inst}
use guild_net.Prelude.Strings.{trim_space, trim_prefix}
use guild_net.DbManager.{Result, ok, fail}
use guild_net.LocalDb.{Sql}
use guild_net.Settings.Values.{Cluster, no_cluster, Codec}
use guild_net.Settings.{get_cluster, put_cluster}
use guild_net.ClusterRegistry.{Instance, Registry, get_instance}
use guild_net.Deploy.{Verb, get_verb, put_verb}
use guild_net.Bootstrap.{World, Services}

-- `saved` has the name that `OnSettingsChanged` is called with.
pub data ClusterSettingsReply : Type 0 where
  unavailable no_id no_registry no_cluster_found wrong_method : ClusterSettingsReply
  shown_cluster : Cluster → ClusterSettingsReply
  saved : Text → ClusterSettingsReply

module _ {E S B D K T M : Type 0} (sql : Sql S B) (codec : Codec B) (sv : Services E S D K T M)
    (decode_cluster : Text → Cluster) where
  abbrev pub with_config : E → K → Cluster → E
  with_config e k8s cs =
      if sv.has_client k8s then sv.store_config e k8s cs.workspace_lb_enabled else e

  -- the settings are stored twice
  abbrev pub cluster_settings_verb :
      Verb
      → Text
      → Text
      → World E S D K T M
      → E
      → Instance D K T M
      → World E S D K T M × ClusterSettingsReply
  cluster_settings_verb get_verb id body w e inst = (
    record w { env = e },
    shown_cluster (get_cluster sql codec (sv.read_db e inst.db) id no_cluster).0,
  )
  cluster_settings_verb put_verb id body w e inst =
      let cs = decode_cluster body in
      let s =
        (put_cluster sql codec (put_cluster sql codec (sv.read_db e inst.db) id cs).0 id cs).0 in
      (
        record w { env = with_config (sv.write_db e inst.db s) inst.k8s cs },
        saved (codes "cluster:" ++ id),
      )
  cluster_settings_verb _ id body w e inst = (record w { env = e }, wrong_method)

  abbrev pub in_instance :
      Verb
      → Text
      → Text
      → World E S D K T M
      → E × Registry D K T M × Result (Instance D K T M)
      → World E S D K T M × ClusterSettingsReply
  in_instance verb id body w (e, reg, fail err) =
      (record w { registry = some reg; env = e }, no_cluster_found)
  in_instance verb id body w (e, reg, ok inst) =
      cluster_settings_verb verb id body (record w { registry = some reg }) e inst

  abbrev pub in_registry :
      Verb
      → Text
      → Text
      → World E S D K T M
      → S
      → Option (Registry D K T M)
      → World E S D K T M × ClusterSettingsReply
  in_registry verb id body w s none = (w, no_registry)
  in_registry verb id body w s (some reg) =
      in_instance verb id body w (get_instance (sv.builder s) w.env reg id)

  abbrev pub in_host :
      Verb → Text → Text → World E S D K T M → Option S → World E S D K T M × ClusterSettingsReply
  in_host verb id body w none = (w, unavailable)
  in_host verb id body w (some s) =
      if is_empty (trim_space id) then (w, no_id) else in_registry verb id body w s w.registry

  unfoldable pub handle_cluster_settings :
      Verb → Text → Text → World E S D K T M → World E S D K T M × ClusterSettingsReply
  handle_cluster_settings verb path body w =
      in_host verb (trim_prefix (codes "/api/settings/cluster/") path) body w w.db

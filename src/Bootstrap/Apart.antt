-- ===== src/Bootstrap/Apart.antt =====
-- The settings of a bootstrap and those that the route of a cluster's settings shows.
use guild_net.Prelude.{
  false, Bool-cases, Option, none, some, ◌++◌, [], ◌≡◌, refl, ap, ◌∙◌, inl, inr, Text, codes,
  is_empty, lookup, text_eq_inst,
}
use mathlib.Core.Path.{subst}
use guild_net.Prelude.Strings.{trim_space, trim_prefix-append}
use guild_net.Prelude.Maps.{lookup-insert_self}
use guild_net.Json.{Row}
use guild_net.DbManager.{Result, ok, fail}
use guild_net.LocalDb.{Sql, SqlLaws, put_value}
use guild_net.LocalDb.Reads.{get_value-missing, IsBroken}
use guild_net.Settings.Values.{Cluster, no_cluster, read_cluster, Codec, bucket_clusters}
use guild_net.Settings.{read_or, get_cluster, put_cluster}
use guild_net.Settings.RoundTrip.{CodecLaws, trimmed_cluster, get_cluster-put_cluster}
use guild_net.ClusterRegistry.{Instance, Registry, normal_id, found_or, get_instance}
use guild_net.ClusterRegistry.Frames.{
  BuilderKeeps, DiallerKeeps, get_instance_keeps, ensure_rdb_keeps,
}
use guild_net.ClusterRegistry.Connect.{ensure_rdb}
use guild_net.Deploy.{get_verb}
use guild_net.Bootstrap.{
  ClusterRequest, BootstrapReply, cluster_id, World, Services, requested, store_rows, with_manager,
  with_namespaces, with_instance, create_cluster,
}
use guild_net.Bootstrap.ClusterSettings.{
  shown_cluster, in_instance, in_registry, in_host, handle_cluster_settings,
}

module _ {E S B D K T M : Type 0} {sql : Sql S B} (laws : SqlLaws sql) (codec : Codec B)
    (sv : Services E S D K T M) (id : Text) where
  -- a cluster that was made is in the registry, and its settings are in the host's database
  abbrev IsMade : ClusterRequest → World E S D K T M × BootstrapReply → Type 0
  IsMade req (w, cluster_id made) =
      (s : S) × (reg : Registry D K T M) × (inst : Instance D K T M) × (w.db
        ≡ some (put_cluster sql codec s id (requested req.settings)).0)
      × (w.registry ≡ some reg)
      × (lookup (normal_id id) reg.items ≡ some inst)
  IsMade req (w, reply) = Unit {0}

  with_manager-IsMade :
      (req : ClusterRequest) (s : S) (reg : Registry D K T M)
      (x : E × Instance D K T M × Option Text)
      → IsMade req (with_manager sql codec sv id req s reg x)
  with_manager-IsMade req s reg (e, inst, some err) = tt
  with_manager-IsMade req s reg (e, inst, none) =
      (s, _, inst, refl, refl, lookup-insert_self (normal_id id) inst reg.items)

  with_namespaces-IsMade :
      (req : ClusterRequest) (s : S) (reg : Registry D K T M) (inst : Instance D K T M)
      (x : E × Option Text)
      → IsMade req (with_namespaces sql codec sv id req s reg inst x)
  with_namespaces-IsMade req s reg inst (e, some err) = tt
  with_namespaces-IsMade req s reg inst (e, none) =
      with_manager-IsMade req s reg (ensure_rdb sv.dialler e inst)

  with_instance-IsMade :
      (req : ClusterRequest) (s : S) (x : E × Registry D K T M × Result (Instance D K T M))
      → IsMade req (with_instance sql codec sv id req s x)
  with_instance-IsMade req s (e, reg, fail err) = tt
  with_instance-IsMade req s (e, reg, ok inst) = elim (Bool-cases (sv.has_client inst.k8s)) [
    | inl client ↦ rw client (with_namespaces-IsMade req s reg inst (sv.list_namespaces e inst.k8s))
    | inr missing ↦ rw missing tt
  ]

  create_cluster-IsMade :
      (req : ClusterRequest) (s : S) (reg : Registry D K T M) (e : E)
      → IsMade req (create_cluster sql codec sv id req s (some reg) e)
  unfolding create_cluster
  create_cluster-IsMade req s reg e =
      with_instance-IsMade req _ (get_instance (sv.builder _) e reg id)

  -- no database of a cluster has settings under the id
  abbrev pub IsUnset : E → Type 0
  IsUnset e = (d : D) → laws.stored (sv.read_db e d) bucket_clusters id ≡ none

  -- What the bootstrap runs of the registry, of Kubernetes and of the driver stores no settings.
  pub record StoresNoSettings : Type 0 where
    pub builds : (s : S) → BuilderKeeps (sv.builder s) IsUnset
    pub dials : DiallerKeeps sv.dialler IsUnset
    pub lists : (e : E) (k8s : K) → IsUnset e → IsUnset (sv.list_namespaces e k8s).0

  module _ (keeps : StoresNoSettings) where
    with_manager-IsUnset :
        (req : ClusterRequest) (s : S) (reg : Registry D K T M)
        (x : E × Instance D K T M × Option Text)
        → IsUnset x.0
        → IsUnset (with_manager sql codec sv id req s reg x).0.env
    with_manager-IsUnset req s reg (e, inst, some err) h = h
    with_manager-IsUnset req s reg (e, inst, none) h = h

    with_namespaces-IsUnset :
        (req : ClusterRequest) (s : S) (reg : Registry D K T M) (inst : Instance D K T M)
        (x : E × Option Text)
        → IsUnset x.0
        → IsUnset (with_namespaces sql codec sv id req s reg inst x).0.env
    with_namespaces-IsUnset req s reg inst (e, some err) h = h
    with_namespaces-IsUnset req s reg inst (e, none) h =
        with_manager-IsUnset req s reg (ensure_rdb sv.dialler e inst)
          (ensure_rdb_keeps keeps.dials e inst h)

    with_instance-IsUnset :
        (req : ClusterRequest) (s : S) (x : E × Registry D K T M × Result (Instance D K T M))
        → IsUnset x.0
        → IsUnset (with_instance sql codec sv id req s x).0.env
    with_instance-IsUnset req s (e, reg, fail err) h = h
    with_instance-IsUnset req s (e, reg, ok inst) h = elim (Bool-cases (sv.has_client inst.k8s)) [
      | inl client ↦ rw client (
          with_namespaces-IsUnset req s reg inst (sv.list_namespaces e inst.k8s)
            (keeps.lists e inst.k8s h))
      | inr missing ↦ rw missing h
    ]

    create_cluster-IsUnset :
        (req : ClusterRequest) (s : S) (reg : Registry D K T M) (e : E)
        → IsUnset e
        → IsUnset (create_cluster sql codec sv id req s (some reg) e).0.env
    unfolding create_cluster
    create_cluster-IsUnset req s reg e h =
        let rows = store_rows sql codec sv id req s in
        with_instance-IsUnset req rows (get_instance (sv.builder rows) e reg id)
          (get_instance_keeps (keeps.builds rows) e reg id h)

  get_cluster-absent :
      (s : S)
      → is_empty (trim_space id) ≡ false
      → laws.stored s bucket_clusters id ≡ none
      → get_cluster sql codec s id no_cluster ≡ (no_cluster, none)
  unfolding get_cluster read_or
  get_cluster-absent s named missing =
      rw (named, get_cluster)
        (ap (read_or sql codec no_cluster (read_cluster no_cluster))
          (get_value-missing laws codec.unmarshal s bucket_clusters id missing).1)

  abbrev settings_path : Text
  settings_path = codes "/api/settings/cluster/" ++ id

  shows_nothing :
      (decode_cluster : Text → Cluster) (w : World E S D K T M) (s : S) (reg : Registry D K T M)
      (inst : Instance D K T M) (body : Text)
      → is_empty (trim_space id) ≡ false
      → w.db ≡ some s
      → w.registry ≡ some reg
      → lookup (normal_id id) reg.items ≡ some inst
      → laws.stored (sv.read_db w.env inst.db) bucket_clusters id ≡ none
      → (handle_cluster_settings sql codec sv decode_cluster get_verb settings_path body w).1
        ≡ shown_cluster no_cluster
  unfolding handle_cluster_settings get_instance
  shows_nothing decode_cluster w s reg inst body named db registry held missing =
      ap (λ i. (in_host sql codec sv decode_cluster get_verb i body w w.db).1)
        (trim_prefix-append (codes "/api/settings/cluster/") id)
      ∙ ap (λ o. (in_host sql codec sv decode_cluster get_verb id body w o).1) db
      ∙ rw (named) (
          ap (λ o. (in_registry sql codec sv decode_cluster get_verb id body w s o).1) registry
          ∙ ap
              (λ o.
                (in_instance sql codec sv decode_cluster get_verb id body w
                  (found_or (sv.builder s) w.env reg (normal_id id) o)).1)
              held
          ∙ ap (λ (p : Cluster × Option Text). shown_cluster p.0)
              (get_cluster-absent (sv.read_db w.env inst.db) named missing))

  with_no_error : {X Y : Type 0} (p : X × Option Y) → p.1 ≡ none → p ≡ (p.0, none)
  with_no_error (x, err) h = ap (λ err. (x, err)) h

  put_cluster-stores :
      (s : S) (cs : Cluster)
      → is_empty (trim_space id) ≡ false
      → ((s : S) (c k : Text) (row : Row) → (put_value sql codec.marshal s c k row).1 ≡ none)
      → put_cluster sql codec s id cs ≡ ((put_cluster sql codec s id cs).0, none)
  unfolding put_cluster
  put_cluster-stores s cs named writes = with_no_error _ (rw (named, put_cluster) (writes _ _ _ _))

  -- Where no database of a cluster had settings under the id before a bootstrap has made the cluster,
  -- and what this runs of the registry, of Kubernetes and of the driver stores none, GET of
  -- /api/settings/cluster/ then shows empty settings, whatever those of the request were, while the
  -- host's database has these, each text trimmed; if no Put and no query of the databases fails.
  pub handle_cluster_settings-create_cluster :
      (plain : CodecLaws codec) (decode_cluster : Text → Cluster) (req : ClusterRequest) (s : S)
      (reg : Registry D K T M) (e : E) (made : Text) (w : World E S D K T M) (body : Text)
      → is_empty (trim_space id) ≡ false
      → ((s : S) (c k : Text) (row : Row) → (put_value sql codec.marshal s c k row).1 ≡ none)
      → ((s : S) (c k : Text) → ¬ IsBroken (sql.select_kv s c k))
      → StoresNoSettings
      → IsUnset e
      → create_cluster sql codec sv id req s (some reg) e ≡ (w, cluster_id made)
      → ((handle_cluster_settings sql codec sv decode_cluster get_verb settings_path body w).1
          ≡ shown_cluster no_cluster)
        × ((s' : S) × (w.db ≡ some s')
            × (get_cluster sql codec s' id no_cluster
                ≡ (trimmed_cluster [] (requested req.settings), none)))
  handle_cluster_settings-create_cluster plain decode_cluster req s reg e made w body named writes
        reads keeps unset run =
      let (s0, reg', inst, db, registry, held) =
        subst (IsMade req) run (create_cluster-IsMade req s reg e) in
      let own : IsUnset w.env =
        subst (λ (x : World E S D K T M × BootstrapReply). IsUnset x.0.env) run
          (create_cluster-IsUnset keeps req s reg e unset) in
      let cs = requested req.settings in
      (
        shows_nothing decode_cluster w _ reg' inst body named db registry held (own inst.db),
        (
          (put_cluster sql codec s0 id cs).0,
          db,
          get_cluster-put_cluster laws plain s0 (put_cluster sql codec s0 id cs).0 id cs no_cluster
              (put_cluster-stores s0 cs named writes)
              (reads (put_cluster sql codec s0 id cs).0 bucket_clusters id),
        ),
      )

-- ===== src/Bootstrap/Rollback.antt =====
-- What a bootstrap that is refused leaves in the database of the host.
use guild_net.Prelude.{
  true, Bool-cases, Option, none, some, [], ◌∷◌, ◌≡◌, refl, sym, ap, ◌∙◌, inl, inr, Text, codes,
  text_eq_iff, if◌then◌else◌, text_eq_inst, arith,
}
use guild_net.Json.{str, Row}
use guild_net.DbManager.{Result, ok, fail}
use guild_net.LocalDb.{Sql, SqlLaws, same_key, put_value, delete_value}
use guild_net.LocalDb.Rows.{stored-put_value}
use guild_net.Settings.Values.{Codec}
use guild_net.ClusterRegistry.{Instance, Registry, get_instance}
use guild_net.ClusterRegistry.Connect.{ensure_rdb}
use guild_net.Clusters.{kubeconfig_key}
use guild_net.Bootstrap.{
  ClusterRequest, BootstrapReply, refused, World, Services, imported, store_rows, drop_rows,
  with_manager, with_namespaces, with_instance, warmed_up, create_cluster,
}

same_key_eq : (c k d j : Text) → same_key c k d j ≡ true → (c ≡ d) × (k ≡ j)
same_key_eq c k d j h = ground (arith, text_eq_iff c d, text_eq_iff k j)

module _ {E S B D K T M : Type 0} {sql : Sql S B} (laws : SqlLaws sql) (codec : Codec B)
    (sv : Services E S D K T M) (id : Text)
    (deletes : (s : S) (c k : Text) → (sql.delete_kv s c k).1 ≡ none) where
  stored-delete_value :
      (s : S) (c k d j : Text)
      → laws.stored (delete_value sql s c k).0 d j
        ≡ (if same_key c k d j then none else laws.stored s d j)
  unfolding delete_value
  stored-delete_value s c k d j =
      laws.delete_removes s (sql.delete_kv s c k).0 c k d j
        (ap (λ e. ((sql.delete_kv s c k).0, e)) (deletes s c k))

  fresh_at :
      (s : S) (c k d j : Text)
      → same_key c k d j ≡ true
      → laws.stored s c k ≡ none
      → none ≡ laws.stored s d j
  fresh_at s c k d j same fresh =
      let (ec, ek) = same_key_eq c k d j same in
      let e : ◌≡◌ {A = Text × Text} (c, k) (d, j) = cc in
      sym fresh ∙ ap (λ (q : Text × Text). laws.stored s q.0 q.1) e

  -- two rows that are put, and deleted again in the same order
  undone :
      (s : S) (r1 r2 : Row) (c1 k1 c2 k2 d j : Text)
      → laws.stored s c1 k1 ≡ none
      → laws.stored s c2 k2 ≡ none
      → laws.stored
          (delete_value sql
            (delete_value sql
              (put_value sql codec.marshal (put_value sql codec.marshal s c1 k1 r1).0 c2 k2 r2).0
              c1
              k1).0
            c2
            k2).0
          d
          j
        ≡ laws.stored s d j
  undone s r1 r2 c1 k1 c2 k2 d j fresh1 fresh2 =
      let s1 = (put_value sql codec.marshal s c1 k1 r1).0 in
      let s2 = (put_value sql codec.marshal s1 c2 k2 r2).0 in
      let s3 = (delete_value sql s2 c1 k1).0 in
      elim (Bool-cases (same_key c2 k2 d j)) [
        | inl second ↦
            stored-delete_value s3 c2 k2 d j ∙ (rw second (fresh_at s c2 k2 d j second fresh2))
        | inr other ↦
            stored-delete_value s3 c2 k2 d j
            ∙ (rw other (
                stored-delete_value s2 c1 k1 d j ∙ (elim (Bool-cases (same_key c1 k1 d j)) [
                  | inl first ↦ rw first (fresh_at s c1 k1 d j first fresh1)
                  | inr neither ↦ rw neither (
                      stored-put_value laws codec.marshal s1 c2 k2 r2 d j other
                      ∙ stored-put_value laws codec.marshal s c1 k1 r1 d j neither)
                ])))
      ]

  -- the database has the rows of `s`, if the reply is a refusal
  abbrev pub IsRolledBack : S → World E S D K T M × BootstrapReply → Type 0
  IsRolledBack s (w, refused msg code detail) =
      (s' : S) × (w.db ≡ some s') × ((d j : Text) → laws.stored s' d j ≡ laws.stored s d j)
  IsRolledBack s (w, reply) = Unit {0}

  module _ (s : S) (req : ClusterRequest) (new_cluster : laws.stored s (codes "clusters") id ≡ none)
      (new_key : laws.stored s (codes "credentials") (kubeconfig_key id) ≡ none) where
    abbrev rows : S
    rows = store_rows sql codec sv id req s

    abbrev dropped : S
    dropped = drop_rows sql codec sv id rows

    stored_dropped : (d j : Text) → laws.stored dropped d j ≡ laws.stored s d j
    stored_dropped d j =
        undone s (imported sql codec sv id req.settings.name)
          ((codes "value", str req.kubeconfig) ∷ []) (codes "clusters") id (codes "credentials")
          (kubeconfig_key id) d j new_cluster new_key

    with_manager-IsRolledBack :
        (reg : Registry D K T M) (x : E × Instance D K T M × Option Text)
        → IsRolledBack s (with_manager sql codec sv id req rows reg x)
    with_manager-IsRolledBack reg (e, inst, some err) = (dropped, refl, stored_dropped)
    with_manager-IsRolledBack reg (e, inst, none) = tt

    with_namespaces-IsRolledBack :
        (reg : Registry D K T M) (inst : Instance D K T M) (x : E × Option Text)
        → IsRolledBack s (with_namespaces sql codec sv id req rows reg inst x)
    with_namespaces-IsRolledBack reg inst (e, some err) = (dropped, refl, stored_dropped)
    with_namespaces-IsRolledBack reg inst (e, none) =
        with_manager-IsRolledBack reg (ensure_rdb sv.dialler e inst)

    with_instance-IsRolledBack :
        (x : E × Registry D K T M × Result (Instance D K T M))
        → IsRolledBack s (with_instance sql codec sv id req rows x)
    with_instance-IsRolledBack (e, reg, fail err) = (dropped, refl, stored_dropped)
    with_instance-IsRolledBack (e, reg, ok inst) = elim (Bool-cases (sv.has_client inst.k8s)) [
      | inl client ↦
          rw client (with_namespaces-IsRolledBack reg inst (sv.list_namespaces e inst.k8s))
      | inr missing ↦ rw missing (dropped, refl, stored_dropped)
    ]

    warmed_up-IsRolledBack :
        (reg : Option (Registry D K T M)) (e : E)
        → IsRolledBack s (warmed_up sql codec sv id req rows reg e)
    warmed_up-IsRolledBack none e = tt
    warmed_up-IsRolledBack (some reg) e =
        with_instance-IsRolledBack (get_instance (sv.builder rows) e reg id)

    -- A bootstrap of a cluster under a fresh id that is refused, at whatever step of the warming up,
    -- leaves every row of the host's database as it was, the kubeconfig gone, if no Delete fails.
    pub create_cluster-IsRolledBack :
        (reg : Option (Registry D K T M)) (e : E)
        → IsRolledBack s (create_cluster sql codec sv id req s reg e)
    unfolding create_cluster
    create_cluster-IsRolledBack reg e = warmed_up-IsRolledBack reg e

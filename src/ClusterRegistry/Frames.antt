-- ===== src/ClusterRegistry/Frames.antt =====
-- What the operations behind Get and EnsureRDB keep of the surroundings, Get and EnsureRDB keep.
use guild_net.Prelude.{ℕ, zero, suc, Option, none, some, [], ◌∷◌, Text, lookup, text_eq_inst}
use guild_net.DbManager.{Result, ok, fail}
use guild_net.ClusterRegistry.{
  Instance, Registry, Builder, normal_id, register, build_on, build_with, resolve_with, build,
  found_or, get_instance,
}
use guild_net.ClusterRegistry.Connect.{
  Dialler, after_pause, after_dial, dial_loop, unless_present, ensure_rdb,
}

-- no operation that a build runs breaks `Kept`
pub record BuilderKeeps {E D K T M : Type 0} (b : Builder E D K T M) (Kept : E → Type 0)
    : Type 0 where
  pub opens : (e : E) (dir : Text) → Kept e → Kept (b.open_db e dir).0
  pub connects : (e : E) (id : Text) (db : D) → Kept e → Kept (b.connector_of e id db).0
  pub clients : (e : E) (kc : Text) (ts : Option T) → Kept e → Kept (b.client_of e kc ts).0
  pub closes : (e : E) (db : D) → Kept e → Kept (b.close_db e db)

pub record DiallerKeeps {E K M : Type 0} (d : Dialler E K M) (Kept : E → Type 0) : Type 0 where
  pub dials : (e : E) (k8s : K) → Kept e → Kept (d.dial e k8s).0
  pub pauses : (e : E) → Kept e → Kept (d.pause e).0
  pub monitors : (e : E) → Kept e → Kept (d.start_monitor e)

module _ {E D K T M : Type 0} {b : Builder E D K T M} {Kept : E → Type 0}
    (keeps : BuilderKeeps b Kept) where
  register_keeps :
      (r : Registry D K T M) (id dir : Text) (db : D) (ts : Option T) (x : E × Result K)
      → Kept x.0
      → Kept (register b r id dir db ts x).0
  unfolding register
  register_keeps r id dir db ts (e, fail err) h = keeps.closes e db h
  register_keeps r id dir db ts (e, ok k8s) h = h

  build_on_keeps :
      (r : Registry D K T M) (id dir kc : Text) (x : E × Result D)
      → Kept x.0
      → Kept (build_on b r id dir kc x).0
  unfolding build_on
  build_on_keeps r id dir kc (e, fail err) h = h
  build_on_keeps r id dir kc (e, ok db) h =
      register_keeps r id dir db (b.connector_of e id db).1 _
        (keeps.clients _ kc _ (keeps.connects e id db h))

  build_with_keeps :
      (e : E) (r : Registry D K T M) (id : Text) (kc : Result Text)
      → Kept e
      → Kept (build_with b e r id kc).0
  unfolding build_with
  build_with_keeps e r id (fail err) h = h
  build_with_keeps e r id (ok []) h = h
  build_with_keeps e r id (ok (c ∷ kc)) h = build_on_keeps r id _ (c ∷ kc) _ (keeps.opens e _ h)

  resolve_with_keeps :
      (e : E) (r : Registry D K T M) (id : Text) (o : Option (Text → Result Text))
      → Kept e
      → Kept (resolve_with b e r id o).0
  resolve_with_keeps e r id none h = h
  resolve_with_keeps e r id (some resolve) h = build_with_keeps e r id (resolve id) h

  found_or_keeps :
      (e : E) (r : Registry D K T M) (id : Text) (o : Option (Instance D K T M))
      → Kept e
      → Kept (found_or b e r id o).0
  unfolding build
  found_or_keeps e r id (some inst) h = h
  found_or_keeps e r id none h = resolve_with_keeps e r id b.kubeconfig h

  pub get_instance_keeps :
      (e : E) (r : Registry D K T M) (id : Text) → Kept e → Kept (get_instance b e r id).0
  unfolding get_instance
  get_instance_keeps e r id h = found_or_keeps e r (normal_id id) (lookup (normal_id id) r.items) h

module _ {E D K T M : Type 0} {d : Dialler E K M} {Kept : E → Type 0}
    (keeps : DiallerKeeps d Kept) where
  after_pause_keeps :
      (rest : E → Option Text → E × Instance D K T M × Option Text) (inst : Instance D K T M)
      (last : Option Text) (p : E × Option Text)
      → ((e : E) (last : Option Text) → Kept e → Kept (rest e last).0)
      → Kept p.0
      → Kept (after_pause d rest inst last p).0
  after_pause_keeps rest inst last (e, some ended) go h = h
  after_pause_keeps rest inst last (e, none) go h = go e last h

  after_dial_keeps :
      (rest : E → Option Text → E × Instance D K T M × Option Text) (inst : Instance D K T M)
      (r : E × Result (Option M))
      → ((e : E) (last : Option Text) → Kept e → Kept (rest e last).0)
      → Kept r.0
      → Kept (after_dial d rest inst r).0
  after_dial_keeps rest inst (e, ok (some m)) go h = keeps.monitors e h
  after_dial_keeps rest inst (e, ok none) go h =
      after_pause_keeps rest inst none (d.pause e) go (keeps.pauses e h)
  after_dial_keeps rest inst (e, fail err) go h =
      after_pause_keeps rest inst (some err) (d.pause e) go (keeps.pauses e h)

  dial_loop_keeps :
      (n : ℕ) (inst : Instance D K T M) (e : E) (last : Option Text)
      → Kept e
      → Kept (dial_loop d n inst e last).0
  unfolding dial_loop
  dial_loop_keeps zero inst e last h = h
  dial_loop_keeps (suc n) inst e last h =
      after_dial_keeps (dial_loop d n inst) inst (d.dial e inst.k8s) (dial_loop_keeps n inst)
        (keeps.dials e inst.k8s h)

  unless_present_keeps :
      (e : E) (inst : Instance D K T M) (o : Option M) → Kept e → Kept (unless_present d e inst o).0
  unless_present_keeps e inst none h = dial_loop_keeps 5 inst e none h
  unless_present_keeps e inst (some m) h = h

  pub ensure_rdb_keeps : (e : E) (inst : Instance D K T M) → Kept e → Kept (ensure_rdb d e inst).0
  unfolding ensure_rdb
  ensure_rdb_keeps e inst h = unless_present_keeps e inst inst.rdb h

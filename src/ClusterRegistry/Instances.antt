-- ===== src/ClusterRegistry/Instances.antt =====
-- One instance for each normal id.
use guild_net.Prelude.{
  Option, none, some, [], ◌∷◌, ◌≡◌, ◌≢◌, refl, ap, ◌∙◌, Text, text_eq_inst, text_eq_iff, ◌==◌,
  lookup, arith, if◌then◌else◌,
}
use mathlib.Core.Path.{subst}
use guild_net.Prelude.Maps.{lookup-insert, lookup-delete, lookup-insert_self}
use guild_net.DbManager.{Result, ok, fail}
use guild_net.ClusterRegistry.{
  Instance, Registry, Builder, normal_id, register, build_on, build_with, resolve_with, build,
  found_or, get_instance, remove, close,
}

module _ {E D K T M : Type 0} (b : Builder E D K T M) where
  -- What Get leaves behind: on success the instance stands under its id, and an error changes nothing.
  abbrev pub Built :
      Registry D K T M → Text → E × Registry D K T M × Result (Instance D K T M) → Type 0
  Built r id (e, r', fail err) = r' ≡ r
  Built r id (e, r', ok inst) =
      (lookup id r'.items ≡ some inst)
      × ((j : Text) → j ≢ id → lookup j r'.items ≡ lookup j r.items)

  register-Built :
      (r : Registry D K T M) (id dir : Text) (db : D) (ts : Option T) (res : E × Result K)
      → Built r id (register b r id dir db ts res)
  unfolding register
  register-Built r id dir db ts (e, fail err) = refl
  register-Built r id dir db ts (e, ok k8s) =
      let inst : Instance D K T M = record {
        id = id;
        state_dir = dir;
        db = db;
        k8s = k8s;
        ts = ts;
        rdb = none;
      } in
      (
        lookup-insert_self id inst r.items,
        λ j other. ground (arith, lookup-insert id j inst r.items, text_eq_iff id j, other),
      )

  build_on-Built :
      (r : Registry D K T M) (id dir kc : Text) (res : E × Result D)
      → Built r id (build_on b r id dir kc res)
  unfolding build_on
  build_on-Built r id dir kc (e, fail err) = refl
  build_on-Built r id dir kc (e, ok db) =
      let step = b.connector_of e id db in
      register-Built r id dir db step.1 (b.client_of step.0 kc step.1)

  build_with-Built :
      (e : E) (r : Registry D K T M) (id : Text) (kc : Result Text)
      → Built r id (build_with b e r id kc)
  unfolding build_with
  build_with-Built e r id (fail err) = refl
  build_with-Built e r id (ok []) = refl
  build_with-Built e r id (ok (c ∷ kc)) = build_on-Built r id _ (c ∷ kc) _

  resolve_with-Built :
      (e : E) (r : Registry D K T M) (id : Text) (o : Option (Text → Result Text))
      → Built r id (resolve_with b e r id o)
  resolve_with-Built e r id none = refl
  resolve_with-Built e r id (some resolve) = build_with-Built e r id (resolve id)

  build-Built : (e : E) (r : Registry D K T M) (id : Text) → Built r id (build b e r id)
  unfolding build
  build-Built e r id = resolve_with-Built e r id b.kubeconfig

  found_or-Built :
      (e : E) (r : Registry D K T M) (id : Text) (o : Option (Instance D K T M))
      → lookup id r.items ≡ o
      → Built r id (found_or b e r id o)
  found_or-Built e r id none h = build-Built e r id
  found_or-Built e r id (some inst) h = (h, λ j other. refl)

  -- After Get returned an instance, Get with any id of the same normal form returns that instance and
  -- changes nothing.
  pub get_instance-get_instance :
      (e e' : E) (r r' : Registry D K T M) (id id' : Text) (inst : Instance D K T M)
      → get_instance b e r id ≡ (e', r', ok inst)
      → normal_id id' ≡ normal_id id
      → get_instance b e' r' id' ≡ (e', r', ok inst)
  unfolding get_instance
  get_instance-get_instance e e' r r' id id' inst h same =
      let stands : lookup (normal_id id) r'.items ≡ some inst =
        (subst (Built r (normal_id id)) h
          (found_or-Built e r (normal_id id) (lookup (normal_id id) r.items) refl)).0 in
      ap (λ k. found_or b e' r' k (lookup k r'.items)) same
      ∙ ap (found_or b e' r' (normal_id id)) stands

  -- Get answers with an instance that stands under the normal id afterwards, and leaves every other
  -- id as it was; where it answers with an error, the registry is as it was.
  pub get_instance-Built :
      (e : E) (r : Registry D K T M) (id : Text) → Built r (normal_id id) (get_instance b e r id)
  unfolding get_instance
  get_instance-Built e r id = found_or-Built e r (normal_id id) (lookup (normal_id id) r.items) refl

  remove_forgets :
      (e : E) (r : Registry D K T M) (id j : Text) (o : Option (Instance D K T M))
      → lookup id r.items ≡ o
      → lookup j (remove b e r id o).1.items ≡ (if id == j then none else lookup j r.items)
  remove_forgets e r id j none h = ground (arith, h, text_eq_iff id j)
  remove_forgets e r id j (some inst) h = lookup-delete id j r.items

  -- Close forgets the instance under the normal id, and no other.
  pub lookup-close :
      (e : E) (r : Registry D K T M) (id j : Text)
      → lookup j (close b e r id).1.items ≡ (if normal_id id == j then none else lookup j r.items)
  unfolding close
  lookup-close e r id j = remove_forgets e r (normal_id id) j (lookup (normal_id id) r.items) refl

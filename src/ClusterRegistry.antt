-- ===== src/ClusterRegistry.antt =====
-- internal/cluster/registry.go: cluster ids and the registry of instances. What it builds an instance
-- from (the resolver, the local database, the tsnet connector and the Kubernetes client) is the
-- interface `Builder`.
pub mod Ids
pub mod Instances
pub mod Frames
pub mod Connect
pub mod Monitor
use guild_net.Prelude.{
  ℕ, Bool, true, false, ◌&&◌, ◌||◌, ◌+◌, Option, none, some, List, [], ◌∷◌, ◌++◌, Text, codes,
  is_empty, map, leb, ◌==◌, nat_eq, text_eq_inst, Assoc, lookup, insert, delete, if◌then◌else◌,
}
use guild_net.DbManager.{Result, ok, fail}

-- the rune that is kept in place of `r`, if one is
unfoldable pub sanitize_rune : ℕ → Option ℕ
sanitize_rune r =
    if leb b'a' r && leb r b'z'
    then some r
    else (if leb b'A' r && leb r b'Z'
        then some (r + 32)
        else (if leb b'0' r && leb r b'9'
            then some r
            else (if r == b'-' || (r == b'_' || r == b'.') then some b'-' else none)))

abbrev pub keep : Option ℕ → Text → Text
keep none s = s
keep (some r) s = r ∷ s

unfoldable pub sanitize_runes : Text → Text
sanitize_runes [] = []
sanitize_runes (r ∷ s) = keep (sanitize_rune r) (sanitize_runes s)

abbrev pub default_if_empty : Text → Text
default_if_empty [] = codes "default"
default_if_empty (c ∷ s) = c ∷ s

unfoldable pub normal_id : Text → Text
normal_id s = default_if_empty (sanitize_runes s)

-- `D` is the local database, `K` the Kubernetes client with what is built on it, `T` the connector,
-- and `M` the manager of RethinkDB.
pub record Instance (D K T M : Type 0) : Type 0 where
  pub id : Text
  pub state_dir : Text
  pub db : D
  pub k8s : K
  pub ts : Option T
  pub rdb : Option M

pub record Status : Type 0 where
  pub status_id : Text
  pub started : Bool
  pub status_dir : Text
  pub has_db : Bool
  pub has_k8s : Bool
  pub created_at : Option ℕ

-- `E` is the world outside; `kubeconfig` is `none` for a registry without a resolver.
pub record Builder (E D K T M : Type 0) : Type 0 where
  pub kubeconfig : Option (Text → Result Text)
  pub join : Text → Text → Text
  pub open_db : E → Text → E × Result D
  pub connector_of : E → Text → D → E × Option T
  pub client_of : E → Text → Option T → E × Result K
  pub close_db : E → D → E
  pub close_rdb : E → M → E
  pub cancel : E → K → E
  pub now : E → ℕ

pub record Registry (D K T M : Type 0) : Type 0 where
  pub root : Text
  pub items : Assoc Text (Instance D K T M)
  pub created : Assoc Text ℕ

module _ {E D K T M : Type 0} (b : Builder E D K T M) where
  -- the registry after the call, and its answer
  abbrev pub Answer : Type 0 → Type 0
  Answer A = E × Registry D K T M × Result A

  unfoldable pub register :
      Registry D K T M → Text → Text → D → Option T → E × Result K → Answer (Instance D K T M)
  register r id dir db ts (e, fail err) = (b.close_db e db, r, fail (codes "k8s client: " ++ err))
  register r id dir db ts (e, ok k8s) =
      let inst : Instance D K T M = record {
        id = id;
        state_dir = dir;
        db = db;
        k8s = k8s;
        ts = ts;
        rdb = none;
      } in
      (
        e,
        record r { items = insert id inst r.items; created = insert id (b.now e) r.created },
        ok inst,
      )

  unfoldable pub build_on :
      Registry D K T M → Text → Text → Text → E × Result D → Answer (Instance D K T M)
  build_on r id dir kc (e, fail err) = (e, r, fail (codes "open cluster db: " ++ err))
  build_on r id dir kc (e, ok db) =
      let (e', ts) = b.connector_of e id db in register r id dir db ts (b.client_of e' kc ts)

  abbrev pub not_found : Text → Text → Text
  not_found id err = codes "kubeconfig not found for cluster " ++ (id ++ (codes ": " ++ err))

  abbrev pub or_here : Text → Text
  or_here [] = codes "."
  or_here (c ∷ s) = c ∷ s

  unfoldable pub build_with : E → Registry D K T M → Text → Result Text → Answer (Instance D K T M)
  build_with e r id (fail err) = (e, r, fail (not_found id err))
  build_with e r id (ok []) = (e, r, fail (not_found id (codes "<nil>")))
  build_with e r id (ok (c ∷ kc)) =
      let dir = b.join (or_here r.root) id in build_on r id dir (c ∷ kc) (b.open_db e dir)

  abbrev pub resolve_with :
      E → Registry D K T M → Text → Option (Text → Result Text) → Answer (Instance D K T M)
  resolve_with e r id none = (e, r, fail (codes "cluster resolver not configured"))
  resolve_with e r id (some resolve) = build_with e r id (resolve id)

  unfoldable pub build : E → Registry D K T M → Text → Answer (Instance D K T M)
  build e r id = resolve_with e r id b.kubeconfig

  abbrev pub found_or :
      E → Registry D K T M → Text → Option (Instance D K T M) → Answer (Instance D K T M)
  found_or e r id (some inst) = (e, r, ok inst)
  found_or e r id none = build e r id

  -- `Get`: the lookup is made again under the write lock, with the same answer
  unfoldable pub get_instance : E → Registry D K T M → Text → Answer (Instance D K T M)
  get_instance e r cluster_id = let id = normal_id cluster_id in found_or e r id (lookup id r.items)

  unfoldable pub rdb_present : Registry D K T M → Text → Result Bool
  rdb_present r cluster_id = elim (lookup (normal_id cluster_id) r.items) [
    | none ↦ fail (codes "instance not found")
    | some inst ↦ ok (elim inst.rdb [ none ↦ false | some m ↦ true ])
  ]

  abbrev pub tear_down : E → Instance D K T M → E
  tear_down e inst =
      let e' = b.close_db (b.cancel e inst.k8s) inst.db in
      elim inst.rdb [ none ↦ e' | some m ↦ b.close_rdb e' m ]

  abbrev pub remove : E → Registry D K T M → Text → Option (Instance D K T M) → E × Registry D K T M
  remove e r id none = (e, r)
  remove e r id (some inst) =
      (tear_down e inst, record r { items = delete id r.items; created = delete id r.created })

  unfoldable pub close : E → Registry D K T M → Text → E × Registry D K T M
  close e r cluster_id = let id = normal_id cluster_id in remove e r id (lookup id r.items)

module _ {D K T M : Type 0} where
  abbrev pub status_of : Registry D K T M → Text × Instance D K T M → Status
  status_of r (id, inst) = record {
    status_id = id;
    started = true;
    status_dir = inst.state_dir;
    has_db = true;
    has_k8s = true;
    created_at = lookup id r.created;
  }

  unfoldable pub list_statuses : Registry D K T M → List Status
  list_statuses r = map (status_of r) r.items

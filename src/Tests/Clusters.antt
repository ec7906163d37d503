-- ===== src/Tests/Clusters.antt =====
-- The registry of clusters over a world that counts what it opens.
use guild_net.Prelude.{
  nat_eq, ℕ, suc, none, some, false, refl, [], ◌∷◌, ◌++◌, Text, codes, text_eq_inst, ◌==◌,
  if◌then◌else◌,
}
use guild_net.DbManager.{ok, fail}
use guild_net.ClusterRegistry.{Instance, Registry, Builder, normal_id, get_instance}
use guild_net.ClusterRegistry.Connect.{Dialler}
use guild_net.ClusterRegistry.Instances.{Built, get_instance-Built}
use guild_net.ClusterRegistry.Monitor.{Watch, monitor_tick, IsWatched, monitor_tick-IsWatched}

abbrev pub builder : Builder ℕ Text Text Text Text
builder = record {
  kubeconfig = some (λ id. ok (codes "kind: Config"));
  join = λ dir id. dir ++ (codes "/" ++ id);
  open_db = λ e dir. (suc e, ok dir);
  connector_of = λ e id db. (e, none);
  client_of = λ e kc ts. (e, ok kc);
  close_db = λ e db. e;
  close_rdb = λ e m. e;
  cancel = λ e k8s. e;
  now = λ e. e;
}

abbrev pub fresh : Registry Text Text Text Text
fresh = record { root = []; items = []; created = [] }

abbrev eu : Instance Text Text Text Text
eu = record {
  id = codes "prod-eu";
  state_dir = codes "./prod-eu";
  db = codes "./prod-eu";
  k8s = codes "kind: Config";
  ts = none;
  rdb = none;
}

abbrev one_cluster : Registry Text Text Text Text
one_cluster = record {
  root = [];
  items = (codes "prod-eu", eu) ∷ [];
  created = (codes "prod-eu", 1) ∷ [];
}

get_instance-Built_example :
    Built builder fresh
      (normal_id (codes "Prod.EU"))
      (get_instance builder 0 fresh (codes "Prod.EU"))
get_instance-Built_example = get_instance-Built builder 0 fresh (codes "Prod.EU")

-- a database that answers at the third dial
abbrev pub slow_dialler : Dialler ℕ Text Text
slow_dialler = record {
  dial = λ e k8s. (suc e, if e == 2 then ok (some (codes "db")) else fail (codes "refused"));
  pause = λ e. (e, none);
  start_monitor = λ e. e;
}

-- a manager whose ping times out
abbrev timed_out : Watch ℕ Text
timed_out = record {
  ping = λ e m. (suc e, some (codes "i/o timeout"));
  closes = λ e m. e;
  ended = λ e. false;
  wait = λ e. e;
}

abbrev eu_connected : Instance Text Text Text Text
eu_connected = record eu { rdb = some (codes "old") }

monitor_tick-IsWatched_example :
    IsWatched
      (λ c. c)
      slow_dialler
      timed_out
      eu_connected
      (codes "old")
      (timed_out.ping 0 (codes "old"))
      (monitor_tick (λ c. c) slow_dialler timed_out 0 eu_connected)
monitor_tick-IsWatched_example =
    monitor_tick-IsWatched (λ c. c) slow_dialler timed_out 0 eu_connected (codes "old") refl

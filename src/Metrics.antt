-- ===== src/Metrics.antt =====
-- internal/metrics/metrics.go: the operation counters, uint64, per organisation, table and
-- operation, those of a cluster, and the gauge of the subscribers, an int64 in two's complement. The
-- copy-on-write map is one map here, since `IncOp` is one step.
pub mod Sums
use guild_net.Prelude.{
  ℕ, ◌+◌, ◌-◌, ◌%◌, ◌^◌, none, some, [], ◌∷◌, ◌++◌, Text, codes, text_eq_inst, nat_eq, ◌==◌,
  if◌then◌else◌, Assoc, lookup, insert,
}
use guild_net.Prelude.Equality.{pair_eq}

abbrev pub OpKey : Type 0
OpKey = Text × (Text × Text)

abbrev pub Ops : Type 0
Ops = Assoc OpKey ℕ

unfoldable pub count_of : OpKey → Ops → ℕ
count_of k ops = elim (lookup k ops) [ some v ↦ v | none ↦ 0 ]

unfoldable pub inc_op : Text → Text → Text → ℕ → Ops → Ops
inc_op org table op delta cur =
    let delta' : ℕ = (if delta == 0 then 1 else delta) in
    let k : OpKey = (org, (table, op)) in insert k ((count_of k cur + delta') % 2 ^ 64) cur

abbrev pub ClusterKey : Type 0
ClusterKey = Text × OpKey

unfoldable pub inc_op_cluster :
    Text → Text → Text → Text → ℕ → Assoc ClusterKey ℕ → Assoc ClusterKey ℕ
inc_op_cluster cluster org table op delta cur =
    let delta' : ℕ = (if delta == 0 then 1 else delta) in
    let k : ClusterKey = (cluster, (org, (table, op))) in
    let old : ℕ = elim (lookup k cur) [ some v ↦ v | none ↦ 0 ] in
    insert k ((old + delta') % 2 ^ 64) cur

unfoldable pub changefeed_inc : ℕ → ℕ
changefeed_inc active = (active + 1) % 2 ^ 64

unfoldable pub changefeed_dec : ℕ → ℕ
changefeed_dec active = (active + (2 ^ 64 - 1)) % 2 ^ 64

pub record Counters : Type 0 where
  pub op_counts : Ops
  pub op_counts_c : Assoc ClusterKey ℕ
  pub active_changefeeds : ℕ

pub record Snapshot : Type 0 where
  pub ops : Assoc Text ℕ
  pub changefeeds : ℕ

abbrev pub flat_name : OpKey → Text
flat_name (org, (table, op)) = org ++ (codes "/" ++ (table ++ (codes "/" ++ op)))

abbrev pub cluster_name : ClusterKey → Text
cluster_name (cluster, k) = codes "cluster/" ++ (cluster ++ (codes "/" ++ flat_name k))

-- the counters written one after the other, in the order in which the map is read
abbrev pub flattened : {K : Type 0} → (K → Text) → Assoc K ℕ → Assoc Text ℕ → Assoc Text ℕ
flattened name [] flat = flat
flattened name ((k, v) ∷ cur) flat = flattened name cur (insert (name k) v flat)

-- the time of the snapshot is left out
unfoldable pub export : Counters → Snapshot
export c = record {
  ops = flattened cluster_name c.op_counts_c (flattened flat_name c.op_counts []);
  changefeeds = c.active_changefeeds;
}

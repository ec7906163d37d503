-- ===== src/Tests/Counters.antt =====
-- The counters after some increments, and a snapshot of them.
use guild_net.Prelude.{
  insert, lookup, text_eq, ◌+◌, ◌%◌, ◌^◌, ◌≡◌, refl, List, [], ◌∷◌, codes, text_eq_inst, arith,
}
use guild_net.Prelude.Equality.{pair_eq}
use guild_net.Metrics.{
  OpKey, count_of, inc_op, inc_op_cluster, changefeed_inc, changefeed_dec, export,
}
use guild_net.Metrics.Sums.{Increment, inc_all, total, count_of-inc_all}

abbrev inserts : OpKey
inserts = (codes "acme", (codes "events", codes "insert"))

abbrev reads : OpKey
reads = (codes "acme", (codes "events", codes "read"))

abbrev some_increments : List Increment
some_increments =
    record { key = inserts; delta = 0 }
    ∷ (record { key = reads; delta = 7 } ∷ (record { key = inserts; delta = 3 } ∷ []))

count_of-inc_all_example :
    count_of inserts (inc_all some_increments [])
    ≡ (count_of inserts [] + total inserts some_increments) % 2 ^ 64
unfolding count_of lookup
count_of-inc_all_example = count_of-inc_all inserts some_increments [] (omega arith)

gauge_below_zero : changefeed_inc (changefeed_dec 0) ≡ 0
unfolding changefeed_inc changefeed_dec
gauge_below_zero = refl

-- two counters whose names are the same text leave one in the snapshot
export_of_two :
    (export (record {
      op_counts =
          inc_op
            (codes "a/b")
            (codes "c")
            (codes "d")
            5
            (inc_op (codes "a") (codes "b/c") (codes "d") 2 []);
      op_counts_c = inc_op_cluster (codes "k") (codes "a") (codes "b") (codes "c") 0 [];
      active_changefeeds = 1;
    })).ops
    ≡ (codes "a/b/c/d", 5) ∷ ((codes "cluster/k/a/b/c", 1) ∷ [])
unfolding export inc_op inc_op_cluster count_of insert text_eq lookup
export_of_two = refl

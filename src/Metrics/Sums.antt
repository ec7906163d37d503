-- ===== src/Metrics/Sums.antt =====
-- What the counters of internal/metrics/metrics.go hold after any increments.
use guild_net.Prelude.{
  ℕ, ◌+◌, ◌%◌, ◌^◌, ◌<◌, ◌≡◌, refl, sym, ap, ◌∙◌, true, false, List, Option, none, some, [], ◌∷◌,
  text_eq_inst, nat_eq, ◌==◌, if◌then◌else◌, arith, Bool,
}
use guild_net.Prelude.Equality.{pair_eq}
use guild_net.Prelude.Maps.{lookup, insert, lookup-insert}
use guild_net.Metrics.{OpKey, Ops, count_of, inc_op}

pub record Increment : Type 0 where
  pub key : OpKey
  pub delta : ℕ

abbrev pub inc_all : List Increment → Ops → Ops
inc_all [] cur = cur
inc_all (i ∷ incs) cur = inc_all incs (inc_op i.key.0 i.key.1.0 i.key.1.1 i.delta cur)

-- an increment by nothing counts as one
abbrev pub amount : ℕ → ℕ
amount delta = if delta == 0 then 1 else delta

abbrev pub total : OpKey → List Increment → ℕ
total k [] = 0
total k (i ∷ incs) = let rest = total k incs in if i.key == k then amount i.delta + rest else rest

abbrev value : Option ℕ → ℕ
value (some v) = v
value none = 0

value_if :
    (b : Bool) (v : ℕ) (o : Option ℕ) → value (if b then some v else o) ≡ (if b then v else value o)
value_if true v o = refl
value_if false v o = refl

count_of_value : (k : OpKey) (cur : Ops) → count_of k cur ≡ value (lookup k cur)
unfolding count_of
count_of_value k cur = elim (lookup k cur) as (λ o. elim o [ some v ↦ v | none ↦ 0 ] ≡ value o) [
  | some v ↦ refl
  | none ↦ refl
]

count_of-inc_op :
    (k : OpKey) (i : Increment) (cur : Ops)
    → count_of k (inc_op i.key.0 i.key.1.0 i.key.1.1 i.delta cur)
      ≡ (if i.key == k then (count_of i.key cur + amount i.delta) % 2 ^ 64 else count_of k cur)
unfolding inc_op
count_of-inc_op k i cur =
    let new : ℕ = (count_of i.key cur + amount i.delta) % 2 ^ 64 in
    count_of_value k (insert i.key new cur)
    ∙ ap value (lookup-insert i.key k new cur)
    ∙ value_if (i.key == k) new (lookup k cur)
    ∙ ap (λ v. if i.key == k then new else v) (sym (count_of_value k cur))

at_same_key :
    (b : Bool) (k j : OpKey) (d : ℕ) (cur : Ops)
    → (b ≡ true → j ≡ k)
    → (if b then (count_of j cur + d) % 2 ^ 64 else count_of k cur)
      ≡ (if b then (count_of k cur + d) % 2 ^ 64 else count_of k cur)
at_same_key true k j d cur same = ap (λ j. (count_of j cur + d) % 2 ^ 64) (same refl)
at_same_key false k j d cur same = refl

small : (a : ℕ) → a < 2 ^ 64 → a ≡ (a + 0) % 2 ^ 64
small a h = omega arith

-- the sum of the further increments `t` wraps with that of one
step :
    (b : Bool) (a d t n r : ℕ)
    → n ≡ (if b then (a + d) % 2 ^ 64 else a)
    → a < 2 ^ 64
    → (n < 2 ^ 64 → r ≡ (n + t) % 2 ^ 64)
    → r ≡ (a + (if b then d + t else t)) % 2 ^ 64
step true a d t n r now h rest =
    let below : n < 2 ^ 64 = omega arith in let e = rest below in omega arith
step false a d t n r now h rest =
    let below : n < 2 ^ 64 = omega arith in let e = rest below in omega arith

-- Each counter that is below 2 ^ 64 has after any increments what it had and the sum of its
-- increments, where one by nothing counts as one, modulo 2 ^ 64; the increments of other counters
-- change nothing of it.
pub count_of-inc_all :
    (k : OpKey) (incs : List Increment) (cur : Ops)
    → count_of k cur < 2 ^ 64
    → count_of k (inc_all incs cur) ≡ (count_of k cur + total k incs) % 2 ^ 64
count_of-inc_all k [] cur h = small (count_of k cur) h
count_of-inc_all k (i ∷ incs) cur h =
    step (i.key == k) (count_of k cur) (amount i.delta) (total k incs) _ _
      (count_of-inc_op k i cur
        ∙ at_same_key (i.key == k) k i.key (amount i.delta) cur (pair_eq.equal_iff i.key k).0)
      h (count_of-inc_all k incs _)

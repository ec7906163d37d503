-- ===== src/Prelude/Numbers.antt =====
-- Signed integers, and `strconv.Atoi` on a 64-bit machine.
use Prim.Native.Nat.{ℕ, zero, suc, ◌+◌, ◌-◌, ◌*◌, ◌^◌}
use mathlib.Core.Bool.{◌&&◌}
use mathlib.Core.Option.{Option, none, some}
use mathlib.Core.List.{[], ◌∷◌}
use guild_net.Prelude.Tests.{eqb, leb, ltb, if◌then◌else◌}
use guild_net.Prelude.Strings.{Text}

-- `negsuc n` is -(n + 1).
pub data ℤ : Type 0 where
  pos : ℕ → ℤ
  negsuc : ℕ → ℤ

unfoldable pub digits_value : ℕ → Text → Option ℕ
digits_value acc [] = some acc
digits_value acc (c ∷ s) =
    let rest = digits_value (acc * 10 + (c - b'0')) s in
    if leb b'0' c && leb c b'9' then rest else none

-- at least one digit
abbrev pub magnitude : Text → Option ℕ
magnitude [] = none
magnitude (c ∷ s) = digits_value 0 (c ∷ s)

abbrev pub in_range_pos : ℕ → Option ℤ
in_range_pos n = if ltb n (2 ^ 63) then some (pos n) else none

abbrev pub in_range_neg : ℕ → Option ℤ
in_range_neg zero = some (pos 0)
in_range_neg (suc n) = if ltb n (2 ^ 63) then some (negsuc n) else none

abbrev pub bind {ℓ κ} : {A : Type ℓ} {B : Type κ} → Option A → (A → Option B) → Option B
bind none f = none
bind (some a) f = f a

unfoldable pub atoi : Text → Option ℤ
unfolding digits_value
atoi [] = none
atoi (c ∷ s) =
    if eqb c b'-'
    then bind (magnitude s) in_range_neg
    else (if eqb c b'+'
        then bind (magnitude s) in_range_pos
        else bind (magnitude (c ∷ s)) in_range_pos)

-- ===== src/Tests/Openings.antt =====
-- Opening the database of a cluster whose schema cannot be made at the first attempt.
use guild_net.Prelude.{
  ℕ, zero, suc, none, some, [], ◌++◌, ◌≡◌, refl, sym, ap, Text, codes, if◌then◌else◌, ◌==◌, nat_eq,
}
use guild_net.DbManager.{Result, ok}
use guild_net.LocalDb.Open.{Files, exec_each, open_local, open_attempts, open_manager}
use guild_net.LocalDb.Handles.{Counts, closed_again, open_manager-KeepsCount}

abbrev minus_one : ℕ → ℕ
minus_one zero = zero
minus_one (suc n) = n

-- the open handles, and the number of statements run; the second one fails
abbrev counting : Files (ℕ × ℕ) Text
counting = record {
  make_dir = λ e dir. (e, none);
  join = λ dir name. dir ++ (codes "/" ++ name);
  sql_open = λ e path. ((suc e.0, e.1), ok path);
  exec = λ e h s. ((e.0, suc e.1), if e.1 == 1 then some (codes "disk full") else none);
  close = λ e h. (minus_one e.0, e.1);
  wait = λ e ms. (e, none);
}

counting-Counts : Counts counting (λ e. e.0)
counting-Counts = record {
  dir_made = λ e dir. refl;
  one_opened = λ e e' path h same. ap (λ (p : (ℕ × ℕ) × Result Text). p.0.0) (sym same);
  refused = λ e e' path err same. cc;
  run = λ e h s. refl;
  one_closed = λ e h n at. ap minus_one at;
  waited = λ e ms. refl;
}

open_manager-KeepsCount_example :
    ((open_manager counting (3, 0) [] (codes "c1")).0.0 ≡ 4)
    × ((closed_again counting-Counts 3 (open_manager counting (3, 0) [] (codes "c1"))).0 ≡ 3)
unfolding open_manager open_attempts open_local exec_each
open_manager-KeepsCount_example =
    open_manager-KeepsCount counting-Counts 3 (3, 0) [] (codes "c1") refl

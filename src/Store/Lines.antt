-- ===== src/Store/Lines.antt =====
-- The lines of a server's log: what GetLogs gives after a history of appended lines.
use guild_net.Prelude.{
  ℕ, zero, suc, ◌-◌, min, Bool-cases, some, List, [], ◌∷◌, ◌++◌, ◌≡◌, refl, sym, ap, ◌∙◌, inl, inr,
  Text, codes, text_eq, text_eq_inst, text_eq_iff, nat_eq, ◌==◌, if◌then◌else◌, arith, leb, length,
  drop, lookup,
}
use mathlib.Core.List.{append-nil, append_assoc}
use guild_net.Prelude.Numbers.{ℤ, pos, negsuc}
use guild_net.Prelude.Maps.{lookup-insert_self}
use guild_net.DbManager.{ok}
use guild_net.Model.Servers.{LogLine}
use guild_net.Store.{Store, PerServerLogs, add_line, append_log, lines_at, last_lines, get_logs}

-- the list that a level's lines are kept in: debug, error, or info for every other level
abbrev pub shelf : Text → Text
shelf level =
    if level == codes "debug"
    then codes "debug"
    else (if level == codes "error" then codes "error" else codes "info")

-- the lines of a history that are kept with those of a level
abbrev pub history_at : Text → List LogLine → List LogLine
history_at level [] = []
history_at level (e ∷ es) =
    let rest = history_at level es in if shelf e.lvl == shelf level then e ∷ rest else rest

abbrev pub append_each : Text → List LogLine → Store → Store
append_each id [] s = s
append_each id (e ∷ es) s = append_each id es (append_log e.t id e.lvl e.msg s).0

lines_at-add_line :
    (level lvl : Text) (line : LogLine) (l : PerServerLogs)
    → lines_at level (add_line lvl line l)
      ≡ (if shelf lvl == shelf level then lines_at level l ++ line ∷ [] else lines_at level l)
unfolding lines_at text_eq
lines_at-add_line level lvl line l = ground (
  arith,
  text_eq_iff lvl (codes "info"),
  text_eq_iff lvl (codes "debug"),
  text_eq_iff lvl (codes "error"),
)

lookup-append_log :
    (t id level msg : Text) (s : Store) (l : PerServerLogs)
    → lookup id s.logs ≡ some l
    → lookup id (append_log t id level msg s).0.logs
      ≡ some (add_line level (record { t = t; lvl = level; msg = msg }) l)
unfolding append_log
lookup-append_log t id level msg s l h = rw (h, append_log) (lookup-insert_self id _ s.logs)

lines_at-append_each :
    (id level : Text) (es : List LogLine) (s : Store) (l : PerServerLogs)
    → lookup id s.logs ≡ some l
    → (end : PerServerLogs) × (lookup id (append_each id es s).logs ≡ some end)
      × (lines_at level end ≡ lines_at level l ++ history_at level es)
lines_at-append_each id level [] s l h = (l, h, sym (append-nil (lines_at level l)))
lines_at-append_each id level (e ∷ es) s l h =
    let (end, found, lines) =
      lines_at-append_each id level es _ _ (lookup-append_log e.t id e.lvl e.msg s l h) in
    (
      end,
      found,
      lines
          ∙ ground (
            arith,
            lines_at-add_line level e.lvl e l,
            append_assoc (lines_at level l) (e ∷ []) (history_at level es),
          ),
    )

-- how many lines of `n` a limit lets through: all of them for a limit that is not positive
abbrev pub window : ℤ → ℕ → ℕ
window (pos (suc k)) n = min (suc k) n
window limit n = n

drop-suffix :
    {A : Type 0} (n : ℕ) (xs : List A)
    → (pre : List A) × (xs ≡ pre ++ drop n xs) × (length (drop n xs) ≡ length xs - n)
drop-suffix zero xs = ([], refl, omega arith)
drop-suffix (suc n) [] = ([], refl, omega arith)
drop-suffix (suc n) (x ∷ xs) =
    let (pre, whole, len) = drop-suffix n xs in (x ∷ pre, ap (λ t. x ∷ t) whole, omega (arith, len))

last_lines-suffix :
    (limit : ℤ) (src : List LogLine)
    → (pre : List LogLine) × (src ≡ pre ++ last_lines limit src)
      × (length (last_lines limit src) ≡ window limit (length src))
unfolding last_lines
last_lines-suffix (negsuc n) src = ([], refl, refl)
last_lines-suffix (pos zero) src = ([], refl, refl)
last_lines-suffix (pos (suc k)) src =
    let (pre, whole, len) = drop-suffix (length src - suc k) src in
    elim (Bool-cases (leb (length src) (suc k))) [
      | inl short ↦ rw short ([], refl, ground arith)
      | inr long ↦ rw long (pre, whole, ground (arith, len))
    ]

-- After a history of lines was appended to a known server, GetLogs of a level gives the last lines
-- of those kept with that level, before and in the history, in their order: as many as the limit, or
-- all of them if there are no more or the limit is not positive.
pub get_logs-append_each :
    (id level : Text) (limit : ℤ) (es : List LogLine) (s : Store) (l : PerServerLogs)
    → lookup id s.logs ≡ some l
    → let kept = lines_at level l ++ history_at level es in
      (pre : List LogLine) × (out : List LogLine) × (get_logs id level limit (append_each id es s)
        ≡ ok out)
      × (kept ≡ pre ++ out)
      × (length out ≡ window limit (length kept))
unfolding get_logs
get_logs-append_each id level limit es s l h =
    let (end, found, lines) = lines_at-append_each id level es s l h in
    let (pre, whole, len) = last_lines-suffix limit (lines_at level l ++ history_at level es) in
    (
      pre,
      last_lines limit (lines_at level l ++ history_at level es),
      rw (found, get_logs) (ap (λ src. ok (last_lines limit src)) lines),
      whole,
      len,
    )

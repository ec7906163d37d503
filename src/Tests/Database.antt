-- ===== src/Tests/Database.antt =====
-- The database manager over a driver with one small table.
use guild_net.Prelude.{
  ℕ, zero, suc, Option, none, some, List, [], ◌∷◌, ◌++◌, ◌≡◌, refl, sym, ap, ◌∙◌, Text, codes,
  text_eq, text_eq_inst, ◌==◌, lookup, take, if◌then◌else◌,
}
use guild_net.Json.{Json, str, Row}
use guild_net.DbManager.{ok}
use guild_net.RethinkDb.{Between, min_val, max_val, at_key, db_name, Driver}
use guild_net.RethinkDb.Names.{IsId}
use guild_net.RethinkDb.Pages.{ScansInOrder, read_pages, read_pages_whole}

abbrev pub same : ℕ → ℕ
same c = c

abbrev pub no_stringer : Json → Option Text
no_stringer v = none

pub acme-IsId : IsId (codes "acme")
acme-IsId = ((λ e. cc), (refl, (refl, (refl, (refl, tt)))))

pub lab-IsId : IsId (codes "lab")
lab-IsId = ((λ e. cc), (refl, (refl, (refl, tt))))

-- a call that fails twice with an error that is tried again, and then succeeds
abbrev third_time : ℕ → ℕ × Option Text
third_time zero = (1, some (codes "EOF"))
third_time (suc zero) = (2, some (codes "EOF"))
third_time (suc (suc n)) = (suc (suc n), none)

abbrev row_a : Row
row_a = (codes "id", str (codes "a")) ∷ []

abbrev row_b : Row
row_b = (codes "id", str (codes "b")) ∷ []

abbrev shelf : List Row
shelf = row_a ∷ row_b ∷ []

abbrev rows_after : Option Text → List Row
rows_after none = shelf
rows_after (some key) = if key == codes "a" then row_b ∷ [] else []

abbrev rows_between : Option Between → List Row
rows_between none = shelf
rows_between (some b) = elim b.lower [
  | min_val ↦ shelf
  | max_val ↦ []
  | at_key key ↦ rows_after (some key)
]

abbrev shelf_driver : Driver ℕ
shelf_driver = record {
  db_list = λ s. (s, ok []);
  db_create = λ s name. (s, ok tt);
  table_create = λ s dbn table pk. (s, none);
  run_rows = λ s term. ok (take term.at_most (rows_between term.between));
}

shelf_key :
    (row : Row) (key text : Text)
    → row ≡ (codes "id", str text) ∷ []
    → lookup (codes "id") row ≡ some (str key)
    → key ≡ text
unfolding lookup text_eq
shelf_key row key text same_row keyed =
    let e : some (str key) ≡ some (str text) = sym keyed ∙ ap (lookup (codes "id")) same_row in cc

shelf_behind :
    (front back : List Row) (row : Row) (key : Text)
    → shelf ≡ front ++ row ∷ back
    → lookup (codes "id") row ≡ some (str key)
    → rows_after (some key) ≡ back
unfolding text_eq
shelf_behind [] back row key whole keyed =
    let k : key ≡ codes "a" = shelf_key row key (codes "a") (cc) keyed in rw k (cc)
shelf_behind (x ∷ []) back row key whole keyed =
    let k : key ≡ codes "b" = shelf_key row key (codes "b") (cc) keyed in rw k (cc)
shelf_behind (x ∷ y ∷ []) back row key whole keyed = cc
shelf_behind (x ∷ y ∷ z ∷ front) back row key whole keyed = cc

shelf_scans :
    ScansInOrder shelf_driver 0
      (db_name same (codes "acme") (codes "lab"))
      (codes "books")
      (codes "id")
      shelf
shelf_scans = record {
  named = refl;
  first = λ n. refl;
  next = λ front back row key n whole keyed.
      ap (λ rows. ok (take n rows)) (shelf_behind front back row key whole keyed);
}

read_pages_whole_example :
    read_pages no_stringer same shelf_driver 3 0
      (codes "acme")
      (codes "lab")
      (codes "books")
      (codes "id")
      1
      []
    ≡ some shelf
unfolding lookup text_eq
read_pages_whole_example =
    read_pages_whole no_stringer same 0 (codes "acme") (codes "lab") (codes "books") (codes "id") 1
      shelf shelf_scans ((codes "a", refl, λ e. cc), ((codes "b", refl, λ e. cc), tt))

-- ===== src/LocalDb.antt =====
-- internal/localdb/db.go: the key/value table and the log table over SQLite. The
-- statements that the code runs are the operations of `Sql`. A value of the key/value table is what
-- json.Marshal gives; its type is a parameter.
pub mod Open
pub mod Handles
pub mod Reads
pub mod Rows
pub mod Refinement
use guild_net.Prelude.{
  ℕ, Bool, true, false, Option, none, some, List, [], ◌∷◌, ◌++◌, ◌&&◌, ◌≡◌, ◌⊎◌, ◌≢◌, Text, codes,
  ◌==◌, nat_eq, text_eq_inst, if◌then◌else◌,
}
use guild_net.DbManager.{Result, ok, fail}

-- a query of one row: its value, `sql.ErrNoRows`, or another error
pub data Selected (V : Type 0) : Type 0 where
  found : V → Selected V
  no_rows : Selected V
  broken : Text → Selected V

pub record Sql (S B : Type 0) : Type 0 where
  pub upsert_kv : S → Text → Text → B → S × Option Text
  pub select_kv : S → Text → Text → Selected B
  pub delete_kv : S → Text → Text → S × Option Text
  pub select_collection : S → Text → Result (List B)
  pub upsert_log : S → Text → Text → Text → S × Option Text
  pub select_log : S → Text → Text → Selected Text

-- The table answers `expected`, unless the query itself fails.
pub Answers : {V : Type 0} → Selected V → Selected V → Type 0
Answers expected (broken e) = Unit
Answers expected actual = actual ≡ expected

abbrev pub selected : {V : Type 0} → Option V → Selected V
selected none = no_rows
selected (some v) = found v

-- the primary key: collection and key
abbrev pub same_key : Text → Text → Text → Text → Bool
same_key c k d j = c == d && k == j

-- What the code relies on: a query that does not fail tells what the table holds, a statement that
-- succeeds has changed its row and no other, and one that fails has changed nothing.
pub record SqlLaws {S B : Type 0} (sql : Sql S B) : Type 0 where
  pub stored : S → Text → Text → Option B
  pub stored_log : S → Text → Text → Option Text
  pub select_answers :
      (s : S) (c k : Text) → Answers (selected (stored s c k)) (sql.select_kv s c k)
  pub upsert_stores :
      (s s' : S) (c k : Text) (v : B) (d j : Text)
      → sql.upsert_kv s c k v ≡ (s', none)
      → stored s' d j ≡ (if same_key c k d j then some v else stored s d j)
  pub upsert_fails :
      (s s' : S) (c k : Text) (v : B) (e d j : Text)
      → sql.upsert_kv s c k v ≡ (s', some e)
      → stored s' d j ≡ stored s d j
  pub delete_removes :
      (s s' : S) (c k d j : Text)
      → sql.delete_kv s c k ≡ (s', none)
      → stored s' d j ≡ (if same_key c k d j then none else stored s d j)
  pub delete_fails :
      (s s' : S) (c k e d j : Text)
      → sql.delete_kv s c k ≡ (s', some e)
      → stored s' d j ≡ stored s d j
  pub log_answers :
      (s : S) (c k : Text) → Answers (selected (stored_log s c k)) (sql.select_log s c k)
  pub log_stores :
      (s s' : S) (c k v : Text) → sql.upsert_log s c k v ≡ (s', none) → stored_log s' c k ≡ some v

abbrev pub newline : ℕ
newline = 10

-- `combined[len(combined)-1] == '\n'`
unfoldable pub ends_line : Text → Bool
ends_line [] = false
ends_line (c ∷ []) = c == newline
ends_line (c ∷ d ∷ s) = ends_line (d ∷ s)

unfoldable pub combined : Text → Text → Text
combined cur line = let text = cur ++ line in if ends_line text then text else text ++ newline ∷ []

unfoldable pub scan_value : {A B : Type 0} → (B → Result A) → Selected B → Result A
scan_value unmarshal (found b) = unmarshal b
scan_value unmarshal no_rows = fail (codes "not found")
scan_value unmarshal (broken e) = fail e

unfoldable pub scan_log : Selected Text → Result Text
scan_log (found b) = ok b
scan_log no_rows = ok []
scan_log (broken e) = fail e

module _ {S B : Type 0} (sql : Sql S B) where
  unfoldable pub put_value : {A : Type 0} → (A → Result B) → S → Text → Text → A → S × Option Text
  put_value marshal s c k v = elim (marshal v) [
    | fail e ↦ (s, some e)
    | ok b ↦ sql.upsert_kv s c k b
  ]

  unfoldable pub get_value : {A : Type 0} → (B → Result A) → S → Text → Text → Result A
  get_value unmarshal s c k = scan_value unmarshal (sql.select_kv s c k)

  unfoldable pub delete_value : S → Text → Text → S × Option Text
  delete_value s c k = sql.delete_kv s c k

  -- the blobs as one JSON array, which is decoded as a whole
  unfoldable pub list_values : {A : Type 0} → (List B → Result A) → S → Text → Result A
  list_values unmarshal s c = elim (sql.select_collection s c) [
    | fail e ↦ fail e
    | ok blobs ↦ unmarshal blobs
  ]

  unfoldable pub append_to : S → Text → Text → Text → Selected Text → S × Option Text
  append_to s c k line (found cur) = sql.upsert_log s c k (combined cur line)
  append_to s c k line no_rows = sql.upsert_log s c k (combined [] line)
  append_to s c k line (broken e) = (s, some e)

  unfoldable pub append_log : S → Text → Text → Text → S × Option Text
  append_log s c k line = append_to s c k line (sql.select_log s c k)

  unfoldable pub read_log : S → Text → Text → Result Text
  read_log s c k = scan_log (sql.select_log s c k)

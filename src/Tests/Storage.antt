-- ===== src/Tests/Storage.antt =====
-- The local database and the settings over a store in memory.
use guild_net.Prelude.{
  ℕ, true, Option, none, some, List, [], ◌∷◌, ◌++◌, ◌≡◌, refl, sym, ap, Text, codes, text_eq,
  text_eq_inst, Assoc, lookup, insert, delete, if◌then◌else◌, any,
}
use guild_net.Prelude.Equality.{pair_eq}
use guild_net.Prelude.Maps.{lookup-insert, lookup-delete, lookup-insert_self}
use guild_net.Prelude.Strings.{split}
use guild_net.Json.{Row, str}
use guild_net.DbManager.{Result, ok}
use guild_net.LocalDb.{
  Sql, selected, same_key, SqlLaws, put_value, get_value, append_log, append_to, combined,
  ends_line, read_log, scan_log,
}
use guild_net.LocalDb.Reads.{Answers-refl, append_each, split-read_log-append_each, IsBroken}
use guild_net.LocalDb.Refinement.{
  Write, putting, deleting, write_all, map_all, from_map, get_value-write_all,
}
use guild_net.Settings.Values.{Cluster, Codec, no_cluster}
use guild_net.Settings.RoundTrip.{CodecLaws}
use guild_net.Jobs.{Record, running}
use guild_net.Jobs.LocalPersist.{save_job}
use guild_net.Jobs.SavedJobs.{ScalarLaws, read_record-save_job}
use guild_net.Jobs.LocalPersist.{read_record, jobs_bucket}
use guild_net.Settings.Values.{index}

abbrev pub Tables : Type 0
Tables = Assoc (Text × Text) Row × Assoc (Text × Text) Text

abbrev pub memory_sql : Sql Tables Row
memory_sql = record {
  upsert_kv = λ s c k v. ((insert (c, k) v s.0, s.1), none);
  select_kv = λ s c k. selected (lookup (c, k) s.0);
  delete_kv = λ s c k. ((delete (c, k) s.0, s.1), none);
  select_collection = λ s c. ok [];
  upsert_log = λ s c k v. ((s.0, insert (c, k) v s.1), none);
  select_log = λ s c k. selected (lookup (c, k) s.1);
}

memory_stores :
    (s s' : Tables) (c k : Text) (v : Row) (d j : Text)
    → memory_sql.upsert_kv s c k v ≡ (s', none)
    → lookup (d, j) s'.0 ≡ (if same_key c k d j then some v else lookup (d, j) s.0)
memory_stores s s' c k v d j h = rw (ap (λ p. p.0.0) (sym h)) (lookup-insert (c, k) (d, j) v s.0)

memory_deletes :
    (s s' : Tables) (c k d j : Text)
    → memory_sql.delete_kv s c k ≡ (s', none)
    → lookup (d, j) s'.0 ≡ (if same_key c k d j then none else lookup (d, j) s.0)
memory_deletes s s' c k d j h = rw (ap (λ p. p.0.0) (sym h)) (lookup-delete (c, k) (d, j) s.0)

memory_logs :
    (s s' : Tables) (c k v : Text)
    → memory_sql.upsert_log s c k v ≡ (s', none)
    → lookup (c, k) s'.1 ≡ some v
memory_logs s s' c k v h = rw (ap (λ p. p.0.1) (sym h)) (lookup-insert_self (c, k) v s.1)

pub memory_laws : SqlLaws memory_sql
memory_laws = record {
  stored = λ s c k. lookup (c, k) s.0;
  stored_log = λ s c k. lookup (c, k) s.1;
  select_answers = λ s c k. Answers-refl refl;
  upsert_stores = memory_stores;
  upsert_fails = λ s s' c k v e d j h. cc;
  delete_removes = memory_deletes;
  delete_fails = λ s s' c k e d j h. cc;
  log_answers = λ s c k. Answers-refl refl;
  log_stores = memory_logs;
}

abbrev pub same_row : Codec Row
same_row = record { marshal = λ row. ok row; unmarshal = λ row. ok row }

same_ok : {row b : Row} → ◌≡◌ {A = Result Row} (ok row) (ok b) → b ≡ row
same_ok e = cc

pub same_row_laws : CodecLaws same_row
same_row_laws = record { round_trip = λ row b flat e. (b, refl, λ k. ap (lookup k) (same_ok e)) }

abbrev pub empty_tables : Tables
empty_tables = ([], [])

abbrev two_lines : List Text
two_lines = codes "starting" ∷ codes "done" ∷ []

split-read_log-append_each_example :
    split 10 (codes "starting" ++ 10 ∷ (codes "done" ++ 10 ∷ [])) ≡ two_lines ++ [] ∷ []
unfolding lookup insert append_each append_log append_to combined ends_line read_log scan_log any
    text_eq
split-read_log-append_each_example =
    split-read_log-append_each memory_laws empty_tables
      (append_each memory_sql empty_tables (codes "joblogs") (codes "j1") two_lines).0
      (codes "joblogs") (codes "j1") two_lines (codes "starting" ++ 10 ∷ (codes "done" ++ 10 ∷ []))
      refl (((λ e. cc), refl), (((λ e. cc), refl), tt)) refl refl

pub never-IsBroken : {V : Type 0} (o : Option V) → ¬ IsBroken (selected o)
never-IsBroken none (e, h) = cc
never-IsBroken (some v) (e, h) = cc

pub memory_readable : (s : Tables) (c k : Text) → ¬ IsBroken (memory_sql.select_kv s c k)
memory_readable s c k = never-IsBroken (lookup (c, k) s.0)

pub memory_empty : (c k : Text) → memory_laws.stored empty_tables c k ≡ none
unfolding memory_laws lookup
memory_empty c k = refl

abbrev prod : Cluster
prod = record no_cluster {
  name = codes " prod";
  prefer_pod_proxy = true;
  ts_client_auth_key = codes "tskey";
}

abbrev writes : List (Write Row)
writes =
    putting (codes "jobs") (codes "j1") ((codes "id", str (codes "j1")) ∷ [])
    ∷ putting (codes "jobs") (codes "j2") []
    ∷ deleting (codes "jobs") (codes "j1")
    ∷ []

get_value-write_all_example :
    get_value memory_sql same_row.unmarshal
      (write_all memory_sql same_row.marshal empty_tables writes)
      (codes "jobs")
      (codes "j1")
    ≡ from_map same_row.unmarshal (
        lookup
          (codes "jobs", codes "j1")
          (map_all memory_sql same_row.marshal empty_tables writes []))
unfolding lookup memory_laws
get_value-write_all_example =
    get_value-write_all memory_laws same_row.marshal same_row.unmarshal empty_tables writes []
      (codes "jobs") (codes "j1") (λ d j. refl)
      (never-IsBroken (
        lookup (codes "jobs", codes "j1")
          (write_all memory_sql same_row.marshal empty_tables writes).0))

-- a time as a text of one character
abbrev pub one_char : ℕ → Text
one_char t = t ∷ []

abbrev pub first_char : Text → Option ℕ
first_char [] = none
first_char (t ∷ s) = some t

same_row_scalar : ScalarLaws same_row
same_row_scalar = record { round_trip = λ row b flat e. (b, refl, λ k. ap (lookup k) (same_ok e)) }

abbrev half_done : Record
half_done = record {
  id = codes "j1";
  kind = codes "cluster.create";
  spec_json = codes "{}";
  status = running;
  progress = 0x3fe0_0000_0000_0000;
  created = 3;
  updated = 5;
  result = [];
  error = [];
}

abbrev saved_tables : Tables
saved_tables =
    (save_job one_char first_char memory_sql same_row (λ bs. ok bs) (λ e. e.msg) empty_tables
      half_done).0

read_record-save_job_example :
    (row : Row) × (get_value memory_sql same_row.unmarshal saved_tables jobs_bucket (codes "j1")
      ≡ ok row)
    × (read_record one_char first_char (index row) ≡ half_done)
unfolding save_job put_value
read_record-save_job_example =
    read_record-save_job one_char first_char (λ t. refl) memory_laws same_row_scalar (λ bs. ok bs)
      (λ e. e.msg) empty_tables saved_tables half_done tt refl refl
      (never-IsBroken (lookup (jobs_bucket, codes "j1") saved_tables.0))

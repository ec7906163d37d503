-- ===== src/LocalDb/Refinement.antt =====
-- The key/value table of the local database as a map from collections and keys to values.
use guild_net.Prelude.{
  Option, none, some, List, [], ◌∷◌, ◌≡◌, refl, ap, ◌∙◌, Text, codes, text_eq_inst, arith, Assoc,
  lookup, insert, delete,
}
use mathlib.Core.Path.{subst}
use guild_net.Prelude.Equality.{pair_eq}
use guild_net.Prelude.Maps.{lookup-insert, lookup-delete}
use guild_net.DbManager.{Result, ok, fail}
use guild_net.LocalDb.{
  Selected, found, no_rows, broken, Sql, Answers, selected, SqlLaws, put_value, scan_value,
  get_value, delete_value,
}
use guild_net.LocalDb.Reads.{IsBroken}

-- a call of Put or of Delete
pub data Write (A : Type 0) : Type 0 where
  putting : Text → Text → A → Write A
  deleting : Text → Text → Write A

module _ {S B A : Type 0} (sql : Sql S B) (marshal : A → Result B) where
  abbrev pub write : S → Write A → S × Option Text
  write s (putting c k v) = put_value sql marshal s c k v
  write s (deleting c k) = delete_value sql s c k

  abbrev pub write_all : S → List (Write A) → S
  write_all s [] = s
  write_all s (w ∷ ws) = write_all (write s w).0 ws

  -- the map: a call that returns an error leaves it as it is
  abbrev pub put_in_map : Text → Text → Result B → Assoc (Text × Text) B → Assoc (Text × Text) B
  put_in_map c k (ok b) m = insert (c, k) b m
  put_in_map c k (fail e) m = m

  abbrev pub map_write : Option Text → Write A → Assoc (Text × Text) B → Assoc (Text × Text) B
  map_write (some e) w m = m
  map_write none (putting c k v) m = put_in_map c k (marshal v) m
  map_write none (deleting c k) m = delete (c, k) m

  abbrev pub map_all : S → List (Write A) → Assoc (Text × Text) B → Assoc (Text × Text) B
  map_all s [] m = m
  map_all s (w ∷ ws) m = map_all (write s w).0 ws (map_write (write s w).1 w m)

abbrev pub from_map : {A B : Type 0} → (B → Result A) → Option B → Result A
from_map unmarshal none = fail (codes "not found")
from_map unmarshal (some b) = unmarshal b

module _ {S B : Type 0} {sql : Sql S B} (laws : SqlLaws sql) where
  abbrev pub Represents : Assoc (Text × Text) B → S → Type 0
  Represents m s = (d j : Text) → laws.stored s d j ≡ lookup (d, j) m

  module _ {A : Type 0} (marshal : A → Result B) where
    put_value-Represents :
        (r : Result B) (s s' : S) (err : Option Text) (c k : Text) (v : A)
        (m : Assoc (Text × Text) B)
        → Represents m s
        → marshal v ≡ r
        → put_value sql marshal s c k v ≡ (s', err)
        → Represents (map_write sql marshal err (putting c k v) m) s'
    unfolding put_value
    put_value-Represents (fail e) s s' none c k v m h r p d j = cc
    put_value-Represents (fail e) s s' (some e') c k v m h r p d j =
        let same : s ≡ s' = cc in subst (λ t. laws.stored t d j ≡ lookup (d, j) m) same (h d j)
    put_value-Represents (ok b) s s' none c k v m h r p d j = rw r (
        ground
          (arith, laws.upsert_stores s s' c k b d j (cc), lookup-insert (c, k) (d, j) b m, h d j))
    put_value-Represents (ok b) s s' (some e) c k v m h r p d j =
        laws.upsert_fails s s' c k b e d j (cc) ∙ h d j

    delete_value-Represents :
        (s s' : S) (err : Option Text) (c k : Text) (m : Assoc (Text × Text) B)
        → Represents m s
        → delete_value sql s c k ≡ (s', err)
        → Represents (map_write sql marshal err (deleting c k) m) s'
    unfolding delete_value
    delete_value-Represents s s' none c k m h p d j =
        ground (arith, laws.delete_removes s s' c k d j p, lookup-delete (c, k) (d, j) m, h d j)
    delete_value-Represents s s' (some e) c k m h p d j = laws.delete_fails s s' c k e d j p ∙ h d j

    write-Represents :
        (s : S) (w : Write A) (m : Assoc (Text × Text) B)
        → Represents m s
        → Represents (map_write sql marshal (write sql marshal s w).1 w m) (write sql marshal s w).0
    write-Represents s (putting c k v) m h =
        put_value-Represents (marshal v) s (put_value sql marshal s c k v).0
          (put_value sql marshal s c k v).1 c k v m h refl refl
    write-Represents s (deleting c k) m h =
        delete_value-Represents s (delete_value sql s c k).0 (delete_value sql s c k).1 c k m h refl

    pub write_all-Represents :
        (s : S) (ws : List (Write A)) (m : Assoc (Text × Text) B)
        → Represents m s
        → Represents (map_all sql marshal s ws m) (write_all sql marshal s ws)
    write_all-Represents s [] m h = h
    write_all-Represents s (w ∷ ws) m h =
        write_all-Represents (write sql marshal s w).0 ws
          (map_write sql marshal (write sql marshal s w).1 w m) (write-Represents s w m h)

    read_selected :
        (unmarshal : B → Result A) (o : Option B) (sel : Selected B)
        → Answers (selected o) sel
        → ¬ IsBroken sel
        → scan_value unmarshal sel ≡ from_map unmarshal o
    unfolding Answers scan_value
    read_selected unmarshal none (found b) h readable = cc
    read_selected unmarshal none no_rows h readable = refl
    read_selected unmarshal (some b) (found b') h readable = cc
    read_selected unmarshal (some b) no_rows h readable = cc
    read_selected unmarshal o (broken e) h readable = absurd (readable (e, refl))

    -- After any calls of Put and Delete, a Get whose query does not fail decodes what a map holds to
    -- which the calls that returned no error were applied, and says "not found" for a key that is not
    -- in it.
    pub get_value-write_all :
        (unmarshal : B → Result A) (s : S) (ws : List (Write A)) (m : Assoc (Text × Text) B)
        (c k : Text)
        → Represents m s
        → ¬ IsBroken (sql.select_kv (write_all sql marshal s ws) c k)
        → get_value sql unmarshal (write_all sql marshal s ws) c k
          ≡ from_map unmarshal (lookup (c, k) (map_all sql marshal s ws m))
    unfolding get_value
    get_value-write_all unmarshal s ws m c k h readable =
        let s' = write_all sql marshal s ws in
        read_selected unmarshal (laws.stored s' c k) (sql.select_kv s' c k)
          (laws.select_answers s' c k) readable
        ∙ ap (from_map unmarshal) (write_all-Represents s ws m h c k)

-- ===== src/LocalDb/Rows.antt =====
-- The rows of the key/value table after a Put.
use guild_net.Prelude.{
  false, none, some, ◌≡◌, refl, ◌∙◌, inl, inr, Text, text_eq_inst, text_eq_iff, arith, Option-cases,
}
use guild_net.DbManager.{Result, ok}
use guild_net.LocalDb.{Sql, SqlLaws, same_key, put_value}
use guild_net.LocalDb.Reads.{Result-cases}

module _ {S B A : Type 0} {sql : Sql S B} (laws : SqlLaws sql) (marshal : A → Result B) where
  -- Put changes at most its own row.
  pub stored-put_value :
      (s : S) (c k : Text) (v : A) (d j : Text)
      → same_key c k d j ≡ false
      → laws.stored (put_value sql marshal s c k v).0 d j ≡ laws.stored s d j
  unfolding put_value
  stored-put_value s c k v d j apart = elim (Result-cases (marshal v)) [
    | inr (e, refused) ↦ rw (refused, put_value) refl
    | inl (b, encoded) ↦
        (let s' = (sql.upsert_kv s c k b).0 in
          rw (encoded, put_value)
            (elim (Option-cases (sql.upsert_kv s c k b).1) [
              | inr (e, failed) ↦ laws.upsert_fails s s' c k b e d j (cc)
              | inl stored ↦ laws.upsert_stores s s' c k b d j (cc) ∙ rw apart refl
            ]))
  ]

  -- ... and without an error it stores what is marshalled.
  pub stored-put_value_ok :
      (s s' : S) (c k : Text) (v : A)
      → put_value sql marshal s c k v ≡ (s', none)
      → (b : B) × (marshal v ≡ ok b) × (laws.stored s' c k ≡ some b)
  unfolding put_value
  stored-put_value_ok s s' c k v h = elim (Result-cases (marshal v)) [
    | inr (e, refused) ↦ cc
    | inl (b, encoded) ↦
        (let stored : sql.upsert_kv s c k b ≡ (s', none) = cc in
          (
            b,
            encoded,
            ground
                (arith, laws.upsert_stores s s' c k b c k stored, text_eq_iff c c, text_eq_iff k k),
          ))
  ]

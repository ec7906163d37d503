-- ===== src/Secrets.antt =====
-- internal/secrets/manager.go: the encryption of a value by the master key. AES in Galois counter mode
-- and base64 are `Cipher`, and a text is its bytes.
pub mod RoundTrip
use guild_net.Prelude.{
  ℕ, zero, suc, Option, none, some, List, [], ◌∷◌, ◌++◌, ◌≡◌, Text, codes, length, take, drop,
  is_empty, ltb, if◌then◌else◌,
}
use guild_net.DbManager.{Result, ok, fail}

-- `failure` is the error of making the cipher of a key.
pub record Cipher : Type 0 where
  pub failure : Text → Option Text
  pub nonce_size : ℕ
  pub seal : Text → Text → Text → Text
  pub open_sealed : Text → Text → Text → Result Text
  pub encode : Text → Text
  pub decode : Text → Result Text

pub record Manager : Type 0 where
  pub key : Text

abbrev pub zeros : ℕ → Text
zeros zero = []
zeros (suc n) = 0 ∷ zeros n

-- the master key cut or filled up to 32 bytes
unfoldable pub new_manager : Text → Manager
new_manager master_key = record { key = take 32 (master_key ++ zeros 32) }

module _ (c : Cipher) where
  abbrev pub sealed : Text → Text → Result Text → Result Text
  sealed key plaintext (fail e) = fail e
  sealed key plaintext (ok nonce) = ok (c.encode (nonce ++ c.seal key nonce plaintext))

  abbrev pub with_cipher : Text → Result Text → Result Text
  with_cipher key result = elim (c.failure key) [ some e ↦ fail e | none ↦ result ]

  -- `nonce` is what is read of the random source
  unfoldable pub encrypt : Manager → Result Text → Text → Result Text
  encrypt m nonce plaintext =
      if is_empty m.key then ok plaintext else with_cipher m.key (sealed m.key plaintext nonce)

  abbrev pub opened : Text → Text → Result Text
  opened key b =
      if ltb (length b) c.nonce_size
      then fail (codes "ciphertext too short")
      else c.open_sealed key (take c.nonce_size b) (drop c.nonce_size b)

  abbrev pub decoded : Text → Result Text → Result Text
  decoded key (fail e) = fail e
  decoded key (ok b) = with_cipher key (opened key b)

  unfoldable pub decrypt : Manager → Text → Result Text
  decrypt m ciphertext =
      if is_empty m.key then ok ciphertext else decoded m.key (c.decode ciphertext)

-- What the packages promise: what was sealed is opened by the same key and nonce, and what was encoded
-- is decoded.
pub record CipherLaws (c : Cipher) : Type 0 where
  pub open_seal :
      (key nonce plaintext : Text)
      → c.open_sealed key nonce (c.seal key nonce plaintext) ≡ ok plaintext
  pub decode_encode : (b : Text) → c.decode (c.encode b) ≡ ok b

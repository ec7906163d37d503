-- ===== src/Secrets/RoundTrip.antt =====
-- Decryption after encryption.
use guild_net.Prelude.{
  ℕ, ◌≤◌, false, Bool-cases, Option, none, some, ◌++◌, ◌≡◌, refl, sym, ap, ◌∙◌, inl, inr, Text,
  codes, length, take, drop, is_empty, ltb, if◌then◌else◌, arith,
}
use guild_net.Prelude.Lists.{length-append, take-append, drop-append}
use guild_net.DbManager.{ok, fail}
use guild_net.Secrets.{
  Cipher, Manager, CipherLaws, sealed, with_cipher, encrypt, opened, decoded, decrypt,
}

long_enough : (a b : ℕ) → a ≤ b → ltb b a ≡ false
long_enough a b h = ground arith

module _ {c : Cipher} (laws : CipherLaws c) where
  opened-sealed :
      (key nonce plaintext : Text)
      → length nonce ≡ c.nonce_size
      → opened c key (nonce ++ c.seal key nonce plaintext) ≡ ok plaintext
  opened-sealed key nonce plaintext size =
      let ct = c.seal key nonce plaintext in
      ap
        (λ short.
          if short
          then fail (codes "ciphertext too short")
          else c.open_sealed key (take c.nonce_size (nonce ++ ct))
              (drop c.nonce_size (nonce ++ ct)))
        (long_enough c.nonce_size (length (nonce ++ ct))
          (omega (arith, length-append {0} nonce ct, size)))
      ∙ (ap (λ n. c.open_sealed key (take n (nonce ++ ct)) (drop n (nonce ++ ct))) (sym size)
          ∙ (ap (λ x. c.open_sealed key x (drop (length nonce) (nonce ++ ct)))
                (take-append nonce ct)
              ∙ (ap (c.open_sealed key nonce) (drop-append nonce ct)
                  ∙ laws.open_seal key nonce plaintext)))

  decoded-sealed :
      (key nonce plaintext v : Text) (failed : Option Text)
      → c.failure key ≡ failed
      → length nonce ≡ c.nonce_size
      → with_cipher c key (sealed c key plaintext (ok nonce)) ≡ ok v
      → decoded c key (c.decode v) ≡ ok plaintext
  decoded-sealed key nonce plaintext v (some e) at size h =
      let no : with_cipher c key (sealed c key plaintext (ok nonce)) ≡ fail e =
        (rw (at, with_cipher) refl) in
      absurd (cc)
  decoded-sealed key nonce plaintext v none at size h =
      let ct = nonce ++ c.seal key nonce plaintext in
      let made : with_cipher c key (sealed c key plaintext (ok nonce)) ≡ ok (c.encode ct) =
        (rw (at, with_cipher) refl) in
      let same : v ≡ c.encode ct = cc in
      ap (λ x. decoded c key (c.decode x)) same
      ∙ (ap (decoded c key) (laws.decode_encode ct)
          ∙ (rw (at, with_cipher) (opened-sealed key nonce plaintext size)))

  -- What was encrypted is decrypted by the same manager to what it was, whatever its key and the nonce
  -- that was drawn, an encryption without a key included.
  pub decrypt-encrypt :
      (m : Manager) (nonce plaintext v : Text)
      → length nonce ≡ c.nonce_size
      → encrypt c m (ok nonce) plaintext ≡ ok v
      → decrypt c m v ≡ ok plaintext
  unfolding encrypt decrypt
  decrypt-encrypt m nonce plaintext v size h = elim (Bool-cases (is_empty m.key)) [
    | inl no_key ↦ rw no_key (let same : ok plaintext ≡ ok v = (rw no_key at h) in sym same)
    | inr key ↦
        rw (key) (decoded-sealed m.key nonce plaintext v (c.failure m.key) refl size (rw key at h))
  ]

-- ===== src/RethinkDb/Retries.antt =====
-- What `retryTransient` returns.
use guild_net.Prelude.{
  ℕ, zero, suc, ◌≤◌, ◌<◌, true, false, Option, none, some, ◌≡◌, refl, sym, ap, ◌⊎◌, inl, inr, Text,
  arith, Bool-cases,
}
use guild_net.RethinkDb.{is_retried, after_try, retry_loop, retry_transient}

module _ {S : Type 0} where
  -- the state after `j` calls
  abbrev pub state_after : ℕ → (S → S × Option Text) → S → S
  state_after zero fn s = s
  state_after (suc j) fn s = state_after j fn (fn s).0

module _ (unicode_lower : ℕ → ℕ) {S : Type 0} (fn : S → S × Option Text) where
  -- the call fails with an error that is tried again
  abbrev pub FailsAgain : S → Type 0
  FailsAgain s = (e : Text) × ((fn s).1 ≡ some e) × (is_retried unicode_lower e ≡ true)

  -- there is nothing to try again
  abbrev pub Settles : Option Text → Type 0
  Settles none = Unit
  Settles (some e) = is_retried unicode_lower e ≡ false

  -- the outcome of the last of at most `n + 1` calls
  abbrev pub LastCall : ℕ → S → S × Option Text → Type 0
  LastCall n s r =
      (k : ℕ) × (k ≤ n)
      × (r ≡ fn (state_after k fn s))
      × ((j : ℕ) → j < k → FailsAgain (state_after j fn s))
      × ((k ≡ n) ⊎ Settles r.1)

  fails_before :
      (k : ℕ) (s : S)
      → FailsAgain s
      → ((j : ℕ) → j < k → FailsAgain (state_after j fn (fn s).0))
      → (j : ℕ) → j < suc k
      → FailsAgain (state_after j fn s)
  fails_before k s first later zero lt = first
  fails_before k s first later (suc j) lt = later j (omega arith)

  step-LastCall :
      (n : ℕ) (s : S) (r : S × Option Text)
      → fn s ≡ r
      → LastCall n (fn s).0 (retry_loop unicode_lower (suc n) fn r)
      → LastCall (suc n) s (after_try unicode_lower (retry_loop unicode_lower (suc n) fn) r)
  step-LastCall n s (s', none) h ih = (0, omega arith, sym h, λ j lt. absurd (omega arith), inr tt)
  step-LastCall n s (s', some e) h ih = elim (Bool-cases (is_retried unicode_lower e)) [
    | inl again ↦ rw again (
        let (k, le, outcome, before, last) = ih in
        (
          suc k,
          omega arith,
          outcome,
          fails_before k s (e, cc, again) before,
          elim last [ inl all ↦ inl (ap suc all) | inr settled ↦ inr settled ],
        ))
    | inr final ↦ rw final (0, omega arith, sym h, (λ j lt. absurd (omega arith)), inr final)
  ]

  one_call :
      (s : S) (r : S × Option Text)
      → fn s ≡ r
      → after_try unicode_lower (retry_loop unicode_lower 0 fn) r ≡ fn s
  unfolding retry_loop
  one_call s (s', none) h = sym h
  one_call s (s', some e) h = elim (Bool-cases (is_retried unicode_lower e)) [
    | inl again ↦ rw again (sym h)
    | inr final ↦ rw final (sym h)
  ]

  retry_loop-LastCall :
      (n : ℕ) (s : S) (err : Option Text)
      → LastCall n s (retry_loop unicode_lower (suc n) fn (s, err))
  unfolding retry_loop
  retry_loop-LastCall zero s err =
      (0, omega arith, one_call s (fn s) refl, (λ j lt. absurd (omega arith)), inl refl)
  retry_loop-LastCall (suc n) s err =
      step-LastCall n s (fn s) refl (retry_loop-LastCall n (fn s).0 (fn s).1)

  -- With n + 1 attempts the outcome is that of one of the first n + 1 calls, made on the state that
  -- the calls before it left: all of those failed with an error that is tried again, and the call is
  -- the last one allowed, or it succeeded, or it failed with an error that is not tried again.
  retry_transient-LastCall :
      (n : ℕ) (s : S) → LastCall n s (retry_transient unicode_lower (suc n) fn s)
  unfolding retry_transient
  retry_transient-LastCall n s = retry_loop-LastCall n s none

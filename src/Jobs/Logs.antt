-- ===== src/Jobs/Logs.antt =====
-- The channels of the log subscribers.
use guild_net.Prelude.{
  All, map, Option-cases, ℕ, zero, suc, ◌≤◌, true, false, List, [], ◌∷◌, ◌++◌, ◌≡◌, refl, ap, sym,
  ◌∙◌, Text, text_eq_inst, arith, lookup, length, take, ltb, Bool-cases, inl, inr,
}
use mathlib.Core.List.{append-nil, append_assoc}
use guild_net.Prelude.Lists.{length-append}
use guild_net.Prelude.Maps.{lookup-insert_self}
use guild_net.Jobs.{LogEvent, Channel, Runner, channel_cap, offer, offer_all, publish, subs_of}

module _ {P : Type 0} where
  abbrev pub publish_each : Text → List LogEvent → Runner P → Runner P
  publish_each job [] r = r
  publish_each job (e ∷ es) r = publish_each job es (publish job e r)

take_all : (n : ℕ) (es : List LogEvent) → length es ≤ n → take n es ≡ es
take_all zero [] h = refl
take_all (suc n) [] h = refl
take_all zero (e ∷ es) h = absurd (omega arith)
take_all (suc n) (e ∷ es) h = ap (λ t. e ∷ t) (take_all n es (omega arith))

take_full : (n : ℕ) (es fs : List LogEvent) → length es ≡ n → take n (es ++ fs) ≡ es
take_full zero [] fs h = refl
take_full (suc n) [] fs h = absurd (omega arith)
take_full zero (e ∷ es) fs h = absurd (omega arith)
take_full (suc n) (e ∷ es) fs h = ap (λ t. e ∷ t) (take_full n es fs (omega arith))

-- A channel after a list of sends.
abbrev offers : List LogEvent → Channel → Channel
offers [] ch = ch
offers (e ∷ es) ch = offers es (offer e ch)

offer_room :
    (e : LogEvent) (ch : Channel)
    → ltb (length ch.buffered) channel_cap ≡ true
    → offer e ch ≡ record ch { buffered = ch.buffered ++ e ∷ [] }
unfolding offer
offer_room e ch h = ground arith

offer_full :
    (e : LogEvent) (ch : Channel) → ltb (length ch.buffered) channel_cap ≡ false → offer e ch ≡ ch
unfolding offer
offer_full e ch h = ground arith

buffered-offers :
    (es : List LogEvent) (ch : Channel)
    → length ch.buffered ≤ channel_cap
    → (offers es ch).buffered ≡ take channel_cap (ch.buffered ++ es)
buffered-offers [] ch h = rw append-nil (sym (take_all 128 ch.buffered h))
buffered-offers (e ∷ es) ch h = elim (Bool-cases (ltb (length ch.buffered) channel_cap)) [
  | inl room ↦
      let ch' : Channel = record ch { buffered = ch.buffered ++ e ∷ [] } in
      ap (λ c. (offers es c).buffered) (offer_room e ch room)
      ∙ (buffered-offers es ch' (ground (arith, length-append ch.buffered (e ∷ [])))
          ∙ ap (take channel_cap) (append_assoc ch.buffered (e ∷ []) es))
  | inr full ↦
      let at_cap : length ch.buffered ≡ channel_cap = ground arith in
      ap (λ c. (offers es c).buffered) (offer_full e ch full)
      ∙ (buffered-offers es ch h
          ∙ (take_full channel_cap ch.buffered es at_cap
              ∙ sym (take_full channel_cap ch.buffered (e ∷ es) at_cap)))
]

chan_id-offers : (es : List LogEvent) (ch : Channel) → (offers es ch).chan_id ≡ ch.chan_id
unfolding offer
chan_id-offers [] ch = refl
chan_id-offers (e ∷ es) ch = chan_id-offers es (offer e ch) ∙ ground arith

-- What a channel has when some events were published: the oldest ones, as many as fit.
abbrev pub receive : List LogEvent → Channel → Channel
receive es ch = record { chan_id = ch.chan_id; buffered = take channel_cap (ch.buffered ++ es) }

offers-eq-receive :
    (es : List LogEvent) (ch : Channel)
    → length ch.buffered ≤ channel_cap
    → offers es ch ≡ receive es ch
offers-eq-receive es ch h = cc (chan_id-offers es ch, buffered-offers es ch h)

abbrev offers_all : List LogEvent → List Channel → List Channel
offers_all [] arr = arr
offers_all (e ∷ es) arr = offers_all es (offer_all e arr)

offers_all-nil : (es : List LogEvent) → offers_all es [] ≡ []
offers_all-nil [] = refl
offers_all-nil (e ∷ es) = offers_all-nil es

offers_all-cons :
    (es : List LogEvent) (ch : Channel) (arr : List Channel)
    → offers_all es (ch ∷ arr) ≡ offers es ch ∷ offers_all es arr
offers_all-cons [] ch arr = refl
offers_all-cons (e ∷ es) ch arr = offers_all-cons es (offer e ch) (offer_all e arr)

offers_all-eq-map :
    (es : List LogEvent) (arr : List Channel)
    → All (λ ch. length ch.buffered ≤ channel_cap) arr
    → offers_all es arr ≡ map (receive es) arr
offers_all-eq-map es [] h = offers_all-nil es
offers_all-eq-map es (ch ∷ arr) h =
    rw (offers_all-cons es ch arr, offers-eq-receive es ch h.0, offers_all-eq-map es arr h.1)

module _ {P : Type 0} where
  subs_of-publish :
      (job : Text) (e : LogEvent) (r : Runner P)
      → subs_of job (publish job e r) ≡ offer_all e (subs_of job r)
  unfolding publish
  subs_of-publish job e r = elim (Option-cases (lookup job r.log_subs)) [
    | inl nil ↦ ground arith
    | inr (arr, subs) ↦ ground (arith, lookup-insert_self job (offer_all e arr) r.log_subs)
  ]

  subs_of-publish_each :
      (job : Text) (es : List LogEvent) (r : Runner P)
      → subs_of job (publish_each job es r) ≡ offers_all es (subs_of job r)
  subs_of-publish_each job [] r = refl
  subs_of-publish_each job (e ∷ es) r =
      subs_of-publish_each job es (publish job e r) ∙ ap (offers_all es) (subs_of-publish job e r)

  -- Publishing never blocks and never reorders: after a list of events every subscriber of the job
  -- has what it had buffered, followed by the events, cut off at the channel's capacity. A full
  -- channel misses the newest events.
  pub publish_keeps_oldest :
      (job : Text) (es : List LogEvent) (r : Runner P)
      → All (λ ch. length ch.buffered ≤ channel_cap) (subs_of job r)
      → subs_of job (publish_each job es r) ≡ map (receive es) (subs_of job r)
  publish_keeps_oldest job es r h =
      subs_of-publish_each job es r ∙ offers_all-eq-map es (subs_of job r) h

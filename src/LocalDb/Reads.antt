-- ===== src/LocalDb/Reads.antt =====
-- What a read of the local database gives after a write of it.
use guild_net.Prelude.{
  ℕ, false, Option, none, some, List, [], ◌∷◌, ◌++◌, ◌≡◌, refl, sym, ap, ◌∙◌, ◌⊎◌, inl, inr, ◌≢◌,
  Text, ◌==◌, nat_eq, text_eq_inst, text_eq_iff, arith, All, any, Option-cases,
}
use mathlib.Core.Path.{subst}
use mathlib.Core.List.{append-nil, append_assoc}
use guild_net.Prelude.Strings.{split}
use guild_net.DbManager.{Result, ok, fail}
use guild_net.LocalDb.{
  Selected, found, no_rows, broken, Sql, Answers, selected, SqlLaws, newline, ends_line, combined,
  put_value, scan_value, get_value, append_to, append_log, scan_log, read_log,
}

-- the query of the row failed
abbrev pub IsBroken : {V : Type 0} → Selected V → Type 0
IsBroken {V} sel = (e : Text) × (sel ≡ broken e)

Answers-self : {V : Type 0} (sel : Selected V) → Answers sel sel
unfolding Answers
Answers-self (found v) = refl
Answers-self no_rows = refl
Answers-self (broken e) = tt

pub Answers-refl : {V : Type 0} {x y : Selected V} → y ≡ x → Answers x y
Answers-refl {x = x} e = subst (λ z. Answers x z) (sym e) (Answers-self x)

Answers-of_stored :
    {V : Type 0} {o : Option V} {v : V} (sel : Selected V)
    → o ≡ some v
    → Answers (selected o) sel
    → Answers (found v) sel
Answers-of_stored sel e = subst (λ o. Answers (selected o) sel) e

Answers-cases :
    {V : Type 0} (v : V) (sel : Selected V) → Answers (found v) sel → (sel ≡ found v) ⊎ IsBroken sel
unfolding Answers
Answers-cases v (found w) h = inl h
Answers-cases v no_rows h = inl h
Answers-cases v (broken e) h = inr (e, refl)

pub Result-cases :
    {A : Type 0} (r : Result A) → ((a : A) × (r ≡ ok a)) ⊎ ((e : Text) × (r ≡ fail e))
Result-cases (ok a) = inl (a, refl)
Result-cases (fail e) = inr (e, refl)

module _ {S B : Type 0} {sql : Sql S B} (laws : SqlLaws sql) where
  upserted :
      {s s' : S} {c k : Text} {b : B}
      → sql.upsert_kv s c k b ≡ (s', none)
      → laws.stored s' c k ≡ some b
  upserted {s} {s'} {c} {k} {b} h =
      ground (arith, laws.upsert_stores s s' c k b c k h, text_eq_iff c c, text_eq_iff k k)

  -- A value that Put stored is read back, unless the query of it fails.
  pub get_value-put_value :
      {A : Type 0} (marshal : A → Result B) (unmarshal : B → Result A) (s s' : S) (c k : Text)
      (v : A)
      → put_value sql marshal s c k v ≡ (s', none)
      → ((b : B) × (marshal v ≡ ok b) × (get_value sql unmarshal s' c k ≡ unmarshal b))
        ⊎ IsBroken (sql.select_kv s' c k)
  unfolding put_value get_value scan_value
  get_value-put_value marshal unmarshal s s' c k v h = elim (Result-cases (marshal v)) [
    | inr (e, refused) ↦ cc
    | inl (b, encoded) ↦
        (let stored : sql.upsert_kv s c k b ≡ (s', none) = cc in
          elim (Answers-cases b (sql.select_kv s' c k)
            (Answers-of_stored _ (upserted stored) (laws.select_answers s' c k))) [
              | inl answer ↦ inl (b, encoded, ap (scan_value unmarshal) answer)
              | inr failed ↦ inr failed
            ])
  ]

  -- A row that the table holds is decoded, unless the query of it fails.
  pub get_value-stored :
      {A : Type 0} (unmarshal : B → Result A) (s : S) (c k : Text) (b : B)
      → laws.stored s c k ≡ some b
      → (get_value sql unmarshal s c k ≡ unmarshal b) ⊎ IsBroken (sql.select_kv s c k)
  unfolding get_value scan_value
  get_value-stored unmarshal s c k b held =
      elim (Answers-cases b (sql.select_kv s c k)
        (Answers-of_stored _ held (laws.select_answers s c k))) [
          | inl answer ↦ inl (ap (scan_value unmarshal) answer)
          | inr failed ↦ inr failed
        ]

failed_scan :
    {A B : Type 0} (unmarshal : B → Result A) (sel : Selected B)
    → Answers no_rows sel
    → (e : Text) × (scan_value unmarshal sel ≡ fail e)
unfolding Answers scan_value
failed_scan unmarshal (found v) h = cc
failed_scan unmarshal no_rows h = (_, refl)
failed_scan unmarshal (broken e) h = (e, refl)

-- The read of a row that the table does not hold fails.
pub get_value-missing :
    {S A B : Type 0} {sql : Sql S B} (laws : SqlLaws sql) (unmarshal : B → Result A) (s : S)
    (c k : Text)
    → laws.stored s c k ≡ none
    → (e : Text) × (get_value sql unmarshal s c k ≡ fail e)
unfolding get_value
get_value-missing {sql = sql} laws unmarshal s c k missing =
    failed_scan unmarshal (sql.select_kv s c k)
      (subst (λ o. Answers (selected o) (sql.select_kv s c k)) missing (laws.select_answers s c k))

-- What the row of a log holds, as far as it can be read.
abbrev pub LogHolds : Text → Selected Text → Type 0
LogHolds cur (found t) = t ≡ cur
LogHolds cur no_rows = cur ≡ []
LogHolds cur (broken e) = Unit

LogHolds-of_answer : (v : Text) (sel : Selected Text) → Answers (found v) sel → LogHolds v sel
unfolding Answers
LogHolds-of_answer v (found t) h = cc
LogHolds-of_answer v no_rows h = cc
LogHolds-of_answer v (broken e) h = tt

-- one append for each line, up to the first error
module _ {S B : Type 0} (sql : Sql S B) where
  unfoldable pub append_each : S → Text → Text → List Text → S × Option Text
  append_each s c k [] = (s, none)
  append_each s c k (line ∷ lines) =
      let (s', err) = append_log sql s c k line in
      elim err [ some e ↦ (s', some e) | none ↦ append_each s' c k lines ]

abbrev combine_all : Text → List Text → Text
combine_all cur [] = cur
combine_all cur (line ∷ lines) = combine_all (combined cur line) lines

abbrev with_newlines : List Text → Text
with_newlines [] = []
with_newlines (line ∷ lines) = line ++ newline ∷ with_newlines lines

-- a line of text: not empty, and without a newline
abbrev pub IsLine : Text → Type 0
IsLine line = (line ≢ []) × (any (λ c. c == newline) line ≡ false)

module _ {S B : Type 0} {sql : Sql S B} (laws : SqlLaws sql) where
  append_to-LogHolds :
      (s s' : S) (c k cur line : Text) (sel : Selected Text)
      → LogHolds cur sel
      → append_to sql s c k line sel ≡ (s', none)
      → LogHolds (combined cur line) (sql.select_log s' c k)
  unfolding append_to
  append_to-LogHolds s s' c k cur line (found t) h e =
      LogHolds-of_answer (combined cur line) (sql.select_log s' c k) (
        Answers-of_stored _ (laws.log_stores s s' c k (combined cur line) (cc))
          (laws.log_answers s' c k))
  append_to-LogHolds s s' c k cur line no_rows h e =
      LogHolds-of_answer (combined cur line) (sql.select_log s' c k) (
        Answers-of_stored _ (laws.log_stores s s' c k (combined cur line) (cc))
          (laws.log_answers s' c k))
  append_to-LogHolds s s' c k cur line (broken b) h e = cc

  append_log-LogHolds :
      (s s' : S) (c k cur line : Text)
      → LogHolds cur (sql.select_log s c k)
      → append_log sql s c k line ≡ (s', none)
      → LogHolds (combined cur line) (sql.select_log s' c k)
  unfolding append_log
  append_log-LogHolds s s' c k cur line h e =
      append_to-LogHolds s s' c k cur line (sql.select_log s c k) h e

  append_each-LogHolds :
      (s s' : S) (c k cur : Text) (lines : List Text)
      → LogHolds cur (sql.select_log s c k)
      → append_each sql s c k lines ≡ (s', none)
      → LogHolds (combine_all cur lines) (sql.select_log s' c k)
  unfolding append_each
  append_each-LogHolds s s' c k cur [] h e = rw (ap (λ p. p.0) (sym e)) h
  append_each-LogHolds s s' c k cur (line ∷ lines) h e =
      elim (Option-cases (append_log sql s c k line).1) [
        | inr (err, failed) ↦ cc
        | inl fine ↦
            (let t : S = (append_log sql s c k line).0 in
              append_each-LogHolds t s' c k (combined cur line) lines
                (append_log-LogHolds s t c k cur line h (cc)) (cc))
      ]

ends_line-append : (s : Text) (c : ℕ) (t : Text) → ends_line (s ++ c ∷ t) ≡ ends_line (c ∷ t)
unfolding ends_line
ends_line-append [] c t = refl
ends_line-append (d ∷ []) c t = refl
ends_line-append (d ∷ d' ∷ s) c t = ends_line-append (d' ∷ s) c t

ends_line_free : (t : Text) → any (λ c. c == newline) t ≡ false → ends_line t ≡ false
unfolding ends_line any
ends_line_free [] h = refl
ends_line_free (c ∷ []) h = ground arith
ends_line_free (c ∷ d ∷ t) h = ends_line_free (d ∷ t) (ground arith)

combined_line : (cur line : Text) → IsLine line → combined cur line ≡ cur ++ (line ++ newline ∷ [])
unfolding combined
combined_line cur [] h = absurd (h.0 refl)
combined_line cur (c ∷ line) h =
    rw (ends_line-append cur c line, ends_line_free (c ∷ line) h.1)
      (append_assoc cur (c ∷ line) (newline ∷ []))

combine_all_lines :
    (cur : Text) (lines : List Text)
    → All IsLine lines
    → combine_all cur lines ≡ cur ++ with_newlines lines
combine_all_lines cur [] h = sym (append-nil cur)
combine_all_lines cur (line ∷ lines) (h, hs) =
    combine_all_lines (combined cur line) lines hs
    ∙ (ap (λ t. t ++ with_newlines lines) (combined_line cur line h) ∙ simp (append_assoc))

split_line :
    (line s : Text)
    → any (λ c. c == newline) line ≡ false
    → split newline (line ++ newline ∷ s) ≡ line ∷ split newline s
unfolding split any
split_line [] s h = refl
split_line (c ∷ line) s h = ground (arith, split_line line s)

split-with_newlines :
    (lines : List Text) → All IsLine lines → split newline (with_newlines lines) ≡ lines ++ [] ∷ []
unfolding split
split-with_newlines [] h = refl
split-with_newlines (line ∷ lines) (h, hs) =
    split_line line (with_newlines lines) h.1
    ∙ ap (λ rest. line ∷ rest) (split-with_newlines lines hs)

read_lines :
    (sel : Selected Text) (lines : List Text) (text : Text)
    → All IsLine lines
    → LogHolds (combine_all [] lines) sel
    → scan_log sel ≡ ok text
    → split newline text ≡ lines ++ [] ∷ []
unfolding scan_log
read_lines (found t) lines text h held r =
    let exact : text ≡ with_newlines lines = cc (combine_all_lines [] lines h) in
    rw exact (split-with_newlines lines h)
read_lines no_rows lines text h held r =
    let exact : text ≡ with_newlines lines = cc (combine_all_lines [] lines h) in
    rw exact (split-with_newlines lines h)
read_lines (broken e) lines text h held r = cc

module _ {S B : Type 0} {sql : Sql S B} (laws : SqlLaws sql) where
  -- The lines that are appended to an absent log without an error, each not empty and without a
  -- newline, are the lines of the text that ReadLog gives, in their order.
  pub split-read_log-append_each :
      (s s' : S) (c k : Text) (lines : List Text) (text : Text)
      → sql.select_log s c k ≡ no_rows
      → All IsLine lines
      → append_each sql s c k lines ≡ (s', none)
      → read_log sql s' c k ≡ ok text
      → split newline text ≡ lines ++ [] ∷ []
  unfolding read_log scan_log
  split-read_log-append_each s s' c k lines text empty h e r =
      let held = append_each-LogHolds laws s s' c k [] lines (rw empty refl) e in
      read_lines (sql.select_log s' c k) lines text h held r

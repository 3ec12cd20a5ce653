-- ===== src/Paxos/Acceptor/LogText.antt =====
-- What is written to the log file is read back.
use lab.Base.{
  ℕ, zero, suc, ◌+◌, ◌-◌, ◌*◌, ◌/◌, ◌%◌, ◌^◌, ◌≤◌, ◌<◌, ◌≡◌, ◌≢◌, refl, ap, ◌∙◌, inl, inr, true,
  false, Option, none, some, List, [], ◌∷◌, ◌++◌, ◌==◌, nat_key, ltb, length, All, arith,
  append_assoc, length-append, Bool-cases,
}
use lab.Base.Bytes.{Bytes, str_key}
use lab.Protocol.Paxos.{Prop}
use lab.Paxos.Acceptor.{LogRecord, done, high, prop}
use lab.Paxos.Acceptor.Log.{
  done_word, high_word, prop_word, decimal, unsigned_text, line_of, file_text, is_blank, is_digit,
  skip_blanks, split_word, read_word, read_digits, starts_with_digit, read_unsigned, getline,
  read_named, read_fields, read_text,
}

-- A name: not empty, and without blanks.
abbrev pub IsWord : Bytes → Type 0
IsWord n = (n ≢ []) × All (λ c. is_blank c ≡ false) n

-- A value: without line ends.
abbrev pub IsLine : Bytes → Type 0
IsLine v = All (λ c. (c == 10) ≡ false) v

-- A proposal number as it is written: of 32 bits, with a name.
abbrev pub IsNumber : Prop → Type 0
IsNumber p = (p.n < 2 ^ 32) × IsWord p.m

abbrev pub IsPlain : LogRecord → Type 0
IsPlain (done i v) = (i < 2 ^ 32) × IsLine v
IsPlain (high p) = IsNumber p
IsPlain (prop p v) = IsNumber p × IsLine v

getline_lem : (v r : Bytes) → IsLine v → getline (v ++ 10 ∷ r) ≡ (v, r)
unfolding getline
getline_lem [] r h = refl
getline_lem (c ∷ v) r (here, h) = rw (here, getline, getline_lem v r h) refl

split_word_lem :
    (w r : Bytes) (c : ℕ)
    → All (λ c. is_blank c ≡ false) w
    → is_blank c ≡ true
    → split_word (w ++ c ∷ r) ≡ (w, c ∷ r)
unfolding split_word
split_word_lem [] r c h b = rw b refl
split_word_lem (x ∷ w) r c (here, h) b = rw (here, split_word, split_word_lem w r c h b) refl

read_word_lem :
    (w r : Bytes) (c : ℕ) → IsWord w → is_blank c ≡ true → read_word (w ++ c ∷ r) ≡ some (w, c ∷ r)
unfolding read_word skip_blanks
read_word_lem [] r c (full, h) b = absurd (full refl)
read_word_lem (x ∷ w) r c (full, h) b =
    let s : split_word (x ∷ (w ++ c ∷ r)) ≡ (x ∷ w, c ∷ r) = split_word_lem (x ∷ w) r c h b in
    rw (h.0, s) refl

digit-step :
    (a d : ℕ) (r : Bytes) → d < 10 → read_digits a ((48 + d) ∷ r) ≡ read_digits (a * 10 + d) r
unfolding read_digits
digit-step a d r h =
    let yes : is_digit (48 + d) ≡ true = ground arith in
    let e : a * 10 + (48 + d - 48) ≡ a * 10 + d = omega arith in
    rw yes (ap (λ n. read_digits n r) e)

decimal_read :
    (f n : ℕ) (r : Bytes) → n < 10 ^ f → read_digits 0 (decimal f n ++ r) ≡ read_digits n r
unfolding decimal
decimal_read zero n r h = ap (λ k. read_digits k r) (omega arith)
decimal_read (suc f) n r h = elim (Bool-cases (ltb n 10)) [
  | inl one ↦ rw one (digit-step 0 n r (ground arith) ∙ ap (λ k. read_digits k r) (omega arith))
  | inr more ↦
      let next : n / 10 < 10 ^ f = omega arith in
      rw (more, append_assoc (decimal f (n / 10)) ((48 + n % 10) ∷ []) r)
        (decimal_read f (n / 10) ((48 + n % 10) ∷ r) next
          ∙ digit-step (n / 10) (n % 10) r (omega arith)
          ∙ ap (λ k. read_digits k r) (omega arith))
]

decimal_starts :
    (f n : ℕ) (r : Bytes) → n < 10 ^ suc f → starts_with_digit (decimal (suc f) n ++ r) ≡ true
unfolding decimal
decimal_starts zero n r h = elim (Bool-cases (ltb n 10)) [
  | inl one ↦ rw one (ground (arith, one))
  | inr more ↦ absurd (ground (arith, h, more))
]
decimal_starts (suc f) n r h = elim (Bool-cases (ltb n 10)) [
  | inl one ↦ rw one (ground (arith, one))
  | inr more ↦
      rw (more, append_assoc (decimal (suc f) (n / 10)) ((48 + n % 10) ∷ []) r)
        (decimal_starts f (n / 10) ((48 + n % 10) ∷ r) (omega (arith, h)))
]

skip_digit : (u : Bytes) → starts_with_digit u ≡ true → skip_blanks u ≡ u
unfolding skip_blanks
skip_digit [] h = refl
skip_digit (c ∷ t) h = ground (arith, h)

read_unsigned_lem :
    (n : ℕ) (r : Bytes)
    → n < 2 ^ 32
    → read_unsigned (32 ∷ (unsigned_text n ++ 32 ∷ r)) ≡ some (n, 32 ∷ r)
unfolding read_unsigned skip_blanks read_digits
read_unsigned_lem n r h =
    let t = unsigned_text n ++ 32 ∷ r in
    let digit : starts_with_digit t ≡ true = decimal_starts 9 n (32 ∷ r) (omega arith) in
    let skip : skip_blanks (32 ∷ t) ≡ t = skip_digit t digit in
    rw (read_unsigned, skip, digit) (ap some (decimal_read 10 n (32 ∷ r) (omega arith)))

fields_done :
    (i : ℕ) (v rest : Bytes)
    → IsPlain (done i v)
    → read_fields done_word (32 ∷ (unsigned_text i ++ 32 ∷ (v ++ 10 ∷ rest)))
      ≡ some (done i v, rest)
unfolding read_fields
fields_done i v rest (small, line) =
    rw (read_unsigned_lem i (v ++ 10 ∷ rest) small, read_fields, getline_lem v rest line) refl

-- The space before a name is skipped.
name_lem :
    (m r : Bytes) (c : ℕ)
    → IsWord m
    → is_blank c ≡ true
    → read_word (32 ∷ (m ++ c ∷ r)) ≡ some (m, c ∷ r)
unfolding read_word skip_blanks
name_lem m r c w b = read_word_lem m r c w b

fields_high :
    (p : Prop) (rest : Bytes)
    → IsPlain (high p)
    → read_fields high_word (32 ∷ (unsigned_text p.n ++ 32 ∷ (p.m ++ 10 ∷ rest)))
      ≡ some (high p, 10 ∷ rest)
unfolding read_fields read_named
fields_high p rest (small, word) =
    let named : read_named high_word p.n (32 ∷ (p.m ++ 10 ∷ rest)) ≡ some (high p, 10 ∷ rest) =
      rw (name_lem p.m rest 10 word refl, read_named) refl in
    rw (read_unsigned_lem p.n (p.m ++ 10 ∷ rest) small, read_fields, named) refl

fields_prop :
    (p : Prop) (v rest : Bytes)
    → IsPlain (prop p v)
    → read_fields prop_word (32 ∷ (unsigned_text p.n ++ 32 ∷ (p.m ++ 32 ∷ (v ++ 10 ∷ rest))))
      ≡ some (prop p v, rest)
unfolding read_fields read_named
fields_prop p v rest ((small, word), line) =
    let named : read_named prop_word p.n (32 ∷ (p.m ++ 32 ∷ (v ++ 10 ∷ rest)))
        ≡ some (prop p v, rest) =
      rw (name_lem p.m (v ++ 10 ∷ rest) 32 word refl, read_named, getline_lem v rest line) refl in
    rw (read_unsigned_lem p.n (p.m ++ 32 ∷ (v ++ 10 ∷ rest)) small, read_fields, named) refl

-- A record before the rest of the log.
abbrev then_rest : LogRecord → Option (List LogRecord) → Option (List LogRecord)
then_rest r none = none
then_rest r (some rs) = some (r ∷ rs)

turn :
    (f : ℕ) (word t after : Bytes) (r : LogRecord)
    → IsWord word
    → read_fields word (32 ∷ t) ≡ some (r, after)
    → read_text (suc f) (word ++ 32 ∷ t) ≡ then_rest r (read_text f after)
unfolding read_text
turn f word t after r w e = rw (read_word_lem word t 32 w refl, read_text, e) refl

skip_line_end : (f : ℕ) (t : Bytes) → read_text f (10 ∷ t) ≡ read_text f t
unfolding read_text read_word skip_blanks
skip_line_end zero t = refl
skip_line_end (suc f) t = refl

read_line :
    (f : ℕ) (r : LogRecord) (rest : Bytes)
    → IsPlain r
    → read_text (suc f) (line_of r ++ rest) ≡ then_rest r (read_text f rest)
unfolding line_of
read_line f (done i v) rest h =
    let e =
      append_assoc (unsigned_text i) (32 ∷ (v ++ 10 ∷ [])) rest
      ∙ ap (λ t. unsigned_text i ++ 32 ∷ t) (append_assoc v (10 ∷ []) rest) in
    ap (λ t. read_text (suc f) (done_word ++ 32 ∷ t)) e
    ∙ turn f done_word _ rest (done i v) ((λ e. cc e), (refl, (refl, (refl, (refl, tt)))))
        (fields_done i v rest h)
read_line f (high p) rest h =
    let e =
      append_assoc (unsigned_text p.n) (32 ∷ (p.m ++ 10 ∷ [])) rest
      ∙ ap (λ t. unsigned_text p.n ++ 32 ∷ t) (append_assoc p.m (10 ∷ []) rest) in
    ap (λ t. read_text (suc f) (high_word ++ 32 ∷ t)) e
    ∙ turn f high_word _ (10 ∷ rest) (high p) ((λ e. cc e), (refl, (refl, (refl, (refl, tt)))))
        (fields_high p rest h)
    ∙ ap (then_rest (high p)) (skip_line_end f rest)
read_line f (prop p v) rest h =
    let e =
      append_assoc (unsigned_text p.n) (32 ∷ (p.m ++ 32 ∷ (v ++ 10 ∷ []))) rest
      ∙ ap (λ t. unsigned_text p.n ++ 32 ∷ t)
          (append_assoc p.m (32 ∷ (v ++ 10 ∷ [])) rest
            ∙ ap (λ t. p.m ++ 32 ∷ t) (append_assoc v (10 ∷ []) rest)) in
    ap (λ t. read_text (suc f) (prop_word ++ 32 ∷ t)) e
    ∙ turn f prop_word _ rest (prop p v) ((λ e. cc e), (refl, (refl, (refl, (refl, tt)))))
        (fields_prop p v rest h)

read_text_lem :
    (rs : List LogRecord) (f : ℕ)
    → length rs < f
    → All IsPlain rs
    → read_text f (file_text rs) ≡ some rs
unfolding read_text file_text read_word skip_blanks split_word
read_text_lem rs zero l h = absurd (omega arith)
read_text_lem [] (suc f) l h = refl
read_text_lem (r ∷ rs) (suc f) l (here, h) =
    read_line f r (file_text rs) here ∙ ap (then_rest r) (read_text_lem rs f (omega arith) h)

line_long : (r : LogRecord) → 1 ≤ length (line_of r)
unfolding line_of
line_long (done i v) = omega arith
line_long (high p) = omega arith
line_long (prop p v) = omega arith

file_long : (rs : List LogRecord) → length rs ≤ length (file_text rs)
unfolding file_text
file_long [] = omega arith
file_long (r ∷ rs) =
    omega (arith, line_long r, file_long rs, length-append (line_of r) (file_text rs))

-- A file of records whose numbers are of 32 bits, whose names are not empty and have no blanks, and
-- whose values have no line ends, is read back as the same records.
pub read_text-file_text :
    (rs : List LogRecord)
    → All IsPlain rs
    → read_text (suc (length (file_text rs))) (file_text rs) ≡ some rs
read_text-file_text rs h =
    read_text_lem rs (suc (length (file_text rs))) (omega (arith, file_long rs)) h

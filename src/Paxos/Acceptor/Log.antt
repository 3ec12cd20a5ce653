-- ===== src/Paxos/Acceptor/Log.antt =====
-- The log file (log.cc): how its records are written as text, and how the text is read again.
use lab.Base.{
  ℕ, zero, suc, ◌+◌, ◌-◌, ◌*◌, ◌/◌, ◌%◌, Bool, false, ◌&&◌, ◌||◌, Option, none, some, List, [], ◌∷◌,
  ◌++◌, ◌==◌, if◌then◌else◌, nat_key, ltb, leb, length, drop,
}
use lab.Base.Bytes.{Bytes, str_key}
use lab.Paxos.Acceptor.{LogRecord, done, high, prop, Acceptor, acceptor}

-- The names of the records.
abbrev pub done_word : Bytes
done_word = 100 ∷ 111 ∷ 110 ∷ 101 ∷ []

abbrev pub high_word : Bytes
high_word = 104 ∷ 105 ∷ 103 ∷ 104 ∷ []

abbrev pub prop_word : Bytes
prop_word = 112 ∷ 114 ∷ 111 ∷ 112 ∷ []

-- `<<` of a number with at most `f` decimal digits.
unfoldable pub decimal : ℕ → ℕ → Bytes
decimal zero n = []
decimal (suc f) n =
    let rest = decimal f (n / 10) in if ltb n 10 then (48 + n) ∷ [] else rest ++ (48 + n % 10) ∷ []

-- An `unsigned` has at most ten.
abbrev pub unsigned_text : ℕ → Bytes
unsigned_text = decimal 10

-- `loginstance`, `loghigh` and `logprop`: what is appended to the file.
unfoldable pub line_of : LogRecord → Bytes
line_of (done instance_no v) = done_word ++ 32 ∷ (unsigned_text instance_no ++ 32 ∷ (v ++ 10 ∷ []))
line_of (high n_h) = high_word ++ 32 ∷ (unsigned_text n_h.n ++ 32 ∷ (n_h.m ++ 10 ∷ []))
line_of (prop n v) = prop_word ++ 32 ∷ (unsigned_text n.n ++ 32 ∷ (n.m ++ 32 ∷ (v ++ 10 ∷ [])))

-- The file after the records.
unfoldable pub file_text : List LogRecord → Bytes
file_text [] = []
file_text (r ∷ rs) = line_of r ++ file_text rs

abbrev pub is_blank : ℕ → Bool
is_blank c = c == 32 || (leb 9 c && leb c 13)

abbrev pub is_digit : ℕ → Bool
is_digit c = leb 48 c && leb c 57

unfoldable pub skip_blanks : Bytes → Bytes
skip_blanks [] = []
skip_blanks (c ∷ t) = let rest = skip_blanks t in if is_blank c then rest else c ∷ t

-- The characters up to a blank, and what follows.
unfoldable pub split_word : Bytes → Bytes × Bytes
split_word [] = ([], [])
split_word (c ∷ t) = let (w, r) = split_word t in if is_blank c then ([], c ∷ t) else (c ∷ w, r)

-- `from >> type`, and that of a name; `none` at the end of the file.
unfoldable pub read_word : Bytes → Option (Bytes × Bytes)
read_word t = let (w, r) = split_word (skip_blanks t) in if w == [] then none else some (w, r)

unfoldable pub read_digits : ℕ → Bytes → ℕ × Bytes
read_digits n [] = (n, [])
read_digits n (c ∷ t) =
    let rest = read_digits (n * 10 + (c - 48)) t in if is_digit c then rest else (n, c ∷ t)

abbrev pub starts_with_digit : Bytes → Bool
starts_with_digit [] = false
starts_with_digit (c ∷ t) = is_digit c

-- `from >> instance`; `none` where there is no digit, after which the stream has failed.
unfoldable pub read_unsigned : Bytes → Option (ℕ × Bytes)
read_unsigned t =
    let u = skip_blanks t in if starts_with_digit u then some (read_digits 0 u) else none

unfoldable pub getline : Bytes → Bytes × Bytes
getline [] = ([], [])
getline (c ∷ t) = let (v, r) = getline t in if c == 10 then ([], t) else (c ∷ v, r)

-- The name in a record `high`, and the name and the value in one `prop`; any other word is the
-- assertion.
unfoldable pub read_named : Bytes → ℕ → Bytes → Option (LogRecord × Bytes)
read_named word n t = elim (read_word t) [
  | none ↦ none
  | some (m, r) ↦
      let (v, after) = getline (drop 1 r) in
      if word == high_word
      then some (high (record { n = n; m = m }), r)
      else if word == prop_word
      then some (prop (record { n = n; m = m }) v, after)
      else none
]

-- The fields of a record behind its first word. `none` is the assertion, or a number or a name that
-- cannot be read.
unfoldable pub read_fields : Bytes → Bytes → Option (LogRecord × Bytes)
read_fields word t = elim (read_unsigned t) [
  | none ↦ none
  | some (n, r) ↦
      let (v, after) = getline (drop 1 r) in
      let named = read_named word n r in if word == done_word then some (done n v, after) else named
]

-- The loop of `logread`, as the records that it sees. Each turn reads at least one character.
unfoldable pub read_text : ℕ → Bytes → Option (List LogRecord)
read_text zero t = none
read_text (suc f) t = elim (read_word t) [
  | none ↦ some []
  | some (word, r) ↦ elim (read_fields word r) [
    | none ↦ none
    | some (entry, after) ↦ elim (read_text f after) [ none ↦ none | some rs ↦ some (entry ∷ rs) ]
  ]
]

-- The constructor on a file that an earlier run left.
unfoldable pub start_on : Bool → Bool → Bytes → Bytes → Bytes → Option Acceptor
start_on cfg first me value file = elim (read_text (suc (length file)) file) [
  | none ↦ none
  | some rs ↦ some (acceptor cfg first me value rs)
]

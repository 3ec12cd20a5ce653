-- ===== src/Extent/Server/Content.antt =====
-- What reads and writes of an extent do to its bytes.
use lab.Base.{
  ℕ, zero, suc, ◌+◌, ◌-◌, ◌%◌, ◌^◌, ◌≤◌, ◌≡◌, refl, ap, ◌∙◌, inl, inr, false, Option, none, some,
  [], ◌∷◌, ◌++◌, if◌then◌else◌, nat_key, ltb, length, take, drop, replicate, get_elem?, arith,
  Bool-cases, length-append, length-take, length-replicate, length-drop,
}
use lab.Base.Bytes.{Bytes, str_key}
use lab.Base.Map.{lookup, lookup-insert}
use lab.Extent.Server.{ExtentServer, ok, put, write, resize, replace, grow, max_size}

get_elem?-append :
    (xs ys : Bytes) (i : ℕ)
    → get_elem? (xs ++ ys) i
      ≡ (if ltb i (length xs) then get_elem? xs i else get_elem? ys (i - length xs))
get_elem?-append [] ys i = ground arith
get_elem?-append (x ∷ xs) ys zero = ground arith
get_elem?-append (x ∷ xs) ys (suc i) = ground (arith, get_elem?-append xs ys i)

get_elem?-take :
    (n : ℕ) (xs : Bytes) (i : ℕ)
    → get_elem? (take n xs) i ≡ (if ltb i n then get_elem? xs i else none)
get_elem?-take zero xs i = ground arith
get_elem?-take (suc n) [] i = ground arith
get_elem?-take (suc n) (x ∷ xs) zero = ground arith
get_elem?-take (suc n) (x ∷ xs) (suc i) = ground (arith, get_elem?-take n xs i)

get_elem?-drop : (n : ℕ) (xs : Bytes) (i : ℕ) → get_elem? (drop n xs) i ≡ get_elem? xs (n + i)
get_elem?-drop zero xs i = ap (get_elem? xs) (omega arith)
get_elem?-drop (suc n) [] i = refl
get_elem?-drop (suc n) (x ∷ xs) i =
    let e : suc (n + i) ≡ suc n + i = omega arith in
    get_elem?-drop n xs i ∙ ap (get_elem? (x ∷ xs)) e

get_elem?-replicate :
    (n : ℕ) (a i : ℕ) → get_elem? (replicate n a) i ≡ (if ltb i n then some a else none)
get_elem?-replicate zero a i = ground arith
get_elem?-replicate (suc n) a zero = ground arith
get_elem?-replicate (suc n) a (suc i) = ground (arith, get_elem?-replicate n a i)

get_elem?-past : (xs : Bytes) (i : ℕ) → length xs ≤ i → get_elem? xs i ≡ none
get_elem?-past [] i h = refl
get_elem?-past (x ∷ xs) zero h = absurd (omega arith)
get_elem?-past (x ∷ xs) (suc i) h = get_elem?-past xs i (omega arith)

pub take_all : (xs : Bytes) (n : ℕ) → length xs ≤ n → take n xs ≡ xs
take_all [] zero h = refl
take_all [] (suc n) h = refl
take_all (x ∷ xs) zero h = absurd (omega arith)
take_all (x ∷ xs) (suc n) h = ap (◌∷◌ x) (take_all xs n (omega arith))

pub length-resize : (n : ℕ) (xs : Bytes) → length (resize n xs) ≡ n
unfolding resize
length-resize n xs = ground (
  arith,
  length-append (take n xs) (replicate (n - length xs) 0),
  length-take n xs,
  length-replicate {A = ℕ} (n - length xs) 0,
)

get_elem?-resize :
    (n : ℕ) (xs : Bytes) (i : ℕ)
    → get_elem? (resize n xs) i
      ≡ (if ltb i n then (if ltb i (length xs) then get_elem? xs i else some 0) else none)
unfolding resize
get_elem?-resize n xs i = ground (
  arith,
  get_elem?-append (take n xs) (replicate (n - length xs) 0) i,
  get_elem?-take n xs i,
  length-take n xs,
  get_elem?-replicate (n - length xs) 0 (i - length (take n xs)),
)

-- Byte `i` of an extent after `buf` is written at `off` over `old`.
abbrev pub byte_after : Bytes → ℕ → Bytes → ℕ → Option ℕ
byte_after old off buf i =
    if ltb i off
    then (if ltb i (length old) then get_elem? old i else some 0)
    else if ltb i (off + length buf)
    then get_elem? buf (i - off)
    else get_elem? old i

-- The bytes before the write that `replace` works on.
abbrev pub grown : Bytes → ℕ → Bytes
grown old n = if ltb (length old) n then resize n old else old

grown_byte :
    (old : Bytes) (n i : ℕ)
    → get_elem? (grown old n) i
      ≡ (if ltb i (length old) then get_elem? old i else if ltb i n then some 0 else none)
grown_byte old n i = ground (arith, get_elem?-resize n old i, get_elem?-past old i)

pub length-grown : (old : Bytes) (n : ℕ) → n ≤ length (grown old n)
length-grown old n = ground (arith, length-resize n old)

spliced_byte :
    (off : ℕ) (buf content : Bytes) (i : ℕ)
    → off ≤ length content
    → get_elem? (take off content ++ (buf ++ drop (length buf) (drop off content))) i ≡ (
        if ltb i off
        then get_elem? content i
        else if ltb i (off + length buf)
        then get_elem? buf (i - off)
        else get_elem? content i)
spliced_byte off buf content i h =
    let tail = drop (length buf) (drop off content) in
    let cut : length (take off content) ≡ off = omega (arith, length-take off content) in
    elim (Bool-cases (ltb i off)) [
      | inl before ↦ ground (
        arith,
        cut,
        get_elem?-append (take off content) (buf ++ tail) i,
        get_elem?-take off content i,
      )
      | inr behind ↦
          let place : length buf ≤ i - off → off + (length buf + ((i - off) - length buf)) ≡ i =
            λ p. let q : off ≤ i = ground arith in omega arith in
          ground (
            arith,
            cut,
            get_elem?-append (take off content) (buf ++ tail) i,
            get_elem?-append buf tail (i - off),
            get_elem?-drop (length buf) (drop off content) ((i - off) - length buf),
            get_elem?-drop off content (length buf + ((i - off) - length buf)),
            place,
          )
    ]

-- What `write` leaves as the extent.
abbrev pub written : Bytes → ℕ → Bytes → Bytes
written old off buf =
    let content = grown old (off + length buf) in
    take off content ++ (take (length buf) buf ++ drop (length buf) (drop off content))

pub length-written :
    (old : Bytes) (off : ℕ) (buf : Bytes)
    → length (written old off buf) ≡ length (grown old (off + length buf))
length-written old off buf =
    let content = grown old (off + length buf) in
    let long = length-grown old (off + length buf) in
    rw (take_all buf (length buf) (omega arith)) (
      omega (
        arith,
        long,
        length-append (take off content) (buf ++ drop (length buf) (drop off content)),
        length-append buf (drop (length buf) (drop off content)),
        length-take off content,
        length-drop (length buf) (drop off content),
        length-drop off content,
      ))

pub length-grown_le :
    (old : Bytes) (n : ℕ) → n ≤ max_size → length old ≤ max_size → length (grown old n) ≤ max_size
length-grown_le old n h k = ground (arith, length-resize n old)

-- A write that ends within the size of a string grows and replaces what is there.
pub grow-replace :
    (off : ℕ) (buf old : Bytes)
    → off + length buf ≤ max_size
    → length old ≤ max_size
    → (grow ((off + length buf) % 2 ^ 64) old ≡ some (grown old (off + length buf)))
      × (replace (off % 2 ^ 32) (length buf) buf (grown old (off + length buf))
          ≡ some (written old off buf))
unfolding grow replace
grow-replace off buf old h k =
    let n = off + length buf in
    let small : n % 2 ^ 64 ≡ n = omega arith in
    let low : n % 2 ^ 32 ≡ n = omega arith in
    let place : off % 2 ^ 32 ≡ off = omega arith in
    let within = length-grown_le old n h k in
    let room : ltb (length (grown old n)) off ≡ false = ground (arith, length-grown old n) in
    let fits : ltb max_size (length (written old off buf)) ≡ false =
      ground (arith, within, length-written old off buf) in
    (rw (small, grow, low) (ground arith), rw (place, replace, room, fits) refl)

pub write-some :
    (now id off : ℕ) (buf old : Bytes) (s : ExtentServer)
    → lookup id s.fileid_content_m ≡ some old
    → off + length buf ≤ max_size
    → length old ≤ max_size
    → write now id off (length buf) buf s ≡ some (ok, put now id (written old off buf) s)
unfolding write
write-some now id off buf old s e h k =
    let (grows, replaces) = grow-replace off buf old h k in rw (e, write, grows, replaces) refl

written_byte :
    (old : Bytes) (off : ℕ) (buf : Bytes) (i : ℕ)
    → get_elem? (written old off buf) i ≡ byte_after old off buf i
written_byte old off buf i =
    let content = grown old (off + length buf) in
    let long = length-grown old (off + length buf) in
    rw (take_all buf (length buf) (omega arith)) (
      ground (
        arith,
        spliced_byte off buf content i (omega arith),
        grown_byte old (off + length buf) i,
        get_elem?-past old i,
      ))

pub lookup-put :
    (now id : ℕ) (buf : Bytes) (s : ExtentServer)
    → lookup id (put now id buf s).fileid_content_m ≡ some buf
unfolding put
lookup-put now id buf s = ground (arith, lookup-insert id id buf s.fileid_content_m)

-- A `write` of `buf` to an extent that exists, which ends within the greatest size of a string, as
-- the extent does, succeeds. It puts `buf` at the offset, keeps every byte outside, and fills a gap
-- behind the old end with zeros.
pub write_bytes :
    (now id off : ℕ) (buf old : Bytes) (s : ExtentServer)
    → lookup id s.fileid_content_m ≡ some old
    → off + length buf ≤ max_size
    → length old ≤ max_size
    → (str : Bytes) × (t : ExtentServer) × (write now id off (length buf) buf s ≡ some (ok, t))
      × (lookup id t.fileid_content_m ≡ some str)
      × ((i : ℕ) → get_elem? str i ≡ byte_after old off buf i)
write_bytes now id off buf old s e h k = (
  written old off buf,
  put now id (written old off buf) s,
  write-some now id off buf old s e h k,
  lookup-put now id (written old off buf) s,
  written_byte old off buf,
)

-- ===== src/Rpc/Marshal/Laws.antt =====
-- Reading back what was written. `Wire` is what the operators `<<` and `>>` of a type promise.
use lab.Base.{
  ℕ, ◌+◌, ◌*◌, ◌/◌, ◌%◌, ◌^◌, ◌<◌, ◌≡◌, refl, ap, ◌∙◌, true, some, [], ◌∷◌, ◌++◌, append_assoc,
  length, length-append, take-append, drop-append, arith,
}
use lab.Base.Bytes.{Bytes}
use lab.Rpc.Marshal.{
  Marshall, Unmarshall, Get, ◌>>=◌, return, put_u8, put_u16, put_u32, put_u64, put_string, get_u8,
  get_u16, get_u32, get_u64, get_string, get_bytes, get_if_ok, rawbytes,
}

-- A cursor at position `i` before the bytes `r`.
abbrev pub cursor : ℕ → Bytes → Unmarshall
cursor i r = record { ind = i; rest = r; ok = true }

pub record Wire (A : Type 0) : Type 1 where
  pub put : A → Marshall → Marshall
  pub get : Get A
  pub bytes : A → Bytes
  pub Fits : A → Type 0
  pub put_lem : (a : A) (m : Marshall) → (put a m).body ≡ m.body ++ bytes a
  pub get_lem :
      (a : A) (i : ℕ) (r : Bytes)
      → Fits a
      → i + length (bytes a ++ r) < 2 ^ 31
      → get (cursor i (bytes a ++ r)) ≡ some (a, cursor (i + length (bytes a)) r)

-- Reading goes on behind a value that was written.
pub get_then :
    {A B : Type 0} (w : Wire A) (k : A → Get B) (a : A) (i : ℕ) (r : Bytes)
    → w.Fits a
    → i + length (w.bytes a ++ r) < 2 ^ 31
    → (w.get >>= k) (cursor i (w.bytes a ++ r)) ≡ k a (cursor (i + length (w.bytes a)) r)
get_then w k a i r f h = rw (w.get_lem a i r f h, ◌>>=◌)

pub u8_put : (x : ℕ) (m : Marshall) → (put_u8 x m).body ≡ m.body ++ (x % 256) ∷ []
unfolding put_u8
u8_put x m = refl

pub u8_get :
    (x i : ℕ) (r : Bytes)
    → x < 2 ^ 8
    → i + length ((x % 256) ∷ r) < 2 ^ 31
    → get_u8 (cursor i ((x % 256) ∷ r)) ≡ some (x, cursor (i + 1) r)
unfolding get_u8
u8_get x i r f h = ground arith

abbrev pub u8 : Wire ℕ
u8 = record {
  put = put_u8;
  get = get_u8;
  bytes = λ x. (x % 256) ∷ [];
  Fits = λ x. x < 2 ^ 8;
  put_lem = u8_put;
  get_lem = u8_get;
}

abbrev pub u32_bytes : ℕ → Bytes
u32_bytes x = (x / 2 ^ 24 % 256) ∷ (x / 2 ^ 16 % 256) ∷ (x / 2 ^ 8 % 256) ∷ (x % 256) ∷ []

pub u32_put : (x : ℕ) (m : Marshall) → (put_u32 x m).body ≡ m.body ++ u32_bytes x
unfolding put_u32
u32_put x m = simp append_assoc

pub u32_get :
    (x i : ℕ) (r : Bytes)
    → x < 2 ^ 32
    → i + length (u32_bytes x ++ r) < 2 ^ 31
    → get_u32 (cursor i (u32_bytes x ++ r)) ≡ some (x, cursor (i + 4) r)
unfolding get_u32
u32_get x i r f h = ground arith

abbrev pub u32 : Wire ℕ
u32 = record {
  put = put_u32;
  get = get_u32;
  bytes = u32_bytes;
  Fits = λ x. x < 2 ^ 32;
  put_lem = u32_put;
  get_lem = u32_get;
}

abbrev pub u16_bytes : ℕ → Bytes
u16_bytes x = (x / 2 ^ 8 % 256) ∷ (x % 256) ∷ []

pub u16_put : (x : ℕ) (m : Marshall) → (put_u16 x m).body ≡ m.body ++ u16_bytes x
unfolding put_u16
u16_put x m = simp append_assoc

pub u16_get :
    (x i : ℕ) (r : Bytes)
    → x < 2 ^ 16
    → i + length (u16_bytes x ++ r) < 2 ^ 31
    → get_u16 (cursor i (u16_bytes x ++ r)) ≡ some (x, cursor (i + 2) r)
unfolding get_u16
u16_get x i r f h = ground arith

abbrev pub u16 : Wire ℕ
u16 = record {
  put = put_u16;
  get = get_u16;
  bytes = u16_bytes;
  Fits = λ x. x < 2 ^ 16;
  put_lem = u16_put;
  get_lem = u16_get;
}

-- Where reading `x` and then `y` ends, for a message that is a pair of parts.
pub get_two :
    {A B C : Type 0} (v : Wire A) (w : Wire B) (f : A → B → C) (a : A) (b : B) (i : ℕ) (r : Bytes)
    → v.Fits a
    → w.Fits b
    → i + length ((v.bytes a ++ w.bytes b) ++ r) < 2 ^ 31
    → (v.get >>= λ x. w.get >>= λ y. return (f x y)) (cursor i ((v.bytes a ++ w.bytes b) ++ r))
      ≡ some (f a b, cursor (i + length (v.bytes a ++ w.bytes b)) r)
get_two v w f a b i r p q h =
    let total = length-append (v.bytes a ++ w.bytes b) r in
    let first = length-append (v.bytes a) (w.bytes b) in
    let second = length-append (v.bytes a) (w.bytes b ++ r) in
    let third = length-append (w.bytes b) r in
    rw (append_assoc (v.bytes a) (w.bytes b) r) (
      get_then v _ a i (w.bytes b ++ r) p (omega (arith, total, first, second, third))
      ∙ get_then w _ b (i + length (v.bytes a)) r q (omega (arith, total, first, second, third))
      ∙ ap (λ j. some (f a b, cursor j r)) (omega (arith, first)))

abbrev pub u64_bytes : ℕ → Bytes
u64_bytes x = u32_bytes (x / 2 ^ 32 % 2 ^ 32) ++ u32_bytes (x % 2 ^ 32)

pub u64_put : (x : ℕ) (m : Marshall) → (put_u64 x m).body ≡ m.body ++ u64_bytes x
unfolding put_u64
u64_put x m =
    u32_put (x % 2 ^ 32) (put_u32 (x / 2 ^ 32 % 2 ^ 32) m)
    ∙ rw (u32_put (x / 2 ^ 32 % 2 ^ 32) m) (append_assoc m.body _ _)

pub u64_get :
    (x i : ℕ) (r : Bytes)
    → x < 2 ^ 64
    → i + length (u64_bytes x ++ r) < 2 ^ 31
    → get_u64 (cursor i (u64_bytes x ++ r)) ≡ some (x, cursor (i + 8) r)
unfolding get_u64
u64_get x i r f h =
    get_two u32 u32 (λ a b. b + a * 2 ^ 32) (x / 2 ^ 32 % 2 ^ 32) (x % 2 ^ 32) i r (omega arith)
      (omega arith) h
    ∙ ap (λ y. some (y, cursor (i + 8) r)) (omega arith)

abbrev pub u64 : Wire ℕ
u64 = record {
  put = put_u64;
  get = get_u64;
  bytes = u64_bytes;
  Fits = λ x. x < 2 ^ 64;
  put_lem = u64_put;
  get_lem = u64_get;
}

abbrev pub string_bytes : Bytes → Bytes
string_bytes s = u32_bytes (length s % 2 ^ 32) ++ s

pub string_put : (s : Bytes) (m : Marshall) → (put_string s m).body ≡ m.body ++ string_bytes s
unfolding put_string rawbytes
string_put s m =
    rw (u32_put (length s % 2 ^ 32) m) (append_assoc m.body (u32_bytes (length s % 2 ^ 32)) s)

get_bytes_lem :
    (s : Bytes) (i : ℕ) (r : Bytes)
    → i + length (s ++ r) < 2 ^ 31
    → get_bytes (length s) (cursor i (s ++ r)) ≡ some (s, cursor (i + length s) r)
unfolding get_bytes
get_bytes_lem s i r h = ground (arith, length-append s r, take-append s r, drop-append s r)

pub string_get :
    (s : Bytes) (i : ℕ) (r : Bytes)
    → length s < 2 ^ 32
    → i + length (string_bytes s ++ r) < 2 ^ 31
    → get_string (cursor i (string_bytes s ++ r)) ≡ some (s, cursor (i + length (string_bytes s)) r)
unfolding get_string
string_get s i r f h =
    let n = length s % 2 ^ 32 in
    let e : n ≡ length s = omega arith in
    let content : get_if_ok n (cursor (i + 4) (s ++ r)) ≡ some (s, cursor (i + 4 + length s) r) =
      rw e (get_bytes_lem s (i + 4) r (omega arith)) in
    get_then u32 _ n i (s ++ r) (omega arith) (omega arith)
    ∙ content
    ∙ ap (λ j. some (s, cursor j r)) (omega arith)

abbrev pub string : Wire Bytes
string = record {
  put = put_string;
  get = get_string;
  bytes = string_bytes;
  Fits = λ s. length s < 2 ^ 32;
  put_lem = string_put;
  get_lem = string_get;
}

-- A part of a message, and what follows it in the same message.
pub get_part :
    {A C : Type 0} (w : Wire A) (k : A → Get C) (a : A) (c : C) (i : ℕ) (tail r : Bytes)
    → w.Fits a
    → (i + length (w.bytes a) + length (tail ++ r) < 2 ^ 31
        → k a (cursor (i + length (w.bytes a)) (tail ++ r))
          ≡ some (c, cursor (i + length (w.bytes a) + length tail) r))
    → i + length ((w.bytes a ++ tail) ++ r) < 2 ^ 31
    → (w.get >>= k) (cursor i ((w.bytes a ++ tail) ++ r))
      ≡ some (c, cursor (i + length (w.bytes a ++ tail)) r)
get_part w k a c i tail r f next h =
    let split = append_assoc (w.bytes a) tail r in
    let size = length-append (w.bytes a) (tail ++ r) in
    let here = length-append (w.bytes a) tail in
    rw split (
      get_then w k a i (tail ++ r) f (omega (arith, ap length split))
      ∙ next (omega (arith, size, ap length split))
      ∙ ap (λ j. some (c, cursor j r)) (omega (arith, here)))

pub get_last :
    {A C : Type 0} (w : Wire A) (g : A → C) (a : A) (i : ℕ) (r : Bytes)
    → w.Fits a
    → i + length (w.bytes a ++ r) < 2 ^ 31
    → (w.get >>= λ x. return (g x)) (cursor i (w.bytes a ++ r))
      ≡ some (g a, cursor (i + length (w.bytes a)) r)
get_last w g a i r f h = get_then w (λ x. return (g x)) a i r f h

-- ===== src/Rpc/Marshal.antt =====
-- Marshalling (rpc/marshall.h and the operators of rpc/rpc.cc): the buffer of an outgoing message,
-- the cursor over an incoming one, and the operators `<<` and `>>` on numbers and strings.
-- Signed and unsigned types share their bit patterns, which the numbers here stand for.
pub mod Laws
pub mod Bounds
pub mod Containers
pub mod Header
pub mod RoundTrip
mod Tests
use lab.Base.{
  ℕ, zero, suc, ◌+◌, ◌*◌, ◌/◌, ◌%◌, ◌^◌, Bool, true, false, ◌&&◌, Option, none, some, List, [], ◌∷◌,
  ◌++◌, length, take, drop, ltb, leb, ◌==◌, if◌then◌else◌, nat_key,
}
use lab.Base.Bytes.{Bytes}

-- `RPC_HEADER_SZ` with checksums off, as the sources are built: the 20 bytes of a `req_header`,
-- and the 4 bytes of the size that the channel fills in.
abbrev pub rpc_header_sz : ℕ
rpc_header_sz = 24

-- `marshall`: what is written behind the header, and the allocated size `_capa`. The sizes and
-- positions are `int`: `valid` says that no sum of them has left the type so far. Behind an overflow
-- the source has no defined behaviour, and nothing is meant by the other fields.
pub record Marshall : Type 0 where
  pub body : Bytes
  pub capa : ℕ
  pub valid : Bool

-- A number that is not negative, as an `int`.
abbrev pub is_int : ℕ → Bool
is_int n = ltb n (2 ^ 31)

-- `_ind`.
abbrev pub ind : Marshall → ℕ
ind m = rpc_header_sz + length m.body

-- The constructor, with `DEFAULT_RPC_SZ`.
abbrev pub fresh : Marshall
fresh = record { body = []; capa = 1024; valid = true }

unfoldable pub rawbyte : ℕ → Marshall → Marshall
rawbyte x m =
    let capa = (if leb m.capa (ind m) then m.capa * 2 else m.capa) in
    record {
      body = m.body ++ x ∷ [];
      capa = capa;
      valid = m.valid && is_int capa && is_int (ind m + 1);
    }

unfoldable pub rawbytes : Bytes → Marshall → Marshall
rawbytes p m =
    let n = length p in
    let capa =
      if ltb m.capa (ind m + n)
      then (if ltb n m.capa then 2 * m.capa else m.capa + n)
      else m.capa in
    record {
      body = m.body ++ p;
      capa = capa;
      valid = m.valid && is_int n && is_int capa && is_int (ind m + n);
    }

unfoldable pub put_u8 : ℕ → Marshall → Marshall
unfolding rawbyte
put_u8 x m = rawbyte (x % 256) m

unfoldable pub put_u16 : ℕ → Marshall → Marshall
unfolding rawbyte
put_u16 x m = rawbyte (x % 256) (rawbyte (x / 2 ^ 8 % 256) m)

-- Big-endian; also `pack`.
unfoldable pub put_u32 : ℕ → Marshall → Marshall
unfolding rawbyte
put_u32 x m =
    rawbyte (x % 256)
      (rawbyte (x / 2 ^ 8 % 256) (rawbyte (x / 2 ^ 16 % 256) (rawbyte (x / 2 ^ 24 % 256) m)))

unfoldable pub put_u64 : ℕ → Marshall → Marshall
put_u64 x m = put_u32 (x % 2 ^ 32) (put_u32 (x / 2 ^ 32 % 2 ^ 32) m)

unfoldable pub put_string : Bytes → Marshall → Marshall
put_string s m = rawbytes s (put_u32 (length s % 2 ^ 32) m)

-- `unmarshall`: `_ind`, the bytes from there to `_sz`, and `_ok`. The two positions are `int`: of a
-- buffer of 2 GB or more, whose `_sz` is negative, no byte is before `_sz`, and `rest` is empty.
pub record Unmarshall : Type 0 where
  pub ind : ℕ
  pub rest : Bytes
  pub ok : Bool

-- `_sz`.
abbrev pub sz : Unmarshall → ℕ
sz u = u.ind + length u.rest

-- The bytes of a buffer that are before `_sz`.
unfoldable pub readable : Bytes → Bytes
readable buf = if is_int (length buf) then buf else []

-- The constructor on a string, which is what follows a header.
unfoldable pub take_content : Bytes → Unmarshall
take_content s = record {
  ind = rpc_header_sz;
  rest = (if is_int (length s + rpc_header_sz) then s else []);
  ok = true;
}

-- `none` stands for a read outside the buffer.
abbrev pub Get : Type 0 → Type 0
Get A = Unmarshall → Option (A × Unmarshall)

infixl 5 ◌>>=◌
abbrev pub ◌>>=◌ : {A B : Type 0} → Get A → (A → Get B) → Get B
◌>>=◌ m f u = elim (m u) [ none ↦ none | some (a, u') ↦ f a u' ]

abbrev pub return : {A : Type 0} → A → Get A
return a u = some (a, u)

-- `unmarshall::rawbyte`: past the end the value is 0.
unfoldable pub get_byte : Get ℕ
get_byte u = elim u.rest [
  | [] ↦ some (0, record u { ok = false })
  | c ∷ cs ↦ some (c, record u { ind = u.ind + 1; rest = cs })
]

unfoldable pub get_u8 : Get ℕ
unfolding get_byte
get_u8 = do c ← get_byte; return (c % 256)

unfoldable pub get_u16 : Get ℕ
unfolding get_byte
get_u16 = do a ← get_byte; b ← get_byte; return (a % 256 * 2 ^ 8 + b % 256)

-- The bytes do not overlap, so `|` adds them; also `unpack`.
unfoldable pub get_u32 : Get ℕ
unfolding get_byte
get_u32 = do
  a ← get_byte
  b ← get_byte
  c ← get_byte
  d ← get_byte
  return (a % 256 * 2 ^ 24 + b % 256 * 2 ^ 16 + c % 256 * 2 ^ 8 + d % 256)

unfoldable pub get_u64 : Get ℕ
get_u64 = do h ← get_u32; l ← get_u32; return (l + h * 2 ^ 32)

-- `unmarshall::rawbytes`: the test is made on `unsigned int`, where `_ind + n` may wrap. A test
-- that passes with too few bytes left makes `std::string` read on behind the buffer.
unfoldable pub get_bytes : ℕ → Get Bytes
get_bytes n u =
    if ltb (sz u) ((u.ind + n) % 2 ^ 32)
    then some ([], record u { ok = false })
    else if ltb (length u.rest) n
    then none
    else some (take n u.rest, record u { ind = u.ind + n; rest = drop n u.rest })

get_if_ok : ℕ → Get Bytes
unfolding get_bytes
get_if_ok n u = if u.ok then get_bytes n u else some ([], u)

-- Into a fresh string, which stays empty where the size cannot be read.
unfoldable pub get_string : Get Bytes
unfolding get_if_ok
get_string = do n ← get_u32; get_if_ok n

unfoldable pub okdone : Unmarshall → Bool
okdone u = u.ok && u.ind == sz u

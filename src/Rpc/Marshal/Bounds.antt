-- ===== src/Rpc/Marshal/Bounds.antt =====
-- The buffers: writes stay inside the allocation; where a read can leave the message.
use lab.Base.{
  ℕ, ◌+◌, ◌*◌, ◌-◌, ◌%◌, true, ◌/◌, ◌^◌, ◌≤◌, ◌<◌, ◌≡◌, ◌↔◌, none, [], ◌∷◌, length, length-append,
  arith,
}
use lab.Base.Bytes.{Bytes}
use lab.Rpc.Marshal.{
  Marshall, Unmarshall, sz, ind, rawbyte, rawbytes, put_u32, put_string, get_bytes,
}

-- The write position stays within the allocated bytes, which are at most twice as many and 1024,
-- and no `int` has overflowed.
abbrev pub IsAllocated : Marshall → Type 0
IsAllocated m = (ind m ≤ m.capa) × (0 < m.capa) × (m.capa ≤ 2 * ind m + 1024) × (m.valid ≡ true)

-- The sizes for which twice the position is an `int`.
abbrev pub max_body : ℕ
max_body = 2 ^ 30 - 1024

pub rawbyte-IsAllocated :
    (x : ℕ) (m : Marshall) → ind m + 1 < max_body → IsAllocated m → IsAllocated (rawbyte x m)
unfolding rawbyte
rawbyte-IsAllocated x m small h = ground (arith, length-append m.body (x ∷ []))

pub rawbytes-IsAllocated :
    (p : Bytes) (m : Marshall)
    → ind m + length p < max_body
    → IsAllocated m
    → IsAllocated (rawbytes p m)
unfolding rawbytes
rawbytes-IsAllocated p m small h = ground (arith, length-append m.body p)

ind-rawbyte : (x : ℕ) (m : Marshall) → ind (rawbyte x m) ≡ ind m + 1
unfolding rawbyte
ind-rawbyte x m = omega (arith, length-append m.body (x ∷ []))

ind-put_u32 : (x : ℕ) (m : Marshall) → ind (put_u32 x m) ≡ ind m + 4
unfolding put_u32
ind-put_u32 x m =
    let a = rawbyte (x / 2 ^ 24 % 256) m in
    let b = rawbyte (x / 2 ^ 16 % 256) a in
    let c = rawbyte (x / 2 ^ 8 % 256) b in
    omega (
      arith,
      ind-rawbyte (x / 2 ^ 24 % 256) m,
      ind-rawbyte (x / 2 ^ 16 % 256) a,
      ind-rawbyte (x / 2 ^ 8 % 256) b,
      ind-rawbyte (x % 256) c,
    )

pub put_u32-IsAllocated :
    (x : ℕ) (m : Marshall) → ind m + 4 < max_body → IsAllocated m → IsAllocated (put_u32 x m)
unfolding put_u32
put_u32-IsAllocated x m small h =
    let a = rawbyte (x / 2 ^ 24 % 256) m in
    let b = rawbyte (x / 2 ^ 16 % 256) a in
    let c = rawbyte (x / 2 ^ 8 % 256) b in
    let p = ind-rawbyte (x / 2 ^ 24 % 256) m in
    let q = ind-rawbyte (x / 2 ^ 16 % 256) a in
    let r = ind-rawbyte (x / 2 ^ 8 % 256) b in
    rawbyte-IsAllocated _ c (omega (arith, small, p, q, r)) (
      rawbyte-IsAllocated _ b (omega (arith, small, p, q)) (
        rawbyte-IsAllocated _ a (omega (arith, small, p))
          (rawbyte-IsAllocated _ m (omega (arith, small)) h)))

-- Appending a string to a message leaves one whose content fits its allocation, and no `int` of
-- the sizes and positions overflows on the way, where this holds of the message, the allocation is
-- not empty and at most 1024 bytes more than twice the content, and the content stays more than
-- 1024 bytes below 1 GB.
pub put_string-IsAllocated :
    (s : Bytes) (m : Marshall)
    → ind m + 4 + length s < max_body
    → IsAllocated m
    → IsAllocated (put_string s m)
unfolding put_string
put_string-IsAllocated s m small h =
    let x = length s % 2 ^ 32 in
    rawbytes-IsAllocated s (put_u32 x m) (omega (arith, small, ind-put_u32 x m))
      (put_u32-IsAllocated x m (omega (arith, small)) h)

-- In a message below 2 GB, `get_bytes n` with a 32-bit `n` reads outside the buffer exactly when
-- the sum in its test wraps around.
pub get_bytes_fault :
    (n : ℕ) (u : Unmarshall)
    → sz u < 2 ^ 31
    → n < 2 ^ 32
    → (get_bytes n u ≡ none) ↔ (2 ^ 32 ≤ u.ind + n)
unfolding get_bytes
get_bytes_fault n u h k = (λ e. ground arith, λ e. ground arith)

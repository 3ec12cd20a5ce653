-- ===== src/Protocol/Extent.antt =====
-- The attributes of an extent (extent_protocol.h).
use lab.Base.{ℕ, ◌+◌, ◌^◌, ◌<◌, ◌≡◌, ◌++◌, append_assoc, length, some}
use lab.Base.Bytes.{Bytes}
use lab.Rpc.Marshal.{Marshall, Get, ◌>>=◌, return, put_u32, get_u32}
use lab.Rpc.Marshal.Laws.{Wire, cursor, u32, get_part, get_last, u32_put}

-- `attr`: times in seconds, and the size.
pub record Attr : Type 0 where
  pub atime : ℕ
  pub mtime : ℕ
  pub ctime : ℕ
  pub size : ℕ

unfoldable pub put_attr : Attr → Marshall → Marshall
put_attr a m = put_u32 a.size (put_u32 a.ctime (put_u32 a.mtime (put_u32 a.atime m)))

unfoldable pub get_attr : Get Attr
get_attr = do
  atime ← get_u32
  mtime ← get_u32
  ctime ← get_u32
  size ← get_u32
  return (record { atime = atime; mtime = mtime; ctime = ctime; size = size })

abbrev pub AttrFits : Attr → Type 0
AttrFits a = (a.atime < 2 ^ 32) × (a.mtime < 2 ^ 32) × (a.ctime < 2 ^ 32) × (a.size < 2 ^ 32)

abbrev attr_bytes : Attr → Bytes
attr_bytes a = u32.bytes a.atime ++ (u32.bytes a.mtime ++ (u32.bytes a.ctime ++ u32.bytes a.size))

pub put_attr_lem : (a : Attr) (m : Marshall) → (put_attr a m).body ≡ m.body ++ attr_bytes a
unfolding put_attr
put_attr_lem a m = simp (u32_put, append_assoc)

pub get_attr_lem :
    (a : Attr) (i : ℕ) (r : Bytes)
    → AttrFits a
    → i + length (attr_bytes a ++ r) < 2 ^ 31
    → get_attr (cursor i (attr_bytes a ++ r)) ≡ some (a, cursor (i + length (attr_bytes a)) r)
unfolding get_attr
get_attr_lem a i r f =
    get_part u32 _ a.atime a i (u32.bytes a.mtime ++ (u32.bytes a.ctime ++ u32.bytes a.size)) r f.0
      (get_part u32 _ a.mtime a (i + 4) (u32.bytes a.ctime ++ u32.bytes a.size) r f.1 (
        get_part u32 _ a.ctime a ((i + 4) + 4) (u32.bytes a.size) r f.2
          (get_last u32 _ a.size (((i + 4) + 4) + 4) r f.3)))

abbrev pub attr : Wire Attr
attr = record {
  put = put_attr;
  get = get_attr;
  bytes = attr_bytes;
  Fits = AttrFits;
  put_lem = put_attr_lem;
  get_lem = get_attr_lem;
}

-- ===== src/Extent/Client.antt =====
-- The cache of extents at a client (extent_client.h, extent_client.cc). Its calls reach the
-- extent server `s` and run there; `now` is the clock of both. `none` is a failed assertion of
-- the client, or an exception of `std::string` at one of them. Offsets are not negative.
pub mod Flush
mod Tests
use lab.Base.{
  ℕ, ◌+◌, ◌%◌, ◌^◌, Bool, true, false, ◌&&◌, not, Option, none, some, List, [], ◌∷◌, ◌==◌,
  if◌then◌else◌, nat_key, ltb, length,
}
use lab.Base.Bytes.{Bytes, str_key}
use lab.Base.Map.{Map, lookup, insert, erase, has, at, touch}
use lab.Protocol.Extent.{Attr}
use lab.Extent.Server
use lab.Extent.Server.{
  ExtentServer, Status, ok, noent, ioerr, no_attr, stamp, substr, resize, grow, replace,
}

-- `c_status`.
pub data CStatus : Type 0 where
  cached : CStatus
  modified : CStatus
  removed : CStatus

pub record ExtentClient : Type 0 where
  pub cache_content : Map ℕ Bytes
  pub cache_attr : Map ℕ Attr
  pub cache_mode : Map ℕ ℕ
  pub cache_status : Map ℕ CStatus

abbrev pub no_cache : ExtentClient
no_cache = record { cache_content = []; cache_attr = []; cache_mode = []; cache_status = [] }

unfoldable pub get_attr : ℕ → Attr → ExtentClient → ExtentServer → Status × Attr × ExtentClient
get_attr id attr c s =
    let (ret, a) = Server.getattr id attr s in
    if not (has id c.cache_status)
    then (ret, a, c)
    else (ok, at id no_attr c.cache_attr, record c { cache_attr = touch id no_attr c.cache_attr })

-- With an entry in the cache, `mode` is written to it.
unfoldable pub get_mode : ℕ → ℕ → ExtentClient → ExtentServer → Status × ℕ × ExtentClient
get_mode id mode c s =
    let (ret, m) = Server.get_mode id mode s in
    if not (has id c.cache_status)
    then (ret, m, c)
    else (ok, mode, record c { cache_mode = insert id mode c.cache_mode })

abbrev pub fill : ℕ → Bytes → Attr → ℕ → ExtentClient → ExtentClient
fill id content attr mode c = record {
  cache_content = insert id content c.cache_content;
  cache_attr = insert id attr c.cache_attr;
  cache_mode = insert id mode c.cache_mode;
  cache_status = insert id cached c.cache_status;
}

abbrev pub is_ok : Status → Bool
is_ok ok = true
is_ok noent = false
is_ok ioerr = false

-- The part of `read` that gets an extent that is not in the cache. `attr` and `mode` are what
-- the local variables hold at first.
unfoldable pub load :
    ℕ → ℕ → Attr → ℕ → ExtentClient → ExtentServer → Option (ExtentClient × ExtentServer)
load now id attr mode c s =
    let (r, a) = Server.getattr id attr s in
    elim (Server.get now id 0 a.size [] s) [
      | none ↦ none
      | some (q, buf, t) ↦
          let (u, b) = Server.getattr id a t in
          let (v, m) = Server.get_mode id mode t in
          if (is_ok r && is_ok q) && (is_ok u && is_ok v) then some (fill id buf b m c, t) else none
    ]

-- What `read` hands out of the cache.
unfoldable pub cached_part : ℕ → ℕ → ℕ → ExtentClient → Option Bytes
cached_part id off size c = substr off size (at id [] c.cache_content)

abbrev pub set_atime : ℕ → ℕ → ExtentClient → ExtentClient
set_atime now id c =
    let old = at id no_attr c.cache_attr in
    record c { cache_attr = insert id (record old { atime = now % 2 ^ 32 }) c.cache_attr }

unfoldable pub read :
    ℕ
    → ℕ
    → ℕ
    → ℕ
    → Bytes
    → Attr
    → ℕ
    → ExtentClient
    → ExtentServer
    → Option (Status × Bytes × ExtentClient × ExtentServer)
read now id off size buf attr mode c s = elim (lookup id c.cache_status) [
  | none ↦ elim (load now id attr mode c s) [
    | none ↦ none
    | some (c', s') ↦ elim (cached_part id off size c') [
      | none ↦ none
      | some part ↦ some (ok, part, c', s')
    ]
  ]
  | some removed ↦ some (noent, buf, c, s)
  | some st ↦ elim (cached_part id off size c) [
    | none ↦ none
    | some part ↦
        some
          (ok, part, record (set_atime now id c) { cache_content = touch id [] c.cache_content }, s)
  ]
]

-- Only an entry with the id of the directory is marked.
unfoldable pub remove :
    ℕ → ℕ → Bytes → ExtentClient → ExtentServer → Status × ExtentClient × ExtentServer
remove now id name c s =
    let (ret, s') = Server.remove now id name s in
    (
      ret,
      if has id c.cache_status
          then record c { cache_status = insert id removed c.cache_status }
          else c,
      s',
    )

-- `num` is what the server reads from /dev/urandom, `_id` and `attr` what the local variables
-- hold at first.
unfoldable pub create_file :
    ℕ
    → ℕ
    → ℕ
    → Bytes
    → ℕ
    → ℕ
    → Attr
    → ExtentClient
    → ExtentServer
    → Option (Status × ExtentClient × ExtentServer)
create_file now num parent name mode _id attr c s =
    let (ret, id, s') = Server.create_file now num parent name mode _id s in
    let (r, a, c') = get_attr id attr c s' in
    if is_ok ret && is_ok r then some (ok, fill id [] a mode c', s') else none

unfoldable pub set_mode :
    ℕ → ℕ → ℕ → ExtentClient → ExtentServer → Status × ExtentClient × ExtentServer
set_mode now id mode c s =
    let old = at id no_attr c.cache_attr in
    if not (has id c.cache_status) then (ok, c, Server.set_mode now id mode s) else (
      ok,
      record c {
        cache_mode = insert id mode c.cache_mode;
        cache_attr = insert id (record old { ctime = now % 2 ^ 32 }) c.cache_attr;
        cache_status = insert id modified c.cache_status;
      },
      s,
    )

unfoldable pub set_attr :
    ℕ → ℕ → Attr → ExtentClient → ExtentServer → Status × ExtentClient × ExtentServer
set_attr now id attr c s =
    let (ret, s') = Server.set_attr now id attr s in
    if not (has id c.cache_status) then (ret, c, s') else (
      ok,
      record c {
        cache_attr = insert id attr c.cache_attr;
        cache_status = insert id modified c.cache_status;
      },
      s,
    )

-- The calls of `flush` for an entry that is MODIFIED.
unfoldable pub write_back : ℕ → ℕ → Bytes → Attr → ℕ → ExtentServer → Option ExtentServer
write_back now id content attr mode s = elim (Server.write now id 0 attr.size content s) [
  | none ↦ none
  | some (ret, t) ↦
      let (r, u) = Server.set_attr now id attr t in
      if is_ok ret && is_ok r then some (Server.set_mode now id mode u) else none
]

abbrev pub drop_entry : ℕ → ExtentClient → ExtentClient
drop_entry id c = record {
  cache_content = erase id c.cache_content;
  cache_attr = erase id c.cache_attr;
  cache_mode = erase id c.cache_mode;
  cache_status = erase id c.cache_status;
}

unfoldable pub flush : ℕ → ℕ → ExtentClient → ExtentServer → Option (ExtentClient × ExtentServer)
flush now id c s = elim (lookup id c.cache_status) [
  | none ↦ some (c, s)
  | some modified ↦
      elim (write_back now id (at id [] c.cache_content) (at id no_attr c.cache_attr)
        (at id 0 c.cache_mode) s) [ none ↦ none | some t ↦ some (drop_entry id c, t) ]
  | some st ↦ some (drop_entry id c, s)
]

-- The entry after a write to it.
unfoldable pub put : ℕ → ℕ → Bytes → ExtentClient → ExtentClient
put now id content c = record c {
  cache_content = insert id content c.cache_content;
  cache_attr = insert id (stamp now (length content)) c.cache_attr;
  cache_status = insert id modified c.cache_status;
}

unfoldable pub write_cached : ℕ → ℕ → ℕ → Bytes → ExtentClient → Option ExtentClient
write_cached now id off buf c =
    let old = at id [] c.cache_content in
    elim (grow ((off + length buf) % 2 ^ 64) old) [
      | none ↦ none
      | some content ↦ elim (replace (off % 2 ^ 32) (length buf) buf content) [
        | none ↦ none
        | some str ↦ some (put now id str c)
      ]
    ]

-- `buf` are the `size` bytes that are written.
unfoldable pub write :
    ℕ → ℕ → ℕ → Bytes → ExtentClient → ExtentServer → Option (Status × ExtentClient × ExtentServer)
write now id off buf c s = elim (lookup id c.cache_status) [
  | none ↦ elim (Server.write now id off (length buf % 2 ^ 32) buf s) [
    | none ↦ none
    | some (ret, t) ↦ some (ret, c, t)
  ]
  | some removed ↦ some (noent, c, s)
  | some st ↦ elim (write_cached now id off buf c) [ none ↦ none | some c' ↦ some (ok, c', s) ]
]

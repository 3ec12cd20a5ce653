-- ===== src/Extent/Server.antt =====
-- The extent server (extent_server.h, extent_server.cc). `now` is the clock during the call, and
-- `num` what createFile and createDir read from /dev/urandom. `operator[]` on a missing key leaves
-- an entry behind, which `touch` writes out. `none` is an exception of `std::string`.
pub mod Content
pub mod Names
pub mod Linked
pub mod Runs
mod Tests
use lab.Base.{
  ◌||◌, ℕ, ◌+◌, ◌-◌, ◌/◌, ◌%◌, ◌^◌, Bool, true, false, not, Option, none, some, List, [], ◌∷◌, ◌++◌,
  ◌==◌, if◌then◌else◌, nat_key, ltb, length, take, drop, replicate,
}
use lab.Base.Bytes.{Bytes, str_key}
use lab.Base.Map.{Map, lookup, insert, erase, has, at, touch}
use lab.Protocol.Extent.{Attr}

-- `extent_protocol::xxstatus`, the values that the server returns.
pub data Status : Type 0 where
  ok : Status
  noent : Status
  ioerr : Status

pub record ExtentServer : Type 0 where
  pub fileid_open_m : Map ℕ ℕ
  pub fileid_content_m : Map ℕ Bytes
  pub fileid_name_m : Map ℕ Bytes
  pub fileid_dir_m : Map ℕ ℕ
  pub fileid_attr_m : Map ℕ Attr
  pub dirid_fmap_m : Map ℕ (Map Bytes ℕ)
  pub fileid_mode_m : Map ℕ ℕ

abbrev pub no_attr : Attr
no_attr = record { atime = 0; mtime = 0; ctime = 0; size = 0 }

abbrev pub stamp : ℕ → ℕ → Attr
stamp now size = record {
  atime = now % 2 ^ 32;
  mtime = now % 2 ^ 32;
  ctime = now % 2 ^ 32;
  size = size % 2 ^ 32;
}

unfoldable pub init : ℕ → ExtentServer
init now = record {
  fileid_open_m = [];
  fileid_content_m = [];
  fileid_name_m = (1, 47 ∷ []) ∷ [];
  fileid_dir_m = [];
  fileid_attr_m = (1, stamp now 0) ∷ [];
  dirid_fmap_m = (1, []) ∷ [];
  fileid_mode_m = [];
}

unfoldable pub put : ℕ → ℕ → Bytes → ExtentServer → ExtentServer
put now id buf s = record s {
  fileid_content_m = insert id buf s.fileid_content_m;
  fileid_attr_m = insert id (stamp now (length buf)) s.fileid_attr_m;
}

unfoldable pub copy_entries : Map Bytes ℕ → Map Bytes ℕ → Map Bytes ℕ
copy_entries [] entries = entries
copy_entries ((name, id) ∷ fmap) entries = copy_entries fmap (insert name id entries)

unfoldable pub readdir : ℕ → Map Bytes ℕ → ExtentServer → Status × Map Bytes ℕ × ExtentServer
readdir dirid entries s = if not (has dirid s.fileid_name_m) then (noent, entries, s) else (
  ok,
  copy_entries (at dirid [] s.dirid_fmap_m) entries,
  record s { dirid_fmap_m = touch dirid [] s.dirid_fmap_m },
)

-- `std::string::substr`.
unfoldable pub substr : ℕ → ℕ → Bytes → Option Bytes
substr off size str = if ltb (length str) off then none else some (take size (drop off str))

unfoldable pub set_atime : ℕ → ℕ → ExtentServer → ExtentServer
set_atime now id s =
    let old = at id no_attr s.fileid_attr_m in
    record s { fileid_attr_m = insert id (record old { atime = now % 2 ^ 32 }) s.fileid_attr_m }

unfoldable pub get : ℕ → ℕ → ℕ → ℕ → Bytes → ExtentServer → Option (Status × Bytes × ExtentServer)
get now id off size buf s = elim (lookup id s.fileid_content_m) [
  | none ↦ some (noent, buf, s)
  | some content ↦ elim (substr off size content) [
    | none ↦ none
    | some part ↦ some (ok, part, set_atime now id s)
  ]
]

unfoldable pub getattr : ℕ → Attr → ExtentServer → Status × Attr
getattr id a s = elim (lookup id s.fileid_attr_m) [ none ↦ (ioerr, a) | some attr ↦ (ok, attr) ]

-- `id & 0x80000000`.
unfoldable pub isfile : ℕ → Bool
isfile id = (id / 2 ^ 31) % 2 == 1

unfoldable pub isdir : ℕ → Bool
isdir id = not (isfile id)

-- The part of `remove` after its tests: `id` is forgotten, and `pid` gets the time.
unfoldable pub forget : ℕ → ℕ → ℕ → ExtentServer → ExtentServer
forget now pid id s =
    let parent = at id 0 s.fileid_dir_m in
    let name = at id [] s.fileid_name_m in
    let attrs = erase id s.fileid_attr_m in
    let old = at pid no_attr attrs in
    record s {
      fileid_content_m = (if isdir id then s.fileid_content_m else erase id s.fileid_content_m);
      fileid_attr_m =
          insert pid
            (record old { ctime = now % 2 ^ 32; atime = now % 2 ^ 32; mtime = now % 2 ^ 32 }) attrs;
      dirid_fmap_m = insert parent (erase name (at parent [] s.dirid_fmap_m)) s.dirid_fmap_m;
      fileid_name_m = erase id s.fileid_name_m;
      fileid_dir_m = erase id s.fileid_dir_m;
      fileid_open_m = erase id s.fileid_open_m;
      fileid_mode_m = erase id s.fileid_mode_m;
    }

unfoldable pub remove : ℕ → ℕ → Bytes → ExtentServer → Status × ExtentServer
remove now pid name s = elim (lookup pid s.dirid_fmap_m) [
  | none ↦ (noent, s)
  | some fmap ↦ elim (lookup name fmap) [
    | none ↦ (noent, s)
    | some id ↦
        if isdir id
        then (let s' = record s { dirid_fmap_m = touch id [] s.dirid_fmap_m } in
            if not (length (at id [] s.dirid_fmap_m) == 0)
            then (ioerr, s')
            else (ok, forget now pid id s'))
        else (ok, forget now pid id s)
  ]
]

-- `(num & 0xFFFFFFFF) | 0x80000000`.
abbrev pub file_id : ℕ → ℕ
file_id num = num % 2 ^ 31 + 2 ^ 31

-- `num & 0x7FFFFFF`.
abbrev pub dir_id : ℕ → ℕ
dir_id num = num % 2 ^ 27

unfoldable pub enter : ℕ → ℕ → Bytes → ExtentServer → ExtentServer
enter id parent name s = record s {
  dirid_fmap_m = insert parent (insert name id (at parent [] s.dirid_fmap_m)) s.dirid_fmap_m;
  fileid_dir_m = insert id parent s.fileid_dir_m;
  fileid_name_m = insert id name s.fileid_name_m;
}

-- `_id` is what the caller hands in, which stays as it is on an error.
unfoldable pub create_file : ℕ → ℕ → ℕ → Bytes → ℕ → ℕ → ExtentServer → Status × ℕ × ExtentServer
create_file now num parent name mode _id s =
    let id = file_id num in
    let s' = put now id [] s in
    let own = at id no_attr s'.fileid_attr_m in
    let theirs = at parent no_attr s'.fileid_attr_m in
    let s'' = enter id parent name s' in
    if not (has parent s'.fileid_name_m) then (noent, _id, s') else (
      ok,
      id,
      record s'' {
        fileid_open_m = insert id 0 s.fileid_open_m;
        fileid_mode_m = insert id mode s.fileid_mode_m;
        fileid_attr_m =
            insert parent
              (record theirs { ctime = own.ctime; atime = own.atime; mtime = own.mtime })
              s'.fileid_attr_m;
      },
    )

unfoldable pub open_file : ℕ → ℕ → ExtentServer → ExtentServer
open_file now id s = set_atime now id (record s {
  fileid_open_m = insert id ((at id 0 s.fileid_open_m + 1) % 2 ^ 32) s.fileid_open_m;
})

unfoldable pub create_dir : ℕ → ℕ → ℕ → Bytes → ExtentServer → Status × ExtentServer
create_dir now num parent name s =
    let id = dir_id num in
    if not (has parent s.dirid_fmap_m) then (noent, s) else (
      ok,
      enter id parent name (record s { fileid_attr_m = insert id (stamp now 0) s.fileid_attr_m }),
    )

unfoldable pub set_mode : ℕ → ℕ → ℕ → ExtentServer → ExtentServer
set_mode now id mode s =
    let old = at id no_attr s.fileid_attr_m in
    record s {
      fileid_mode_m = insert id mode s.fileid_mode_m;
      fileid_attr_m = insert id (record old { ctime = now % 2 ^ 32 }) s.fileid_attr_m;
    }

unfoldable pub get_mode : ℕ → ℕ → ExtentServer → Status × ℕ
get_mode id mode s = elim (lookup id s.fileid_mode_m) [ none ↦ (noent, mode) | some m ↦ (ok, m) ]

-- `std::string::resize` with '\0'; `n` is at most `max_size`, below.
unfoldable pub resize : ℕ → Bytes → Bytes
resize n str = take n str ++ replicate (n - length str) 0

unfoldable pub set_attr : ℕ → ℕ → Attr → ExtentServer → Status × ExtentServer
set_attr now id attr s =
    let content = at id [] s.fileid_content_m in
    let s' = record s { fileid_content_m = touch id [] s.fileid_content_m } in
    elim (lookup id s.fileid_attr_m) [
      | none ↦ (noent, s)
      | some old ↦
          if not (length content == attr.size)
          then (ok, put now id (resize attr.size content) s')
          else (
            ok,
            record s' {
              fileid_attr_m =
                  insert id
                    (record old { atime = attr.atime; mtime = attr.mtime; ctime = attr.ctime })
                    s.fileid_attr_m;
            },
          )
    ]

-- `std::string::max_size()` where `size_t` has 32 bits; a longer string is an exception.
abbrev pub max_size : ℕ
max_size = 2 ^ 30 - 4

-- `str.replace(off, size, buf, 0, size)`.
unfoldable pub replace : ℕ → ℕ → Bytes → Bytes → Option Bytes
replace off size buf str =
    let replaced = take off str ++ (take size buf ++ drop size (drop off str)) in
    if ltb (length str) off || ltb max_size (length replaced) then none else some replaced

-- The growth before a write to the end `end_off`, which the argument of `resize` cuts to 32 bits.
unfoldable pub grow : ℕ → Bytes → Option Bytes
grow end_off str =
    if not (ltb (length str) end_off)
    then some str
    else if ltb max_size (end_off % 2 ^ 32)
    then none
    else some (resize (end_off % 2 ^ 32) str)

-- `off + size` wraps around in 64 bits, and the position of `replace` has 32 bits.
unfoldable pub write : ℕ → ℕ → ℕ → ℕ → Bytes → ExtentServer → Option (Status × ExtentServer)
write now id off size buf s = elim (lookup id s.fileid_content_m) [
  | none ↦ some (noent, s)
  | some old ↦ elim (grow ((off + size) % 2 ^ 64) old) [
    | none ↦ none
    | some content ↦ elim (replace (off % 2 ^ 32) size buf content) [
      | none ↦ none
      | some str ↦ some (ok, put now id str s)
    ]
  ]
]

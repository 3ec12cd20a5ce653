-- ===== src/Handle.antt =====
-- The connections to other nodes that a node shares (handle.h, handle.cc). A handle is the name of
-- its node. Reference counts are far below the limits of `int`.
pub mod Users
pub mod Uses
mod Tests
use lab.Base.{
  ℕ, ◌+◌, ◌-◌, Bool, true, false, ◌&&◌, not, Option, none, some, List, [], ◌∷◌, ◌==◌, if◌then◌else◌,
  nat_key,
}
use lab.Base.Bytes.{Bytes, str_key}
use lab.Base.Map.{Map, lookup, insert, erase}

-- `hinfo`; the connection is there as long as the entry.
pub record Hinfo : Type 0 where
  pub refcnt : ℕ
  pub del : Bool

-- `hmap`.
abbrev pub Hmap : Type 0
Hmap = Map Bytes Hinfo

-- `bound` says whether `bind` to the node succeeds. Whether there is a handle.
unfoldable pub get_handle : Bool → Bytes → Hmap → Bool × Hmap
get_handle bound m hmap = elim (lookup m hmap) [
  | none ↦
      if bound then (true, insert m (record { refcnt = 1; del = false }) hmap) else (false, hmap)
  | some h ↦
      if not h.del
      then (true, insert m (record h { refcnt = h.refcnt + 1 }) hmap)
      else (false, hmap)
]

unfoldable pub delete_handle_wo : Bytes → Hmap → Hmap
delete_handle_wo m hmap = elim (lookup m hmap) [
  | none ↦ hmap
  | some h ↦ if h.refcnt == 0 then erase m hmap else insert m (record h { del = true }) hmap
]

unfoldable pub delete_handle : Bytes → Hmap → Hmap
delete_handle m hmap = delete_handle_wo m hmap

-- `none` is a handle without an entry, whose pointer is followed all the same.
unfoldable pub done_handle : Bytes → Hmap → Option Hmap
done_handle m hmap = elim (lookup m hmap) [
  | none ↦ none
  | some h ↦
      let left = record h { refcnt = h.refcnt - 1 } in
      let t = insert m left hmap in
      if left.refcnt == 0 && left.del then some (delete_handle_wo m t) else some t
]

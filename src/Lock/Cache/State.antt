-- ===== src/Lock/Cache/State.antt =====
-- How the lock server's state goes to another replica (lock_server_cache.cc). The operators are
-- those of rpc/marshall.h, where a `size_t` has 32 bits.
pub mod Transfer
mod Tests
use lab.Base.{
  ℕ, ◌+◌, ◌%◌, ◌^◌, ◌<◌, ◌≡◌, Option, none, some, List, [], ◌∷◌, ◌++◌, nat_key, length,
  append_assoc,
}
use lab.Base.Bytes.{Bytes}
use lab.Base.Map.{Map, insert}
use lab.Rpc.Marshal.{
  take_content, Marshall, Get, ◌>>=◌, return, fresh, put_u64, put_u32, get_u64, get_u32,
  rpc_header_sz,
}
use lab.Rpc.Marshal.Laws.{Wire, cursor, u32, u64, string, u32_put, u64_put, get_part, get_last}
use lab.Rpc.Marshal.Containers.{get_map, get_vector, get_entries, vector, map}
use lab.Lock.Cache.{LockServerCache, RevokeInfo}

unfoldable pub put_revoke_info : RevokeInfo → Marshall → Marshall
put_revoke_info i m = put_u64 i.seqid (put_u32 i.clid (put_u64 i.lid m))

unfoldable pub get_revoke_info : Get RevokeInfo
get_revoke_info = do
  lid ← get_u64
  clid ← get_u32
  seqid ← get_u64
  return (record { lid = lid; clid = clid; seqid = seqid })

abbrev pub revoke_info_bytes : RevokeInfo → Bytes
revoke_info_bytes i = u64.bytes i.lid ++ (u32.bytes i.clid ++ u64.bytes i.seqid)

abbrev pub RevokeInfoFits : RevokeInfo → Type 0
RevokeInfoFits i = (i.lid < 2 ^ 64) × (i.clid < 2 ^ 32) × (i.seqid < 2 ^ 64)

pub put_revoke_info_lem :
    (i : RevokeInfo) (m : Marshall) → (put_revoke_info i m).body ≡ m.body ++ revoke_info_bytes i
unfolding put_revoke_info
put_revoke_info_lem i m = simp (u32_put, u64_put, append_assoc)

pub get_revoke_info_lem :
    (a : RevokeInfo) (i : ℕ) (r : Bytes)
    → RevokeInfoFits a
    → i + length (revoke_info_bytes a ++ r) < 2 ^ 31
    → get_revoke_info (cursor i (revoke_info_bytes a ++ r))
      ≡ some (a, cursor (i + length (revoke_info_bytes a)) r)
unfolding get_revoke_info
get_revoke_info_lem a i r f =
    get_part u64 _ a.lid a i (u32.bytes a.clid ++ u64.bytes a.seqid) r f.0 (
      get_part u32 _ a.clid a (i + 8) (u64.bytes a.seqid) r f.1
        (get_last u64 _ a.seqid ((i + 8) + 4) r f.2))

abbrev pub revoke_info : Wire RevokeInfo
revoke_info = record {
  put = put_revoke_info;
  get = get_revoke_info;
  bytes = revoke_info_bytes;
  Fits = RevokeInfoFits;
  put_lem = put_revoke_info_lem;
  get_lem = get_revoke_info_lem;
}

-- The maps and the vector, in the order of the message.
unfoldable pub put_state : LockServerCache → Marshall → Marshall
put_state s m = (map u64 u64).put s.m_lock_seqid (
    (map u64 (map u32 u32)).put s.m_lock_clid_count (
      (vector revoke_info).put s.l_revoke (
        (map u64 (vector u32)).put s.m_lock_retrylist (
          (map u64 u32).put s.m_lock_clid
            ((map u32 string).put s.m_clid_host ((map u64 u32).put s.m_lock_status m))))))

unfoldable pub marshal_state : LockServerCache → Bytes
marshal_state s = (put_state s fresh).body

-- The loop that makes the connections; each is assumed to succeed, as in `subscribe`.
unfoldable pub rebuild_rpcc : Map ℕ Bytes → Map ℕ Bytes → Map ℕ Bytes
rebuild_rpcc [] rpcc = rpcc
rebuild_rpcc ((clid, host) ∷ hosts) rpcc = rebuild_rpcc hosts (insert clid host rpcc)

-- A size, and the loop that assigns this many entries of a map that is not cleared before.
unfoldable pub get_assigned : {V : Type 0} → Wire V → Map ℕ V → Get (Map ℕ V)
get_assigned w old = do n ← get_u32; get_entries u64 w n old

unfoldable pub get_state : LockServerCache → Get LockServerCache
get_state s = do
  status ← get_map u64 u32
  host ← get_map u32 string
  clid ← get_map u64 u32
  retry ← get_assigned (vector u32) s.m_lock_retrylist
  revoke ← get_vector revoke_info s.l_revoke
  count ← get_assigned (map u32 u32) s.m_lock_clid_count
  seqid ← get_map u64 u64
  return (record {
    m_lock_status = status;
    m_clid_rpcc = rebuild_rpcc host s.m_clid_rpcc;
    m_clid_host = host;
    m_lock_clid = clid;
    m_lock_retrylist = retry;
    l_revoke = revoke;
    m_lock_clid_count = count;
    m_lock_seqid = seqid;
  })

unfoldable pub unmarshal_state : Bytes → LockServerCache → Option LockServerCache
unmarshal_state state s = elim (get_state s (take_content state)) [
  | none ↦ none
  | some (t, u) ↦ some t
]

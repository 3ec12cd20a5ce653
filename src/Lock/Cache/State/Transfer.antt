-- ===== src/Lock/Cache/State/Transfer.antt =====
-- A replica that takes over the lock server's state.
use lab.Base.{
  arith, ℕ, ◌+◌, ◌^◌, ◌<◌, ◌≡◌, refl, sym, ap, ◌∙◌, Option, some, [], ◌∷◌, ◌++◌, nat_key, length,
  append_assoc, append-nil,
}
use lab.Base.Bytes.{Bytes}
use lab.Base.Map.{Map, insert_last}
use lab.Rpc.Marshal.{take_content, Marshall, Unmarshall, fresh, rpc_header_sz}
use lab.Rpc.Marshal.RoundTrip.{take_content_lem}
use lab.Rpc.Marshal.Laws.{cursor, u32, u64, string, get_part, get_last}
use lab.Rpc.Marshal.Containers.{
  get_map, vector, map, put_map_lem, put_vector_lem, Follows, Follows-IsSorted, HeadBelow-nil,
}
use lab.Lock.Cache.{LockServerCache, init}
use lab.Lock.Cache.State.{
  revoke_info, put_state, marshal_state, rebuild_rpcc, get_assigned, get_state, unmarshal_state,
}
use lab.Rsm.{StateTransfer}

abbrev seqid_bytes : LockServerCache → Bytes
seqid_bytes s = (map u64 u64).bytes s.m_lock_seqid

abbrev count_bytes : LockServerCache → Bytes
count_bytes s = (map u64 (map u32 u32)).bytes s.m_lock_clid_count ++ seqid_bytes s

abbrev revoke_bytes : LockServerCache → Bytes
revoke_bytes s = (vector revoke_info).bytes s.l_revoke ++ count_bytes s

abbrev retry_bytes : LockServerCache → Bytes
retry_bytes s = (map u64 (vector u32)).bytes s.m_lock_retrylist ++ revoke_bytes s

abbrev clid_bytes : LockServerCache → Bytes
clid_bytes s = (map u64 u32).bytes s.m_lock_clid ++ retry_bytes s

abbrev host_bytes : LockServerCache → Bytes
host_bytes s = (map u32 string).bytes s.m_clid_host ++ clid_bytes s

abbrev pub state_bytes : LockServerCache → Bytes
state_bytes s = (map u64 u32).bytes s.m_lock_status ++ host_bytes s

pub put_state_lem :
    (s : LockServerCache) (m : Marshall) → (put_state s m).body ≡ m.body ++ state_bytes s
unfolding put_state
put_state_lem s m = simp (put_map_lem, put_vector_lem, append_assoc)

-- The maps are in key order with keys and values of the sizes of their types, each connection is
-- that to its client's host, and the message is below 512 MB.
pub record Fits (s : LockServerCache) : Type 0 where
  pub status : (map u64 u32).Fits s.m_lock_status
  pub host : (map u32 string).Fits s.m_clid_host
  pub clid : (map u64 u32).Fits s.m_lock_clid
  pub retry : (map u64 (vector u32)).Fits s.m_lock_retrylist
  pub revoke : (vector revoke_info).Fits s.l_revoke
  pub count : (map u64 (map u32 u32)).Fits s.m_lock_clid_count
  pub seqid : (map u64 u64).Fits s.m_lock_seqid
  pub connected : s.m_clid_rpcc ≡ s.m_clid_host
  pub small : rpc_header_sz + length (state_bytes s ++ []) < 2 ^ 29

-- The members that are not cleared before they are read into are empty.
pub record Ready (s : LockServerCache) : Type 0 where
  pub no_rpcc : s.m_clid_rpcc ≡ []
  pub no_retry : s.m_lock_retrylist ≡ []
  pub no_revoke : s.l_revoke ≡ []
  pub no_count : s.m_lock_clid_count ≡ []

rebuild_rpcc_lem : (d old : Map ℕ Bytes) → Follows u32 string old d → rebuild_rpcc d old ≡ old ++ d
unfolding rebuild_rpcc
rebuild_rpcc_lem [] old h = sym (append-nil old)
rebuild_rpcc_lem ((a, b) ∷ d) old h =
    rw (insert_last a b old h.0)
      (rebuild_rpcc_lem d (old ++ (a, b) ∷ []) h.1 ∙ append_assoc old ((a, b) ∷ []) d)

rebuild_rpcc_same : (s : LockServerCache) → Fits s → rebuild_rpcc s.m_clid_host [] ≡ s.m_clid_rpcc
rebuild_rpcc_same s f =
    rebuild_rpcc_lem s.m_clid_host [] (
      Follows-IsSorted u32 string s.m_clid_host [] f.host.1
        (HeadBelow-nil u32 string s.m_clid_host))
    ∙ sym f.connected

rebuilt :
    (s : LockServerCache)
    → Fits s
    → (j : ℕ) (r : Bytes)
    → ◌≡◌ {A = Option (LockServerCache × Unmarshall)}
        (some (record s { m_clid_rpcc = rebuild_rpcc s.m_clid_host [] }, cursor j r))
        (some (s, cursor j r))
rebuilt s f j r = ap (λ c. some (record s { m_clid_rpcc = c }, cursor j r)) (rebuild_rpcc_same s f)

get_state-Ready : (s : LockServerCache) → Ready s → get_state s ≡ get_state init
unfolding get_state
get_state-Ready s y = rw (y.no_rpcc, y.no_retry, y.no_revoke, y.no_count) refl

get_state_lem :
    (a : LockServerCache)
    → Fits a
    → (i : ℕ) (r : Bytes) → i + length (state_bytes a ++ r) < 2 ^ 31
    → get_state init (cursor i (state_bytes a ++ r))
      ≡ some (a, cursor (i + length (state_bytes a)) r)
unfolding get_state get_assigned get_map
get_state_lem a f i r = get_part (map u64 u32) _ a.m_lock_status a i (host_bytes a) r f.status (
    get_part (map u32 string) _ a.m_clid_host a _ (clid_bytes a) r f.host (
      get_part (map u64 u32) _ a.m_lock_clid a _ (retry_bytes a) r f.clid (
        get_part (map u64 (vector u32)) _ a.m_lock_retrylist a _ (revoke_bytes a) r f.retry (
          get_part (vector revoke_info) _ a.l_revoke a _ (count_bytes a) r f.revoke (
            get_part (map u64 (map u32 u32)) _ a.m_lock_clid_count a _ (seqid_bytes a) r f.count
              (λ h. get_last (map u64 u64) _ a.m_lock_seqid _ r f.seqid h ∙ rebuilt a f _ r))))))

-- A lock server's state is rebuilt from its message, in a replica whose lists of waiting clients,
-- revoke requests, counts and connections are empty: every map and list of the one is then in the
-- other. The maps are in key order, their values have the sizes of their types, every
-- connection is that to its client's host, and the message is below 512 MB.
pub state_transfer :
    (a b : LockServerCache) → Fits a → Ready b → unmarshal_state (marshal_state a) b ≡ some a
unfolding unmarshal_state marshal_state
state_transfer a b f y =
    let body : (put_state a fresh).body ≡ state_bytes a ++ [] =
      put_state_lem a fresh ∙ sym (append-nil (state_bytes a)) in
    let read =
      ap (λ g. g (take_content (put_state a fresh).body)) (get_state-Ready b y)
      ∙ ap (λ x. get_state init (take_content x)) body
      ∙ ap (get_state init)
          (take_content_lem (state_bytes a ++ []) (let small = f.small in omega (arith, small)))
      ∙ get_state_lem a f rpc_header_sz [] (let small = f.small in omega (arith, small)) in
    rw (read, unmarshal_state) refl

-- The lock server as the service that the replicated state machine transfers.
abbrev pub lock_server : StateTransfer LockServerCache
lock_server = record {
  marshal_state = marshal_state;
  unmarshal_state = unmarshal_state;
  Fits = Fits;
  Ready = Ready;
  rebuilds = state_transfer;
}

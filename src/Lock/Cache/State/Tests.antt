-- ===== src/Lock/Cache/State/Tests.antt =====
-- The transfer of the state at a concrete input.
use lab.Base.{◌≡◌, refl, some, [], ◌∷◌, arith, nat_key}
use lab.Lock.Cache.{LockServerCache, init}
use lab.Lock.Cache.State.{marshal_state, unmarshal_state}
use lab.Lock.Cache.State.Transfer.{Fits, state_transfer}

-- Client 3 on host "h" holds lock 9, which is to be revoked since client 4 waits for it.
abbrev held : LockServerCache
held = record {
  m_lock_status = (9, 2) ∷ [];
  m_clid_rpcc = (3, 104 ∷ []) ∷ (4, 105 ∷ []) ∷ [];
  m_clid_host = (3, 104 ∷ []) ∷ (4, 105 ∷ []) ∷ [];
  m_lock_clid = (9, 3) ∷ [];
  m_lock_retrylist = (9, 4 ∷ []) ∷ [];
  l_revoke = record { lid = 9; clid = 3; seqid = 7 } ∷ [];
  m_lock_clid_count = (9, (3, 1) ∷ []) ∷ [];
  m_lock_seqid = (9, 7) ∷ [];
}

held-Fits : Fits held
held-Fits = record {
  status = ((omega arith, omega arith, tt), (tt, tt), omega arith);
  host = (
    (omega arith, omega arith, (omega arith, omega arith, tt)),
    ((refl, tt), (tt, tt)),
    omega arith,
  );
  clid = ((omega arith, omega arith, tt), (tt, tt), omega arith);
  retry = ((omega arith, ((omega arith, tt), omega arith), tt), (tt, tt), omega arith);
  revoke = (((omega arith, omega arith, omega arith), tt), omega arith);
  count = (
    (omega arith, ((omega arith, omega arith, tt), (tt, tt), omega arith), tt),
    (tt, tt),
    omega arith,
  );
  seqid = ((omega arith, omega arith, tt), (tt, tt), omega arith);
  connected = refl;
  small = omega arith;
}

state_transfer_example : unmarshal_state (marshal_state held) init ≡ some held
state_transfer_example =
    state_transfer held init held-Fits
      (record { no_rpcc = refl; no_retry = refl; no_revoke = refl; no_count = refl })

-- ===== src/Lock/Client/Acquired.antt =====
-- Acquiring and releasing keep a client's locks sound.
use lab.Base.{
  ℕ, ◌+◌, ◌≡◌, ◌≢◌, inl, inr, some, List, [], ◌∷◌, ◌++◌, arith, ◌==◌, if◌then◌else◌, nat_key,
  Bool-cases, Option-cases,
}
use lab.Base.Map.{lookup, erase, has, at, lookup-insert, lookup-erase, lookup-touch}
use lab.Lock.Client.{
  absent, free, locked, acquiring, releasing, no_thread, create_lock, acqu, reply_ok, list_contains,
  release,
}
use lab.Lock.Client.Threads.{Client, called, times, Sound}

pub times-snoc :
    (lid x : ℕ) (l : List ℕ) → times lid (l ++ x ∷ []) ≡ times lid l + (if x == lid then 1 else 0)
times-snoc lid x [] = ground arith
times-snoc lid x (y ∷ l) = ground (arith, times-snoc lid x l)

pub release-Sound :
    (t l lid : ℕ) (w : Client)
    → t ≢ 0
    → t ≢ no_thread
    → Sound lid w
    → Sound lid (record w { cache = release t l w.cache })
unfolding release
release-Sound t l lid w a b h = elim (Bool-cases (at l 0 w.cache.m_lock_thread == t)) [
  | inr other ↦ rw other (record {
    once = h.once;
    released = h.released;
    called_for = h.called_for;
    waited_for = h.waited_for;
    held = ground (arith, h.held, lookup-touch l lid 0 w.cache.m_lock_thread);
  })
  | inl own ↦ elim (Bool-cases (list_contains w.cache.l_revoke l)) [
    | inl back ↦
        rw (own, back)
          (record {
            once =
                ground
                  (arith, h.once, h.released, h.held, own, times-snoc lid l w.cache.l_released);
            released = ground (
              arith,
              h.released,
              times-snoc lid l w.cache.l_released,
              lookup-insert l lid releasing w.cache.m_lock_status,
            );
            called_for = ground (
              arith,
              own,
              h.held,
              h.called_for,
              lookup-insert l lid releasing w.cache.m_lock_status,
            );
            waited_for = ground (
              arith,
              own,
              h.held,
              h.waited_for,
              lookup-insert l lid releasing w.cache.m_lock_status,
            );
            held = ground (
              arith,
              h.held,
              lookup-insert l lid releasing w.cache.m_lock_status,
              lookup-insert l lid no_thread w.cache.m_lock_thread,
            );
          })
    | inr keep ↦
        rw (own, keep)
          (record {
            once = h.once;
            released =
                ground
                  (arith, own, h.held, h.released, lookup-insert l lid free w.cache.m_lock_status);
            called_for =
                ground (
                  arith,
                  own,
                  h.held,
                  h.called_for,
                  lookup-insert l lid free w.cache.m_lock_status,
                );
            waited_for =
                ground (
                  arith,
                  own,
                  h.held,
                  h.waited_for,
                  lookup-insert l lid free w.cache.m_lock_status,
                );
            held = ground (
              arith,
              h.held,
              lookup-insert l lid free w.cache.m_lock_status,
              lookup-insert l lid no_thread w.cache.m_lock_thread,
            );
          })
  ]
]

pub create_lock-Sound :
    (l lid : ℕ) (w : Client) → Sound lid w → Sound lid (record w { cache = create_lock l w.cache })
unfolding create_lock
create_lock-Sound l lid w h = elim (Option-cases (lookup l w.cache.m_lock_status)) [
  | inr (st, seen) ↦
      rw (seen, has, create_lock)
        (record {
          once = h.once;
          released = h.released;
          called_for = h.called_for;
          waited_for = h.waited_for;
          held = h.held;
        })
  | inl new ↦
      rw (new, has, create_lock)
        (record {
          once = h.once;
          released =
              ground (arith, new, h.released, lookup-insert l lid absent w.cache.m_lock_status);
          called_for =
              ground (arith, new, h.called_for, lookup-insert l lid absent w.cache.m_lock_status);
          waited_for =
              ground (arith, new, h.waited_for, lookup-insert l lid absent w.cache.m_lock_status);
          held = ground (
            arith,
            new,
            h.held,
            lookup-insert l lid absent w.cache.m_lock_status,
            lookup-insert l lid no_thread w.cache.m_lock_thread,
          );
        })
]

pub acqu-Sound :
    (t l lid : ℕ) (w : Client)
    → t ≢ 0
    → t ≢ no_thread
    → Sound lid w
    → Sound lid (called t l (acqu t l w.cache) w)
unfolding acqu
acqu-Sound t l lid w a b h =
    let st = at l absent w.cache.m_lock_status in
    elim (Bool-cases (st == absent)) [
      | inl new ↦ rw new (record {
        once = h.once;
        released =
            ground (arith, new, h.released, lookup-insert l lid acquiring w.cache.m_lock_status);
        called_for = ground (
          arith,
          new,
          h.called_for,
          lookup-insert l lid acquiring w.cache.m_lock_status,
          lookup-insert l lid t w.calling,
        );
        waited_for =
            ground (arith, new, h.waited_for, lookup-insert l lid acquiring w.cache.m_lock_status);
        held = ground (arith, new, h.held, lookup-insert l lid acquiring w.cache.m_lock_status);
      })
      | inr old ↦ elim (Bool-cases (at l 0 w.cache.m_lock_thread == t)) [
        | inl own ↦
            rw (old, own)
              (record {
                once = h.once;
                released = h.released;
                called_for = h.called_for;
                waited_for = h.waited_for;
                held = ground (arith, h.held, lookup-touch l lid 0 w.cache.m_lock_thread);
              })
        | inr other ↦ elim (Bool-cases (st == free)) [
          | inl unused ↦
              rw (old, other, unused)
                (record {
                  once = h.once;
                  released =
                      ground (
                        arith,
                        unused,
                        h.released,
                        lookup-insert l lid locked w.cache.m_lock_status,
                      );
                  called_for = ground (
                    arith,
                    unused,
                    h.called_for,
                    lookup-insert l lid locked w.cache.m_lock_status,
                  );
                  waited_for = ground (
                    arith,
                    unused,
                    h.waited_for,
                    lookup-insert l lid locked w.cache.m_lock_status,
                  );
                  held = ground (
                    arith,
                    unused,
                    h.held,
                    lookup-insert l lid locked w.cache.m_lock_status,
                    lookup-insert l lid t w.cache.m_lock_thread,
                  );
                })
          | inr busy ↦
              rw (old, other, busy)
                (record {
                  once = h.once;
                  released = h.released;
                  called_for = h.called_for;
                  waited_for = h.waited_for;
                  held = ground (arith, h.held, lookup-touch l lid 0 w.cache.m_lock_thread);
                })
        ]
      ]
    ]

pub reply_ok-Sound :
    (t l lid : ℕ) (w : Client)
    → lookup l w.calling ≡ some t
    → Sound lid w
    → Sound lid (record w { cache = reply_ok t l w.cache; calling = erase l w.calling })
unfolding reply_ok
reply_ok-Sound t l lid w e h =
    elim (Bool-cases (at l 0 w.cache.m_waiting_revoke == w.cache.seqid)) [
      | inl early ↦ rw early (record {
        once = h.once;
        released =
            ground (
              arith,
              e,
              h.called_for,
              h.released,
              lookup-insert l lid locked w.cache.m_lock_status,
            );
        called_for = ground (
          arith,
          h.called_for,
          lookup-insert l lid locked w.cache.m_lock_status,
          lookup-erase l lid w.calling,
        );
        waited_for = ground (
          arith,
          e,
          h.called_for,
          h.waited_for,
          lookup-insert l lid locked w.cache.m_lock_status,
        );
        held = ground (
          arith,
          h.held,
          lookup-insert l lid locked w.cache.m_lock_status,
          lookup-insert l lid t w.cache.m_lock_thread,
        );
      })
      | inr usual ↦ rw usual (record {
        once = h.once;
        released =
            ground (
              arith,
              e,
              h.called_for,
              h.released,
              lookup-insert l lid locked w.cache.m_lock_status,
            );
        called_for = ground (
          arith,
          h.called_for,
          lookup-insert l lid locked w.cache.m_lock_status,
          lookup-erase l lid w.calling,
        );
        waited_for = ground (
          arith,
          e,
          h.called_for,
          h.waited_for,
          lookup-insert l lid locked w.cache.m_lock_status,
        );
        held = ground (
          arith,
          h.held,
          lookup-insert l lid locked w.cache.m_lock_status,
          lookup-insert l lid t w.cache.m_lock_thread,
        );
      })
    ]

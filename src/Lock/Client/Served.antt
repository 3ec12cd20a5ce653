-- ===== src/Lock/Client/Served.antt =====
-- The lock server's calls and the releaser keep a client's locks sound.
use lab.Base.{
  ℕ, ap, ◌∙◌, inl, inr, false, ◌||◌, some, arith, ◌==◌, nat_key, ltb, Bool-cases, Option-cases,
  List-cases,
}
use lab.Base.Map.{lookup, at, lookup-insert, lookup-erase, lookup-touch}
use lab.Lock.Client.{
  absent, free, retrying, acquiring, releasing, reply_retry, resume, revoke, retry, releaser,
}
use lab.Lock.Client.Threads.{
  Client, says_retry, resumes, revokes, retries, turns, step, times, Sound,
}
use lab.Lock.Client.Acquired.{times-snoc}

pub says_retry-Sound : (l lid : ℕ) (w : Client) → Sound lid w → Sound lid (step (says_retry l) w)
unfolding step reply_retry
says_retry-Sound l lid w h = elim (Option-cases (lookup l w.calling)) [
  | inl nobody ↦ rw (nobody, step) h
  | inr (t, e) ↦ elim (Bool-cases (at l false w.cache.m_lock_retry)) [
    | inl again ↦
        rw (e, step, again)
          (record {
            once = h.once;
            released = ground (
              arith,
              e,
              h.called_for,
              h.released,
              lookup-insert l lid acquiring w.cache.m_lock_status,
            );
            called_for =
                ground (arith, h.called_for, lookup-insert l lid acquiring w.cache.m_lock_status);
            waited_for = ground (
              arith,
              e,
              h.called_for,
              h.waited_for,
              lookup-insert l lid acquiring w.cache.m_lock_status,
            );
            held = ground (
              arith,
              e,
              h.called_for,
              h.held,
              lookup-insert l lid acquiring w.cache.m_lock_status,
            );
          })
    | inr later ↦
        rw (e, step, later)
          (record {
            once = h.once;
            released = ground (
              arith,
              e,
              h.called_for,
              h.released,
              lookup-insert l lid retrying w.cache.m_lock_status,
            );
            called_for = ground (
              arith,
              h.called_for,
              lookup-insert l lid retrying w.cache.m_lock_status,
              lookup-erase l lid w.calling,
            );
            waited_for = ground (
              arith,
              h.waited_for,
              lookup-insert l lid retrying w.cache.m_lock_status,
              lookup-insert l lid t w.sleeping,
            );
            held = ground (
              arith,
              e,
              h.called_for,
              h.held,
              lookup-insert l lid retrying w.cache.m_lock_status,
            );
          })
  ]
]

pub resumes-Sound : (l lid : ℕ) (w : Client) → Sound lid w → Sound lid (step (resumes l) w)
unfolding step resume
resumes-Sound l lid w h = elim (Option-cases (lookup l w.sleeping)) [
  | inl nobody ↦ rw (nobody, step) h
  | inr (t, e) ↦
      rw (e, step)
        (record {
          once = h.once;
          released = ground (
            arith,
            e,
            h.waited_for,
            h.released,
            lookup-insert l lid acquiring w.cache.m_lock_status,
          );
          called_for = ground (
            arith,
            h.called_for,
            lookup-insert l lid acquiring w.cache.m_lock_status,
            lookup-insert l lid t w.calling,
          );
          waited_for = ground (
            arith,
            h.waited_for,
            lookup-insert l lid acquiring w.cache.m_lock_status,
            lookup-erase l lid w.sleeping,
          );
          held =
              ground (
                arith,
                e,
                h.waited_for,
                h.held,
                lookup-insert l lid acquiring w.cache.m_lock_status,
              );
        })
]

pub revokes-Sound : (l n lid : ℕ) (w : Client) → Sound lid w → Sound lid (step (revokes l n) w)
unfolding step revoke
revokes-Sound l n lid w h =
    let st = at l absent w.cache.m_lock_status in
    let own = at l 0 w.cache.m_lock_seqid in
    elim (Bool-cases (st == acquiring)) [
      | inl busy ↦ rw busy h
      | inr not_busy ↦ elim (Bool-cases (st == absent || st == releasing)) [
        | inl gone ↦
            rw (not_busy, gone)
              (record {
                once = h.once;
                released =
                    ground (arith, h.released, lookup-touch l lid absent w.cache.m_lock_status);
                called_for =
                    ground (arith, h.called_for, lookup-touch l lid absent w.cache.m_lock_status);
                waited_for =
                    ground (arith, h.waited_for, lookup-touch l lid absent w.cache.m_lock_status);
                held = ground (arith, h.held, lookup-touch l lid absent w.cache.m_lock_status);
              })
        | inr here ↦ elim (Bool-cases (own == n)) [
          | inl match ↦ elim (Bool-cases (st == free)) [
            | inl unused ↦
                rw (not_busy, here, match, unused)
                  (record {
                    once =
                        ground
                          (arith, unused, h.once, h.released, times-snoc lid l w.cache.l_released);
                    released = ground (
                      arith,
                      h.released,
                      times-snoc lid l w.cache.l_released,
                      lookup-insert l lid releasing w.cache.m_lock_status,
                    );
                    called_for = ground (
                      arith,
                      unused,
                      h.called_for,
                      lookup-insert l lid releasing w.cache.m_lock_status,
                    );
                    waited_for = ground (
                      arith,
                      unused,
                      h.waited_for,
                      lookup-insert l lid releasing w.cache.m_lock_status,
                    );
                    held = ground (
                      arith,
                      unused,
                      h.held,
                      lookup-insert l lid releasing w.cache.m_lock_status,
                    );
                  })
            | inr used ↦
                rw (not_busy, here, match, used)
                  (record {
                    once = h.once;
                    released = h.released;
                    called_for = h.called_for;
                    waited_for = h.waited_for;
                    held = h.held;
                  })
          ]
          | inr differ ↦ elim (Bool-cases (ltb own n)) [
            | inl early ↦ rw (not_busy, here, differ, early) h
            | inr old ↦
                rw (not_busy, here, differ, old)
                  (record {
                    once = h.once;
                    released = h.released;
                    called_for = h.called_for;
                    waited_for = h.waited_for;
                    held = h.held;
                  })
          ]
        ]
      ]
    ]

pub retries-Sound : (l lid : ℕ) (w : Client) → Sound lid w → Sound lid (step (retries l) w)
unfolding step retry
retries-Sound l lid w h = elim (Option-cases (lookup l w.cache.m_lock_waitlist)) [
  | inl unknown ↦ rw (unknown, step, retry) h
  | inr (conds, e) ↦ elim (List-cases conds) [
    | inl nobody ↦
        rw (e ∙ ap some nobody, step, retry)
          (record {
            once = h.once;
            released = h.released;
            called_for = h.called_for;
            waited_for = h.waited_for;
            held = h.held;
          })
    | inr (c, cs, f) ↦ elim (Bool-cases (at l absent w.cache.m_lock_status == acquiring)) [
      | inl busy ↦
          rw (e ∙ ap some f, step, retry, busy)
            (record {
              once = h.once;
              released = h.released;
              called_for = h.called_for;
              waited_for = h.waited_for;
              held = h.held;
            })
      | inr quiet ↦
          rw (e ∙ ap some f, step, retry, quiet)
            (record {
              once = h.once;
              released = h.released;
              called_for = h.called_for;
              waited_for = h.waited_for;
              held = h.held;
            })
    ]
  ]
]

pub turns-Sound : (lid : ℕ) (w : Client) → Sound lid w → Sound lid (step turns w)
unfolding step releaser
turns-Sound lid w h = elim (List-cases w.cache.l_released) [
  | inl empty ↦ rw (empty, releaser) h
  | inr (l, ls, e) ↦ elim (Bool-cases (at l absent w.cache.m_lock_status == releasing)) [
    | inr wrong ↦ rw (e, releaser, wrong) h
    | inl right ↦
        rw (e, releaser, right)
          (record {
            once = ground (arith, h.once, ap (times lid) e);
            released = ground (
              arith,
              h.once,
              h.released,
              ap (times lid) e,
              lookup-insert l lid absent w.cache.m_lock_status,
            );
            called_for =
                ground
                  (arith, right, h.called_for, lookup-insert l lid absent w.cache.m_lock_status);
            waited_for =
                ground
                  (arith, right, h.waited_for, lookup-insert l lid absent w.cache.m_lock_status);
            held = ground (arith, right, h.held, lookup-insert l lid absent w.cache.m_lock_status);
          })
  ]
]

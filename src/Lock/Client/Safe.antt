-- ===== src/Lock/Client/Safe.antt =====
-- What holds of a client's locks along any sequence of calls and wake-ups.
use lab.Base.{
  ℕ, ◌≡◌, ◌≢◌, refl, sym, ap, ◌∙◌, inl, inr, true, false, List, [], ◌∷◌, arith, ◌==◌, nat_key, All,
  Option-cases, List-cases,
}
use lab.Base.Map.{lookup, erase, at}
use lab.Lock.Client.{
  waits, absent, free, locked, releasing, create_lock, acqu, acquire, woken, init, failed, releaser,
}
use lab.Lock.Client.Threads.{
  Client, Event, acquires, wakes, says_ok, says_retry, resumes, lets_go, revokes, retries, turns,
  step, times, status, holder, Sound, IsThread,
}
use lab.Lock.Client.Acquired.{release-Sound, create_lock-Sound, acqu-Sound, reply_ok-Sound}
use lab.Lock.Client.Served.{
  says_retry-Sound, resumes-Sound, revokes-Sound, retries-Sound, turns-Sound,
}

says_ok-Sound : (l lid : ℕ) (w : Client) → Sound lid w → Sound lid (step (says_ok l) w)
unfolding step
says_ok-Sound l lid w h = elim (Option-cases (lookup l w.calling)) [
  | inl nobody ↦ rw (nobody, step) h
  | inr (t, e) ↦ rw (e, step) (reply_ok-Sound t l lid w e h)
]

step-Sound : (e : Event) (lid : ℕ) (w : Client) → IsThread e → Sound lid w → Sound lid (step e w)
unfolding step acquire woken
step-Sound (acquires t l) lid w (a, b) h =
    acqu-Sound t l lid (record w { cache = create_lock l w.cache }) a b
      (create_lock-Sound l lid w h)
step-Sound (wakes t l) lid w (a, b) h =
    acqu-Sound t l lid
      (record w { cache = record w.cache { m_cond_waiting = erase t w.cache.m_cond_waiting } }) a b
      (record {
        once = h.once;
        released = h.released;
        called_for = h.called_for;
        waited_for = h.waited_for;
        held = h.held;
      })
step-Sound (says_ok l) lid w x h = says_ok-Sound l lid w h
step-Sound (says_retry l) lid w x h = says_retry-Sound l lid w h
step-Sound (resumes l) lid w x h = resumes-Sound l lid w h
step-Sound (lets_go t l) lid w (a, b) h = release-Sound t l lid w a b h
step-Sound (revokes l n) lid w x h = revokes-Sound l n lid w h
step-Sound (retries l) lid w x h = retries-Sound l lid w h
step-Sound turns lid w x h = turns-Sound lid w h

abbrev pub steps : List Event → Client → Client
steps [] w = w
steps (e ∷ es) w = steps es (step e w)

steps-Sound :
    (es : List Event) (lid : ℕ) (w : Client)
    → All IsThread es
    → Sound lid w
    → Sound lid (steps es w)
steps-Sound [] lid w x h = h
steps-Sound (e ∷ es) lid w (x, xs) h = steps-Sound es lid (step e w) xs (step-Sound e lid w x h)

releaser_ready : (w : Client) → ((lid : ℕ) → Sound lid w) → (releaser w.cache).0 ≢ failed
unfolding releaser
releaser_ready w h e = elim (List-cases w.cache.l_released) [
  | inl empty ↦ absurd (cc (rw (empty, releaser) at e))
  | inr (l, ls, f) ↦
      let right : (at l absent w.cache.m_lock_status == releasing) ≡ true =
        ground (arith, (h l).released, ap (times l) f) in
      absurd (cc (rw (f, releaser, right) at e))
]

locked_excludes :
    (t lid : ℕ) (w : Client)
    → status lid w ≡ locked
    → t ≢ holder lid w
    → (acqu t lid w.cache).0 ≡ waits
unfolding acqu
locked_excludes t lid w e n =
    let seen : (at lid absent w.cache.m_lock_status == absent) ≡ false = ground (arith, e) in
    let used : (at lid absent w.cache.m_lock_status == free) ≡ false = ground (arith, e) in
    let other : (at lid 0 w.cache.m_lock_thread == t) ≡ false = ground (arith, n) in
    simp (seen, other, used)

locked_unanswered :
    (lid : ℕ) (w : Client) → Sound lid w → status lid w ≡ locked → step (says_ok lid) w ≡ w
unfolding step
locked_unanswered lid w h e = elim h.called_for [
  | inl nobody ↦ rw (nobody, step) refl
  | inr busy ↦ absurd (cc (sym e ∙ busy))
]

-- Lock `lid` at a client where thread `t` may want it.
pub record Safe (t lid : ℕ) (w : Client) : Type 0 where
  pub sound : Sound lid w
  pub ready : (releaser w.cache).0 ≢ failed
  pub excludes : status lid w ≡ locked → t ≢ holder lid w → (acqu t lid w.cache).0 ≡ waits
  pub unanswered : status lid w ≡ locked → step (says_ok lid) w ≡ w

abbrev pub fresh : Client
fresh = record { cache = init; calling = []; sleeping = [] }

-- Whatever its threads and the lock server do, in any order, from a client without locks: a lock
-- that is handed to the releaser is RELEASING and is handed to it once, so that the releaser's
-- assertion holds; a lock is ACQUIRING while a call for it is on its way, and RETRYING while a
-- thread waits to try again; only a lock that is LOCKED has a thread, and while it is, every
-- other thread that asks for it waits, and no call for it is on its way that could be answered.
pub client-Safe : (es : List Event) (t lid : ℕ) → All IsThread es → Safe t lid (steps es fresh)
unfolding lookup
client-Safe es t lid x =
    let w = steps es fresh in
    let base : (l : ℕ) → Sound l fresh = λ l. record {
      once = omega arith;
      released = inl refl;
      called_for = inl refl;
      waited_for = inl refl;
      held = inr (inl refl);
    } in
    let h = steps-Sound es lid fresh x (base lid) in
    record {
      sound = h;
      ready = releaser_ready w (λ l. steps-Sound es l fresh x (base l));
      excludes = locked_excludes t lid w;
      unanswered = locked_unanswered lid w h;
    }

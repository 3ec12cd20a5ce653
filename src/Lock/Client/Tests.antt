-- ===== src/Lock/Client/Tests.antt =====
-- Runs of a client's locks, and the theorem at a concrete input.
use lab.Base.{◌≡◌, refl, [], ◌∷◌, nat_key}
use lab.Base.Map.{lookup, insert, erase}
use lab.Lock.Client.{acqu, acquire, create_lock, reply_ok, revoke}
use lab.Lock.Client.Threads.{acquires, says_ok, lets_go, revokes, turns, step}
use lab.Lock.Client.Safe.{Safe, steps, fresh, client-Safe}

-- While the call for lock 5 is on its way, number 2, another thread calls for lock 6, number 3: the
-- revoke request for number 2 is then taken for an old one.
revoke_dropped :
    (revoke 5 2 (steps (acquires 1 5 ∷ acquires 2 6 ∷ says_ok 5 ∷ []) fresh).cache).1.l_revoke ≡ []
unfolding step acquire acqu create_lock reply_ok revoke lookup insert erase
revoke_dropped = refl

client-Safe_example :
    Safe 2 5 (
      steps
        (acquires 1 5 ∷ says_ok 5 ∷ acquires 2 5 ∷ revokes 5 2 ∷ lets_go 1 5 ∷ turns ∷ [])
        fresh)
client-Safe_example =
    client-Safe (acquires 1 5 ∷ says_ok 5 ∷ acquires 2 5 ∷ revokes 5 2 ∷ lets_go 1 5 ∷ turns ∷ []) 2
      5
      (
        ((λ e. cc e), (λ e. cc e)),
        (tt, (((λ e. cc e), (λ e. cc e)), (tt, (((λ e. cc e), (λ e. cc e)), (tt, tt))))),
      )

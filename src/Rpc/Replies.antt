-- ===== src/Rpc/Replies.antt =====
-- The reply window of `rpcs` (rpc/rpc.h, rpc/rpc.cc): what a server remembers of the requests
-- of each client, so that a repeated request is not executed again.
-- Request numbers are `unsigned int`; a decrement that may wrap is `prev_xid`.
pub mod Window
pub mod AtMostOnce
pub mod Trace
pub mod Held
pub mod Repeat
pub mod Stale
mod Tests
use lab.Base.{
  ℕ, zero, suc, ◌+◌, ◌-◌, ◌^◌, Bool, true, false, Option, none, some, List, [], ◌∷◌, ◌++◌, ltb,
  ◌==◌, if◌then◌else◌, nat_key,
}
use lab.Base.Bytes.{Bytes}
use lab.Base.Map.{Map, at, insert}

-- `reply_t`: `buf` is `none` for a null buffer, and its length stands for `sz`.
pub record Reply : Type 0 where
  pub xid : ℕ
  pub cb_present : Bool
  pub buf : Option Bytes

-- The constructor of `reply_t`.
abbrev pub new_reply : ℕ → Reply
new_reply x = record { xid = x; cb_present = false; buf = none }

-- `rpcstate_t`, with the reply that `DONE` hands out, and the two ways to leave the function
-- with no state: `exit(1)`, and `back()` of an empty list.
pub data Verdict : Type 0 where
  new : Verdict
  inprogress : Verdict
  done : Bytes → Verdict
  forgotten : Verdict
  exited : Verdict
  undefined : Verdict

-- `x - 1` on `unsigned int`.
abbrev pub prev_xid : ℕ → ℕ
prev_xid zero = 2 ^ 32 - 1
prev_xid (suc x) = x

-- The leading replies up to `xid_rep` are erased.
unfoldable pub drop_acked : ℕ → List Reply → List Reply
drop_acked xid_rep [] = []
drop_acked xid_rep (p ∷ ps) =
    let rest = drop_acked xid_rep ps in if ltb xid_rep p.xid then p ∷ ps else rest

abbrev pub first_xid : ℕ → List Reply → ℕ
first_xid xid [] = xid
first_xid xid (p ∷ ps) = prev_xid p.xid

-- `while (xid_rep < first_xid)`: dummies are put in front, downwards.
unfoldable pub fill_front : ℕ → ℕ → List Reply → List Reply
fill_front xid_rep zero l = l
fill_front xid_rep (suc f) l =
    let rest = fill_front xid_rep f (new_reply (suc f) ∷ l) in
    if ltb xid_rep (suc f) then rest else l

-- `reply_l->back().xid`; `none` is the undefined read of an empty list.
unfoldable pub last_xid : List Reply → Option ℕ
last_xid [] = none
last_xid (p ∷ []) = some p.xid
last_xid (p ∷ q ∷ ps) = last_xid (q ∷ ps)

-- `while (xid > last_xid)`, which makes `xid - last_xid` rounds: dummies are put behind.
unfoldable pub fill_back : ℕ → ℕ → List Reply → List Reply
fill_back zero last l = l
fill_back (suc n) last l = fill_back n (suc last) (l ++ new_reply (suc last) ∷ [])

abbrev pub saved : Option Bytes → Verdict
saved none = inprogress
saved (some b) = done b

-- The search for `xid`, which marks a dummy as taken.
unfoldable pub claim : ℕ → List Reply → Verdict × List Reply
claim xid [] = (exited, [])
claim xid (p ∷ ps) =
    let rest = claim xid ps in
    if p.xid == xid
    then (if p.cb_present
        then (saved p.buf, p ∷ ps)
        else (new, record p { cb_present = true } ∷ ps))
    else (rest.0, p ∷ rest.1)

-- `reply_l->front().xid > xid`; the list is not empty where it is read.
abbrev pub starts_after : ℕ → List Reply → Bool
starts_after xid [] = false
starts_after xid (p ∷ ps) = ltb xid p.xid

-- The window with the gaps filled, `none` where the source reads `back()` of an empty list.
unfoldable pub filled : ℕ → ℕ → List Reply → Option (List Reply)
filled xid xid_rep l =
    let kept = drop_acked xid_rep l in
    let front = fill_front xid_rep (first_xid xid kept) kept in
    elim (last_xid front) [ none ↦ none | some last ↦ some (fill_back (xid - last) last front) ]

-- `checkduplicate_and_update` on the window of one client.
unfoldable pub check : ℕ → ℕ → List Reply → Verdict × List Reply
check xid xid_rep l = elim (filled xid xid_rep l) [
  | none ↦ (undefined, l)
  | some w ↦ if starts_after xid w then (forgotten, w) else claim xid w
]

-- The loop of `add_reply` on the window of one client.
unfoldable pub store : ℕ → Bytes → List Reply → List Reply
store xid b [] = []
store xid b (p ∷ ps) =
    let rest = store xid b ps in if p.xid == xid then record p { buf = some b } ∷ ps else p ∷ rest

-- `reply_window_`.
abbrev pub Windows : Type 0
Windows = Map ℕ (List Reply)

unfoldable pub checkduplicate_and_update : ℕ → ℕ → ℕ → Windows → Verdict × Windows
checkduplicate_and_update clt_nonce xid xid_rep ws =
    let (v, l) = check xid xid_rep (at clt_nonce [] ws) in (v, insert clt_nonce l ws)

unfoldable pub add_reply : ℕ → ℕ → Bytes → Windows → Windows
add_reply clt_nonce xid b ws = insert clt_nonce (store xid b (at clt_nonce [] ws)) ws

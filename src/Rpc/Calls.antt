-- ===== src/Rpc/Calls.antt =====
-- The client side of a call (`rpcc` of rpc/rpc.cc): request numbers, the table of pending calls,
-- and the window of numbers whose replies have been received, which a request header reports.
pub mod Window
pub mod Pending
mod Tests
use lab.Base.{
  ℕ, zero, suc, ◌+◌, ◌-◌, ◌%◌, ◌^◌, Bool, true, false, List, [], ◌∷◌, ◌++◌, ltb, leb, ◌==◌,
  if◌then◌else◌, nat_key,
}

-- `xid_rep_window_`. It starts as the list of 0 and is never empty: `front()` and the rest.
pub record XidWindow : Type 0 where
  pub front : ℕ
  pub rest : List ℕ

-- `std::list::insert` before the first larger number, or `push_back`.
unfoldable pub insert_xid : ℕ → List ℕ → List ℕ
insert_xid xid [] = xid ∷ []
insert_xid xid (y ∷ ys) =
    let more = insert_xid xid ys in if ltb xid y then xid ∷ y ∷ ys else y ∷ more

-- `x + 1` on `unsigned int`.
abbrev pub next_xid : ℕ → ℕ
next_xid x = if x == 2 ^ 32 - 1 then 0 else x + 1

-- `while (front() + 1 == *it) pop_front()`, where `*it` is `y` and `mid` stands before it.
unfoldable pub slide : ℕ → List ℕ → ℕ → XidWindow
slide f [] y =
    if next_xid f == y then record { front = y; rest = [] } else record { front = f; rest = y ∷ [] }
slide f (m ∷ ms) y =
    let popped = slide m ms y in
    if next_xid f == y then popped else record { front = f; rest = (m ∷ ms) ++ y ∷ [] }

unfoldable pub compress : ℕ → List ℕ → List ℕ → XidWindow
compress f mid [] = record { front = f; rest = mid }
compress f mid (y ∷ ys) = let w = slide f mid y in compress w.front w.rest ys

unfoldable pub update_xid_rep : ℕ → XidWindow → XidWindow
update_xid_rep xid w = if leb xid w.front then w else compress w.front [] (insert_xid xid w.rest)

-- `xid_`, `calls_` (the numbers of the pending calls) and the window.
pub record Client : Type 0 where
  pub xid : ℕ
  pub calls : List ℕ
  pub xid_rep_window : XidWindow

-- The constructor.
abbrev pub init : Client
init = record { xid = 1; calls = []; xid_rep_window = record { front = 0; rest = [] } }

-- The header fields of a request that depend on the client's state.
pub record Header : Type 0 where
  pub xid : ℕ
  pub xid_rep : ℕ

-- `call1` up to the first transmission.
unfoldable pub start_call : Client → Client × Header
start_call s = (
  record s { xid = next_xid s.xid; calls = s.calls ++ s.xid ∷ [] },
  record { xid = s.xid; xid_rep = s.xid_rep_window.front },
)

unfoldable pub erase_call : ℕ → List ℕ → List ℕ
erase_call x [] = []
erase_call x (y ∷ ys) = let more = erase_call x ys in if y == x then more else y ∷ more

-- `call1` after its last wait: the reply is there, or the time is up.
unfoldable pub finish_call : ℕ → Client → Client
finish_call x s = record s {
  calls = erase_call x s.calls;
  xid_rep_window = update_xid_rep x s.xid_rep_window;
}

-- `got_pdu` with a reply that has a good header.
unfoldable pub got_reply : ℕ → Client → Client
got_reply x s = record s { xid_rep_window = update_xid_rep x s.xid_rep_window }

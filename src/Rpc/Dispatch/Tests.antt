-- ===== src/Rpc/Dispatch/Tests.antt =====
-- The theorems on the server's dispatch at concrete inputs.
use lab.Base.{
  Bool, ℕ, ◌≤◌, ◌≡◌, refl, Option, none, some, [], ◌∷◌, ◌++◌, false, arith, nat_key, ◌==◌,
}
use lab.Base.Bytes.{Bytes}
use lab.Rpc.Marshal.{rpc_header_sz, get_u32, readable}
use lab.Rpc.Marshal.Laws.{cursor}
use lab.Rpc.Marshal.Header.{
  ReqHeader, pack_req_header, unpack_req_header, read_req_header, unpack-pack_req_header,
  pack_reply_header,
}
use lab.Rpc.Replies.{
  check, filled, drop_acked, fill_front, last_xid, fill_back, claim, checkduplicate_and_update,
  add_reply, store,
}
use lab.Rpc.Dispatch.{
  Rpcs, rpcs, running, answered, begin, begin_request, begin_known, by_verdict, finish, reply_conn,
  serve, serve_all, arrives, returns,
}
use lab.Rpc.Dispatch.Repeat.{IsRequest, started, answered_twice}
use lab.Rpc.Dispatch.Events.{looked_up}
use lab.Rpc.Dispatch.Trace.{runs, runs_at_most_once}
use lab.Base.Map.{lookup, insert}

-- Request 2 of client 9 for procedure 7.
abbrev header : ReqHeader
header = record { xid = 2; proc = 7; clt_nonce = 9; srv_nonce = 0; xid_rep = 0 }

abbrev blank : Bytes
blank = 0 ∷ 0 ∷ 0 ∷ 0 ∷ []

abbrev message : Bytes
message = pack_req_header header blank ++ 65 ∷ []

abbrev registered : ℕ → Bool
registered n = n == 7

abbrev alive : ℕ → Bool
alive c = false

is_header : unpack_req_header message ≡ some (header, cursor rpc_header_sz (65 ∷ []))
unfolding pack_req_header
is_header =
    unpack-pack_req_header header 0 0 0 0 [] (65 ∷ [])
      (record {
        xid_fits = omega arith;
        proc_fits = omega arith;
        clt_fits = omega arith;
        srv_fits = omega arith;
        rep_fits = omega arith;
      })
      (omega arith)

abbrev is_request : IsRequest registered message (rpcs 0 5)
is_request = record {
  h = header;
  req = cursor rpc_header_sz (65 ∷ []);
  unpacked = is_header;
  ok = refl;
  server = refl;
  there = refl;
  client = refl;
  unacked = omega arith;
}

-- The request comes again while its procedure is run, and once more after the procedure of another
-- client has returned.
abbrev other : ReqHeader
other = record { xid = 1; proc = 7; clt_nonce = 8; srv_nonce = 0; xid_rep = 0 }

abbrev state_of : Option Rpcs → Rpcs
state_of none = rpcs 0 5
state_of (some t) = t

abbrev sent : Bytes
sent = pack_reply_header (record { xid = 2; ret = 0 }) blank ++ 111 ∷ []

abbrev repeated : Rpcs
repeated =
    state_of
      (serve_all registered alive blank (arrives 4 message ∷ []) (started 1 header (rpcs 0 5)))

abbrev returned : Rpcs
returned = record repeated { reply_window_ = add_reply 9 2 sent repeated.reply_window_ }

abbrev later : Rpcs
later = state_of (serve_all registered alive blank (returns 3 other 0 [] ∷ []) returned)

answered_twice_example :
    (begin registered alive blank 1 message (rpcs 0 5)
      ≡ some (running header (cursor rpc_header_sz (65 ∷ [])), started 1 header (rpcs 0 5)))
    × (begin registered alive blank 2 message later
        ≡ some (answered ((2, sent) ∷ []), looked_up 2 header later))
unfolding rpcs lookup checkduplicate_and_update check filled drop_acked fill_front last_xid
    fill_back claim unpack_req_header read_req_header readable pack_req_header get_u32 serve_all
    serve begin begin_request begin_known by_verdict finish reply_conn add_reply store
    pack_reply_header insert
answered_twice_example =
    answered_twice registered alive blank 1 2 1 message (111 ∷ []) sent 0 (rpcs 0 5) repeated
      returned later (arrives 4 message ∷ []) (returns 3 other 0 [] ∷ []) is_request (0, tt) refl
      ((λ e. (omega arith, omega arith)), tt) ((λ e. omega arith), tt) refl refl refl

runs_at_most_once_example :
    runs registered alive blank 9 2
      (arrives 1 message
        ∷ arrives 3 message
        ∷ returns 1 header 0 (111 ∷ [])
        ∷ arrives 4 message
        ∷ [])
      (rpcs 0 5)
    ≤ 1
unfolding rpcs lookup unpack_req_header read_req_header readable pack_req_header get_u32
runs_at_most_once_example =
    runs_at_most_once registered alive blank 9 2
      (arrives 1 message
        ∷ arrives 3 message
        ∷ returns 1 header 0 (111 ∷ [])
        ∷ arrives 4 message
        ∷ [])
      (rpcs 0 5) refl (0, tt)
      (
        (λ e. (omega arith, omega arith)),
        ((λ e. (omega arith, omega arith)), (tt, ((λ e. (omega arith, omega arith)), tt))),
      )

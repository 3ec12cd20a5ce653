-- ===== src/Rpc/Dispatch.antt =====
-- What a server does with a request (rpc/rpc.cc). The threads of the pool work on several requests at
-- a time: `begin` is what `dispatch` does up to the call of the procedure, and `finish` what it does
-- after it; between the two anything can happen. A connection is a number, and `area` is what
-- the buffer of a reply holds at first in place of the header.
pub mod Events
pub mod Repeat
pub mod Trace
mod Tests
use lab.Base.{
  ℕ, ◌+◌, ◌-◌, ◌%◌, ◌^◌, Bool, true, false, ◌&&◌, ◌||◌, not, Option, none, some, List, [], ◌∷◌,
  ◌++◌, ◌==◌, if◌then◌else◌, nat_key, ltb,
}
use lab.Base.Bytes.{Bytes}
use lab.Base.Map.{Map, lookup, insert, at}
use lab.Rpc.Marshal.{Unmarshall}
use lab.Rpc.Marshal.Header.{ReqHeader, ReplyHeader, unpack_req_header, pack_reply_header}
use lab.Rpc.Replies.{
  Verdict, new, inprogress, done, forgotten, exited, undefined, Windows, checkduplicate_and_update,
  add_reply,
}

-- The results of `rpc_const`, as bit patterns.
abbrev pub unmarshal_args_failure : ℕ
unmarshal_args_failure = 2 ^ 32 - 2

abbrev pub atmostonce_failure : ℕ
atmostonce_failure = 2 ^ 32 - 4

abbrev pub oldsrv_failure : ℕ
oldsrv_failure = 2 ^ 32 - 5

-- The members that are state.
pub record Rpcs : Type 0 where
  pub nonce_ : ℕ
  pub reply_window_ : Windows
  pub conns_ : Map ℕ ℕ
  pub counting_ : ℕ
  pub curr_counts_ : ℕ
  pub counts_ : Map ℕ ℕ
  pub reachable_ : Bool

-- The constructor; `nonce` is the random number.
unfoldable pub rpcs : ℕ → ℕ → Rpcs
rpcs count nonce = record {
  nonce_ = nonce;
  reply_window_ = [];
  conns_ = [];
  counting_ = count;
  curr_counts_ = count;
  counts_ = [];
  reachable_ = true;
}

-- The handler that `bind` calls: its result and `r`.
unfoldable pub rpcbind : Rpcs → ℕ × ℕ
rpcbind s = (0, s.nonce_)

-- `reply_window_.clear()`, and the lists with it.
unfoldable pub free_reply_window : Rpcs → Rpcs
free_reply_window s = record s { reply_window_ = [] }

-- The counters are `int`.
unfoldable pub updatestat : ℕ → Rpcs → Rpcs
updatestat proc s =
    let left = (s.curr_counts_ + (2 ^ 32 - 1)) % 2 ^ 32 in
    record s {
      counts_ = insert proc ((at proc 0 s.counts_ + 1) % 2 ^ 32) s.counts_;
      curr_counts_ = (if left == 0 then s.counting_ else left);
    }

-- How far `dispatch` gets without the procedure: the replies that it sends, by connection, or
-- the procedure is to run.
pub data Begun : Type 0 where
  answered : List (ℕ × Bytes) → Begun
  running : ReqHeader → Unmarshall → Begun

-- What happens at the server: a message arrives on a connection, or the procedure that was run for
-- a request of connection and header returns its status and reply.
pub data Happening : Type 0 where
  arrives : ℕ → Bytes → Happening
  returns : ℕ → ReqHeader → ℕ → Bytes → Happening

abbrev pub counted : ℕ → Rpcs → Rpcs
counted proc s = if not (s.counting_ == 0) then updatestat proc s else s

abbrev pub new_request : ReqHeader → Unmarshall → Rpcs → Begun × Rpcs
new_request h req s = (running h req, counted h.proc s)

-- A reply that has only a header.
unfoldable pub failure : Bytes → ReqHeader → ℕ → Bytes
failure area h ret = pack_reply_header (record { xid = h.xid; ret = ret }) area

-- The `switch` on the state of the request; `none` is the end of the process.
unfoldable pub by_verdict :
    Bytes → ℕ → ReqHeader → Unmarshall → Verdict → Rpcs → Option (Begun × Rpcs)
by_verdict area c h req new s = some (new_request h req s)
by_verdict area c h req inprogress s = some (answered [], s)
by_verdict area c h req (done b) s = some (answered ((c, b) ∷ []), s)
by_verdict area c h req forgotten s =
    some (answered ((c, failure area h atmostonce_failure) ∷ []), s)
by_verdict area c h req exited s = none
by_verdict area c h req undefined s = none

-- The latest connection to the client is kept, and the request is looked up in the window; this
-- makes the entry of a client that is new.
unfoldable pub begin_known : Bytes → ℕ → ReqHeader → Unmarshall → Rpcs → Option (Begun × Rpcs)
begin_known area c h req s =
    let (v, ws) = checkduplicate_and_update h.clt_nonce h.xid h.xid_rep s.reply_window_ in
    by_verdict area c h req v
      (record s { reply_window_ = ws; conns_ = insert h.clt_nonce c s.conns_ })

unfoldable pub begin_request :
    (ℕ → Bool) → Bytes → ℕ → ReqHeader → Unmarshall → Rpcs → Option (Begun × Rpcs)
begin_request registered area c h req s =
    if not req.ok
    then some (answered [], s)
    else if not (h.srv_nonce == 0) && not (h.srv_nonce == s.nonce_)
    then some (answered ((c, failure area h oldsrv_failure) ∷ []), s)
    else if not (registered h.proc)
    then some (answered [], s)
    else if h.clt_nonce == 0
    then some (new_request h req s)
    else begin_known area c h req s

-- The connection that the reply goes to. A client without at-most-once logic has no entry: where
-- its connection is dead, a null pointer is followed, which is `none`.
unfoldable pub reply_conn : (ℕ → Bool) → ℕ → ℕ → Map ℕ ℕ → Option ℕ
reply_conn dead c clt_nonce conns = if dead c then lookup clt_nonce conns else some c

-- What follows the procedure, which returned `ret` and wrote `rep`.
unfoldable pub finish :
    (ℕ → Bool) → Bytes → ℕ → ReqHeader → ℕ → Bytes → Rpcs → Option ((ℕ × Bytes) × Rpcs)
finish dead area c h ret rep s =
    let b1 = pack_reply_header (record { xid = h.xid; ret = ret }) area ++ rep in
    let s' =
      if ltb 0 h.clt_nonce
      then record s { reply_window_ = add_reply h.clt_nonce h.xid b1 s.reply_window_ }
      else s in
    if not (ltb ret (2 ^ 31) || ret == unmarshal_args_failure)
    then none
    else elim (reply_conn dead c h.clt_nonce s.conns_) [ none ↦ none | some k ↦ some ((k, b1), s') ]

-- `registered` says whether there is a procedure of a number, `dead` whether a connection is dead.
module _ (registered : ℕ → Bool) (dead : ℕ → Bool) (area : Bytes) where
  unfoldable pub begin : ℕ → Bytes → Rpcs → Option (Begun × Rpcs)
  begin c message s = elim (unpack_req_header message) [
    | none ↦ none
    | some (h, req) ↦ begin_request registered area c h req s
  ]

  -- `none` is the end of the process.
  unfoldable pub serve : Happening → Rpcs → Option (Begun × Rpcs)
  serve (arrives c message) s = begin c message s
  serve (returns c h ret rep) s = elim (finish dead area c h ret rep s) [
    | none ↦ none
    | some (out, t) ↦ some (answered (out ∷ []), t)
  ]

  -- The state after all that happens.
  unfoldable pub serve_all : List Happening → Rpcs → Option Rpcs
  serve_all [] s = some s
  serve_all (e ∷ es) s = elim (serve e s) [ none ↦ none | some (b, t) ↦ serve_all es t ]

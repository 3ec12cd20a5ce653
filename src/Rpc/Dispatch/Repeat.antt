-- ===== src/Rpc/Dispatch/Repeat.antt =====
-- A request that comes again at the server.
use lab.Base.{
  ℕ, ◌<◌, ◌≡◌, ◌≢◌, refl, ap, ◌∙◌, Bool, true, false, ◌&&◌, ◌||◌, not, some, List, [], ◌∷◌, All,
  arith, ◌==◌, nat_key, ltb, if◌then◌else◌,
}
use lab.Base.Bytes.{Bytes}
use lab.Base.Map.{at}
use lab.Rpc.Marshal.{Unmarshall}
use lab.Rpc.Marshal.Header.{ReqHeader, unpack_req_header}
use lab.Rpc.Replies.{new, done, check, Windows, checkduplicate_and_update, add_reply}
use lab.Rpc.Replies.Window.{check_lem}
use lab.Rpc.Replies.AtMostOnce.{check_new}
use lab.Rpc.Replies.Trace.{reply, step, IsWindow, Taken, at-insert_self}
use lab.Rpc.Replies.Held.{steps, IsQuiet, Taken-steps}
use lab.Rpc.Replies.Repeat.{repeated_gets_reply}
use lab.Rpc.Dispatch.{
  Rpcs, running, answered, begin_known, begin_request, begin, by_verdict, finish, counted,
  Happening, arrives, returns, serve_all,
}
use lab.Rpc.Dispatch.Events.{
  MessageUnacked, Allowed, serve_all_traced, counted_lem, looked_up, ended, finish_windows,
}

module _ (registered : ℕ → Bool) where
  -- A message with a request that the server takes: of a client with at-most-once logic, for
  -- this instance of the server or for any, and for a procedure that is registered.
  pub record IsRequest (message : Bytes) (s : Rpcs) : Type 0 where
    pub h : ReqHeader
    pub req : Unmarshall
    pub unpacked : unpack_req_header message ≡ some (h, req)
    pub ok : req.ok ≡ true
    pub server : (h.srv_nonce == 0 || h.srv_nonce == s.nonce_) ≡ true
    pub there : registered h.proc ≡ true
    pub client : ltb 0 h.clt_nonce ≡ true
    pub unacked : h.xid_rep < h.xid

  begin-IsRequest :
      (dead : ℕ → Bool) (area : Bytes) (c : ℕ) (message : Bytes) (s : Rpcs)
      (x : IsRequest message s)
      → begin registered dead area c message s ≡ begin_known area c x.h x.req s
  unfolding begin begin_request
  begin-IsRequest dead area c message s x =
      let guard : (not (x.h.srv_nonce == 0) && not (x.h.srv_nonce == s.nonce_)) ≡ false =
        ground (arith, x.server) in
      let some_client : (x.h.clt_nonce == 0) ≡ false = ground (arith, x.client) in
      rw (x.unpacked, begin) (simp (begin_request, x.ok, guard, x.there, some_client))

taken :
    (n x r : ℕ) (ws : Windows)
    → IsWindow n ws
    → r < x
    → (checkduplicate_and_update n x r ws).0 ≡ new
    → IsWindow n (checkduplicate_and_update n x r ws).1
      × Taken x (at n [] (checkduplicate_and_update n x r ws).1)
unfolding checkduplicate_and_update
taken n x r ws (a, k) h e =
    rw (at-insert_self n (check x r (at n [] ws)).1 ws)
      ((r, (check_lem x r a (at n [] ws) h k).1), check_new x r a (at n [] ws) h k e)

begin_known_new :
    (area : Bytes) (c : ℕ) (h : ReqHeader) (req : Unmarshall) (s : Rpcs)
    → (checkduplicate_and_update h.clt_nonce h.xid h.xid_rep s.reply_window_).0 ≡ new
    → begin_known area c h req s ≡ some (running h req, counted h.proc (looked_up c h s))
unfolding begin_known by_verdict
begin_known_new area c h req s e = ap (λ v. by_verdict area c h req v (looked_up c h s)) e

begin_known_done :
    (area : Bytes) (c : ℕ) (h : ReqHeader) (req : Unmarshall) (s : Rpcs) (b : Bytes)
    → (checkduplicate_and_update h.clt_nonce h.xid h.xid_rep s.reply_window_).0 ≡ done b
    → begin_known area c h req s ≡ some (answered ((c, b) ∷ []), looked_up c h s)
unfolding begin_known by_verdict
begin_known_done area c h req s b e = ap (λ v. by_verdict area c h req v (looked_up c h s)) e

stored : (c x : ℕ) (b : Bytes) (ws : Windows) → steps (reply c x b ∷ []) ws ≡ add_reply c x b ws
unfolding step
stored c x b ws = refl

-- The state once the procedure is started.
abbrev pub started : ℕ → ReqHeader → Rpcs → Rpcs
started c h s = counted h.proc (looked_up c h s)

-- No reply to the request of header `h`, and no message of its client that acknowledges it or itself.
abbrev pub HappensQuiet : ReqHeader → Happening → Type 0
HappensQuiet h (arrives k m) = MessageUnacked h.clt_nonce h.xid m
HappensQuiet h (returns k g ret rep) = g.clt_nonce ≡ h.clt_nonce → g.xid ≢ h.xid

module _ (registered : ℕ → Bool) (dead : ℕ → Bool) (area : Bytes) where
  AllQuiet-Allowed :
      (h : ReqHeader) (es : List Happening)
      → All (HappensQuiet h) es
      → All
          (Allowed h.clt_nonce h.xid
            (IsQuiet h.clt_nonce h.xid)
            (λ d y r u. u)
            registered
            dead
            area)
          es
  AllQuiet-Allowed h [] u = tt
  AllQuiet-Allowed h (arrives k m ∷ es) (u, us) = (u, AllQuiet-Allowed h es us)
  AllQuiet-Allowed h (returns k g ret rep ∷ es) (u, us) = (λ b known. u, AllQuiet-Allowed h es us)

  -- A request that is found new is started; whatever happens then, its procedure returns, and its
  -- reply `b` is sent; whatever happens after that, when the request comes again, on any connection,
  -- the same bytes are sent on that connection and nothing is executed. What happens in between, while
  -- the procedure is run and afterwards, is any sequence of messages and of returns of procedures
  -- that do not end the process: no message of the client acknowledges the request or itself, and no
  -- other return is one of this request. The window of the client has consecutive numbers at first.
  pub answered_twice :
      (c c' j : ℕ) (message rep b : Bytes) (ret : ℕ) (s t t' u : Rpcs) (es fs : List Happening)
      → (x : IsRequest registered message s) → IsWindow x.h.clt_nonce s.reply_window_
      → (checkduplicate_and_update x.h.clt_nonce x.h.xid x.h.xid_rep s.reply_window_).0 ≡ new
      → All (HappensQuiet x.h) es
      → All (HappensQuiet x.h) fs
      → serve_all registered dead area es (started c x.h s) ≡ some t
      → finish dead area c x.h ret rep t ≡ some ((j, b), t')
      → serve_all registered dead area fs t' ≡ some u
      → (begin registered dead area c message s ≡ some (running x.h x.req, started c x.h s))
        × (begin registered dead area c' message u
            ≡ some (answered ((c', b) ∷ []), looked_up c' x.h u))
  answered_twice c c' j message rep b ret s t t' u es fs x w fresh p q runs ends rest =
      let h = x.h in
      let n = h.clt_nonce in
      let s1 = looked_up c h s in
      let keeps = counted_lem h.proc s1 in
      let (evs, ep, ew, en) =
        serve_all_traced n h.xid (IsQuiet n h.xid) (λ d y r u. u) registered dead area es
          (started c h s) t x.client (AllQuiet-Allowed h es p) runs in
      let (fvs, fp, fw, fn) =
        serve_all_traced n h.xid (IsQuiet n h.xid) (λ d y r u. u) registered dead area fs t' u
          x.client (AllQuiet-Allowed h fs q) rest in
      let (ow, on) = finish_windows dead area c h ret rep t t' (j, b) ends in
      let ws = (checkduplicate_and_update n h.xid h.xid_rep s.reply_window_).1 in
      let (k, held) = taken n h.xid h.xid_rep s.reply_window_ w x.unacked fresh in
      let (k', held') = Taken-steps n h.xid evs ws ep k held in
      let one : ended h b ≡ reply n h.xid b ∷ [] =
        ap (λ (z : Bool). if z then reply n h.xid b ∷ [] else []) x.client in
      let windows : u.reply_window_ ≡ steps fvs (add_reply n h.xid b (steps evs ws)) =
        fw
        ∙ ap (steps fvs) (
            ow
            ∙ ap (λ l. steps l t.reply_window_) one
            ∙ stored n h.xid b t.reply_window_
            ∙ ap (add_reply n h.xid b) (ew ∙ ap (steps evs) keeps.0)) in
      let again : (checkduplicate_and_update n h.xid h.xid_rep u.reply_window_).0 ≡ done b =
        ap (λ z. (checkduplicate_and_update n h.xid h.xid_rep z).0) windows
        ∙ repeated_gets_reply n h.xid h.xid_rep b fvs (steps evs ws) k' held' fp x.unacked in
      let nonce : u.nonce_ ≡ s.nonce_ = fn ∙ on ∙ en ∙ keeps.2 in
      let y : IsRequest registered message u = record {
        h = h;
        req = x.req;
        unpacked = x.unpacked;
        ok = x.ok;
        server = ap (λ i. (h.srv_nonce == 0 || h.srv_nonce == i)) nonce ∙ x.server;
        there = x.there;
        client = x.client;
        unacked = x.unacked;
      } in
      (
        begin-IsRequest registered dead area c message s x ∙ begin_known_new area c h x.req s fresh,
        begin-IsRequest registered dead area c' message u y
            ∙ begin_known_done area c' h x.req u b again,
      )

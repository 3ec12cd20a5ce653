-- ===== src/Rpc/Dispatch/Events.antt =====
-- What happens at a server as events of its reply windows.
use lab.Base.{
  ℕ, ◌+◌, ◌^◌, ◌≤◌, ◌<◌, ◌≡◌, refl, sym, ap, ◌∙◌, inl, inr, Bool, true, ◌&&◌, ◌||◌, not, Option,
  none, some, List, [], ◌∷◌, ◌++◌, All, some_inj, arith, ◌==◌, if◌then◌else◌, nat_key, ltb,
  Bool-cases, Option-cases,
}
use lab.Base.Bytes.{Bytes}
use lab.Base.Map.{insert}
use lab.Rpc.Marshal.{Unmarshall}
use lab.Rpc.Marshal.Header.{ReqHeader, unpack_req_header, pack_reply_header}
use lab.Rpc.Replies.{
  Verdict, new, inprogress, done, forgotten, exited, undefined, Windows, checkduplicate_and_update,
  add_reply,
}
use lab.Rpc.Replies.Trace.{Event, request, reply, step, starts, executions}
use lab.Rpc.Replies.Held.{steps}
use lab.Rpc.Dispatch.{
  Rpcs, Begun, running, answered, begin_known, begin_request, begin, by_verdict, finish, reply_conn,
  unmarshal_args_failure, counted, updatestat, Happening, arrives, returns, serve, serve_all,
}

pub counted_lem :
    (proc : ℕ) (s : Rpcs)
    → ((counted proc s).reply_window_ ≡ s.reply_window_)
      × ((counted proc s).conns_ ≡ s.conns_)
      × ((counted proc s).nonce_ ≡ s.nonce_)
unfolding updatestat
counted_lem proc s = elim (Bool-cases (s.counting_ == 0)) [
  | inl off ↦ rw off (refl, refl, refl)
  | inr on ↦ rw on (refl, refl, refl)
]

-- The state once the request is looked up.
abbrev pub looked_up : ℕ → ReqHeader → Rpcs → Rpcs
looked_up c h s = record s {
  reply_window_ = (checkduplicate_and_update h.clt_nonce h.xid h.xid_rep s.reply_window_).1;
  conns_ = insert h.clt_nonce c s.conns_;
}

-- 1 where the procedure is run for request `x` of client `c`.
abbrev pub ran : ℕ → ℕ → Begun → ℕ
ran c x (answered out) = 0
ran c x (running h req) = if h.clt_nonce == c && h.xid == x then 1 else 0

-- A request of client `c` acknowledges neither `x` nor itself.
abbrev pub HeaderUnacked : ℕ → ℕ → ReqHeader → Type 0
HeaderUnacked c x h = h.clt_nonce ≡ c → (h.xid_rep < x) × (h.xid_rep < h.xid)

abbrev pub MessageUnacked : ℕ → ℕ → Bytes → Type 0
MessageUnacked c x m = elim (unpack_req_header m) [
  | none ↦ Unit
  | some (h, req) ↦ HeaderUnacked c x h
]

-- The start `o` runs the procedure no more often than the events do, and leaves their windows, and the nonce `n`.
abbrev pub Matches : ℕ → ℕ → ℕ → Windows → List Event → Option (Begun × Rpcs) → Type 0
Matches c x n ws es none = Unit
Matches c x n ws es (some (e, t)) =
    (ran c x e ≤ executions c x es ws) × (t.reply_window_ ≡ steps es ws) × (t.nonce_ ≡ n)

by_verdict-Matches :
    (c x : ℕ) (area : Bytes) (k : ℕ) (h : ReqHeader) (req : Unmarshall) (v : Verdict) (s : Rpcs)
    (ws : Windows)
    → (checkduplicate_and_update h.clt_nonce h.xid h.xid_rep ws) ≡ (v, s.reply_window_)
    → Matches c x s.nonce_ ws
        (request h.clt_nonce h.xid h.xid_rep ∷ [])
        (by_verdict area k h req v s)
unfolding by_verdict executions starts step
by_verdict-Matches c x area k h req new s ws e = (
  ground (arith, ap (λ (r : Verdict × Windows). r.0) e),
  (counted_lem h.proc s).0 ∙ sym (ap (λ (r : Verdict × Windows). r.1) e),
  (counted_lem h.proc s).2,
)
by_verdict-Matches c x area k h req inprogress s ws e =
    (omega arith, sym (ap (λ (r : Verdict × Windows). r.1) e), refl)
by_verdict-Matches c x area k h req (done b) s ws e =
    (omega arith, sym (ap (λ (r : Verdict × Windows). r.1) e), refl)
by_verdict-Matches c x area k h req forgotten s ws e =
    (omega arith, sym (ap (λ (r : Verdict × Windows). r.1) e), refl)
by_verdict-Matches c x area k h req exited s ws e = tt
by_verdict-Matches c x area k h req undefined s ws e = tt

pub executions-append :
    (c x : ℕ) (es fs : List Event) (ws : Windows)
    → executions c x (es ++ fs) ws ≡ executions c x es ws + executions c x fs (steps es ws)
unfolding executions
executions-append c x [] fs ws = omega arith
executions-append c x (e ∷ es) fs ws = omega (arith, executions-append c x es fs (step e ws))

pub steps-append :
    (es fs : List Event) (ws : Windows) → steps (es ++ fs) ws ≡ steps fs (steps es ws)
steps-append [] fs ws = refl
steps-append (e ∷ es) fs ws = steps-append es fs (step e ws)

pub All-append : (P : Event → Type 0) (es fs : List Event) → All P es → All P fs → All P (es ++ fs)
All-append P [] fs u v = v
All-append P (e ∷ es) fs (w, u) v = (w, All-append P es fs u v)

-- The event that the end of a procedure is.
abbrev pub ended : ReqHeader → Bytes → List Event
ended h b = if ltb 0 h.clt_nonce then reply h.clt_nonce h.xid b ∷ [] else []

pub finish_windows :
    (dead : ℕ → Bool) (area : Bytes) (k : ℕ) (h : ReqHeader) (ret : ℕ) (rep : Bytes) (s t : Rpcs)
    (out : ℕ × Bytes)
    → finish dead area k h ret rep s ≡ some (out, t)
    → (t.reply_window_ ≡ steps (ended h out.1) s.reply_window_) × (t.nonce_ ≡ s.nonce_)
unfolding finish step
finish_windows dead area k h ret rep s t out e =
    elim (Bool-cases (ltb ret (2 ^ 31) || ret == unmarshal_args_failure)) [
      | inr bad ↦ absurd (cc (rw bad at e))
      | inl good ↦ elim (Option-cases (reply_conn dead k h.clt_nonce s.conns_)) [
        | inl null ↦ absurd (cc (rw (good, null) at e))
        | inr (j, found) ↦
            let p = some_inj (rw (good, found) at e) in
            (
              sym (ap (λ (q : (ℕ × Bytes) × Rpcs). q.1.reply_window_) p)
                  ∙ stored
                  ∙ ap (λ (q : (ℕ × Bytes) × Rpcs). steps (ended h q.0.1) s.reply_window_) p,
              sym (ap (λ (q : (ℕ × Bytes) × Rpcs). q.1.nonce_) p) ∙ same,
            )
      ]
    ]
  where
    b1 : Bytes
    b1 = pack_reply_header (record { xid = h.xid; ret = ret }) area ++ rep

    stored :
        (if ltb 0 h.clt_nonce
          then record s { reply_window_ = add_reply h.clt_nonce h.xid b1 s.reply_window_ }
          else s).reply_window_
        ≡ steps (ended h b1) s.reply_window_
    stored = elim (Bool-cases (ltb 0 h.clt_nonce)) [
      | inl known ↦ rw known refl
      | inr anonymous ↦ rw anonymous refl
    ]

    same :
        (if ltb 0 h.clt_nonce
          then record s { reply_window_ = add_reply h.clt_nonce h.xid b1 s.reply_window_ }
          else s).nonce_
        ≡ s.nonce_
    same = elim (Bool-cases (ltb 0 h.clt_nonce)) [
      | inl known ↦ rw known refl
      | inr anonymous ↦ rw anonymous refl
    ]

-- `P` is what is asked of the events; a request that acknowledges neither `x` nor itself has it.
module _ (c x : ℕ) (P : Event → Type 0)
    (asks : (d y r : ℕ) → (d ≡ c → (r < x) × (r < y)) → P (request d y r)) where
  abbrev pub Traced : ℕ → Windows → Option (Begun × Rpcs) → Type 0
  Traced n ws o = (es : List Event) × All P es × Matches c x n ws es o

  begin_known-Traced :
      (area : Bytes) (k : ℕ) (h : ReqHeader) (req : Unmarshall) (s : Rpcs)
      → HeaderUnacked c x h
      → Traced s.nonce_ s.reply_window_ (begin_known area k h req s)
  unfolding begin_known
  begin_known-Traced area k h req s u = (
    request h.clt_nonce h.xid h.xid_rep ∷ [],
    (asks h.clt_nonce h.xid h.xid_rep u, tt),
    by_verdict-Matches c x area k h req
        (checkduplicate_and_update h.clt_nonce h.xid h.xid_rep s.reply_window_).0 (looked_up k h s)
        s.reply_window_ refl,
  )

  begin_request-Traced :
      (known_proc : ℕ → Bool) (area : Bytes) (k : ℕ) (h : ReqHeader) (req : Unmarshall) (s : Rpcs)
      → ltb 0 c ≡ true
      → HeaderUnacked c x h
      → Traced s.nonce_ s.reply_window_ (begin_request known_proc area k h req s)
  unfolding begin_request
  begin_request-Traced known_proc area k h req s known u =
      let idle : Traced s.nonce_ s.reply_window_ (some (answered [], s)) =
        ([], tt, (omega arith, refl, refl)) in
      elim (Bool-cases req.ok) [
        | inr bad ↦ simp (bad) idle
        | inl ok ↦ elim (Bool-cases (not (h.srv_nonce == 0) && not (h.srv_nonce == s.nonce_))) [
          | inl old ↦ rw (ok, old) ([], tt, (omega arith, refl, refl))
          | inr here ↦ elim (Bool-cases (known_proc h.proc)) [
            | inr unknown ↦ rw (ok, here, unknown) idle
            | inl there ↦ elim (Bool-cases (h.clt_nonce == 0)) [
              | inl anonymous ↦
                  rw (ok, here, there, anonymous)
                    ([], tt, (ground arith, (counted_lem h.proc s).0, (counted_lem h.proc s).2))
              | inr client ↦ simp (ok, here, there, client) (begin_known-Traced area k h req s u)
            ]
          ]
        ]
      ]

  module _ (registered : ℕ → Bool) (dead : ℕ → Bool) (area : Bytes) where
    -- What is asked of what happens: a reply is one that has `P`.
    abbrev pub Allowed : Happening → Type 0
    Allowed (arrives k m) = MessageUnacked c x m
    Allowed (returns k h ret rep) =
        (b : Bytes) → ltb 0 h.clt_nonce ≡ true → P (reply h.clt_nonce h.xid b)

    ended-All :
        (h : ReqHeader) (b : Bytes)
        → (ltb 0 h.clt_nonce ≡ true → P (reply h.clt_nonce h.xid b))
        → All P (ended h b)
    ended-All h b p = elim (Bool-cases (ltb 0 h.clt_nonce)) [
      | inl known ↦ rw known (p known, tt)
      | inr anonymous ↦ rw anonymous tt
    ]

    pub serve-Traced :
        (e : Happening) (s : Rpcs)
        → ltb 0 c ≡ true
        → Allowed e
        → Traced s.nonce_ s.reply_window_ (serve registered dead area e s)
    unfolding serve begin
    serve-Traced (arrives k m) s known u = elim (Option-cases (unpack_req_header m)) [
      | inl short ↦ rw (serve, begin, short) ([], tt, tt)
      | inr ((h, req), e) ↦
          rw (serve, begin, e)
            (begin_request-Traced registered area k h req s known (rw (e, MessageUnacked) at u))
    ]
    serve-Traced (returns k h ret rep) s known u =
        elim (Option-cases (finish dead area k h ret rep s)) [
          | inl ends ↦ rw (serve, ends) ([], tt, tt)
          | inr ((out, t), f) ↦
              let (w, n) = finish_windows dead area k h ret rep s t out f in
              rw (serve, f) (ended h out.1, ended-All h out.1 (u out.1), (omega arith, w, n))
        ]

    -- All that happens together is a sequence of events of the windows.
    pub serve_all_traced :
        (es : List Happening) (s t : Rpcs)
        → ltb 0 c ≡ true
        → All Allowed es
        → serve_all registered dead area es s ≡ some t
        → (fs : List Event) × All P fs
          × (t.reply_window_ ≡ steps fs s.reply_window_)
          × (t.nonce_ ≡ s.nonce_)
    unfolding serve_all
    serve_all_traced [] s t known u e = (
      [],
      tt,
      ap (λ (r : Rpcs). r.reply_window_) (sym (some_inj e)),
      ap (λ (r : Rpcs). r.nonce_) (sym (some_inj e)),
    )
    serve_all_traced (d ∷ es) s t known (u, us) e =
        let (fs, p, m) = serve-Traced d s known u in
        elim (Option-cases (serve registered dead area d s)) [
          | inl ends ↦ absurd (cc (rw (ends, serve_all) at e))
          | inr ((b, t'), f) ↦
              let m' : Matches c x s.nonce_ s.reply_window_ fs (some (b, t')) = rw f at m in
              let (gs, q, w, n) = serve_all_traced es t' t known us (rw (f, serve_all) at e) in
              (
                fs ++ gs,
                All-append P fs gs p q,
                w ∙ ap (steps gs) m'.1 ∙ sym (steps-append fs gs s.reply_window_),
                n ∙ m'.2,
              )
        ]

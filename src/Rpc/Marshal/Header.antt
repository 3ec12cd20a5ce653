-- ===== src/Rpc/Marshal/Header.antt =====
-- The headers of requests and replies, which are packed into the space before the body.
use lab.Base.{
  ℕ, ◌+◌, ◌*◌, ◌/◌, ◌%◌, ◌^◌, ◌<◌, ◌≡◌, ap, ◌∙◌, subst, true, Option, some, ◌∷◌, ◌++◌, length, take,
  drop, drop-append, arith,
}
use lab.Base.Bytes.{Bytes}
use lab.Rpc.Marshal.{Unmarshall, Get, ◌>>=◌, get_u32, rpc_header_sz, readable}
use lab.Rpc.Marshal.Laws.{cursor, u32_bytes}

-- `req_header`.
pub record ReqHeader : Type 0 where
  pub xid : ℕ
  pub proc : ℕ
  pub clt_nonce : ℕ
  pub srv_nonce : ℕ
  pub xid_rep : ℕ

-- `reply_header`.
pub record ReplyHeader : Type 0 where
  pub xid : ℕ
  pub ret : ℕ

abbrev req_bytes : ReqHeader → Bytes
req_bytes h =
    u32_bytes h.xid
    ++ (u32_bytes h.proc
        ++ (u32_bytes h.clt_nonce ++ (u32_bytes h.srv_nonce ++ u32_bytes h.xid_rep)))

abbrev reply_bytes : ReplyHeader → Bytes
reply_bytes h = u32_bytes h.xid ++ u32_bytes h.ret

-- The 24 bytes before the body: the first four are left for the channel.
unfoldable pub pack_req_header : ReqHeader → Bytes → Bytes
pack_req_header h area = take 4 area ++ req_bytes h

unfoldable pub pack_reply_header : ReplyHeader → Bytes → Bytes
pack_reply_header h area = take 4 area ++ (reply_bytes h ++ drop 12 area)

-- `_ind = RPC_HEADER_SZ`, in a message that starts at position 0.
abbrev seek : Bytes → ℕ → Unmarshall → Unmarshall
seek message i u = record u { ind = i; rest = drop i message }

unfoldable pub read_req_header : Bytes → Option (ReqHeader × Unmarshall)
read_req_header message = read (cursor 4 (drop 4 message))
  where
    read : Get ReqHeader
    read = do
      xid ← get_u32
      proc ← get_u32
      clt_nonce ← get_u32
      srv_nonce ← get_u32
      xid_rep ← get_u32
      λ u. some (
        record {
          xid = xid;
          proc = proc;
          clt_nonce = clt_nonce;
          srv_nonce = srv_nonce;
          xid_rep = xid_rep;
        },
        seek message rpc_header_sz u,
      )

unfoldable pub unpack_req_header : Bytes → Option (ReqHeader × Unmarshall)
unpack_req_header message = read_req_header (readable message)

unfoldable pub read_reply_header : Bytes → Option (ReplyHeader × Unmarshall)
read_reply_header message = read (cursor 4 (drop 4 message))
  where
    read : Get ReplyHeader
    read = do
      xid ← get_u32
      ret ← get_u32
      λ u. some (record { xid = xid; ret = ret }, seek message rpc_header_sz u)

unfoldable pub unpack_reply_header : Bytes → Option (ReplyHeader × Unmarshall)
unpack_reply_header message = read_reply_header (readable message)

pub record ReqFits (h : ReqHeader) : Type 0 where
  pub xid_fits : h.xid < 2 ^ 32
  pub proc_fits : h.proc < 2 ^ 32
  pub clt_fits : h.clt_nonce < 2 ^ 32
  pub srv_fits : h.srv_nonce < 2 ^ 32
  pub rep_fits : h.xid_rep < 2 ^ 32

word :
    (x : ℕ)
    → x < 2 ^ 32
    → x / 2 ^ 24 % 256 % 256 * 2 ^ 24
        + x / 2 ^ 16 % 256 % 256 * 2 ^ 16
        + x / 2 ^ 8 % 256 % 256 * 2 ^ 8
        + x % 256 % 256
      ≡ x
word x h = omega arith

read-pack_req_header :
    (h : ReqHeader) (a b c d : ℕ) (rest body : Bytes)
    → ReqFits h
    → read_req_header (pack_req_header h (a ∷ b ∷ c ∷ d ∷ rest) ++ body)
      ≡ some (h, cursor rpc_header_sz body)
unfolding read_req_header pack_req_header get_u32
read-pack_req_header h a b c d rest body f = λ i. some (
  record {
    xid = word h.xid f.xid_fits i;
    proc = word h.proc f.proc_fits i;
    clt_nonce = word h.clt_nonce f.clt_fits i;
    srv_nonce = word h.srv_nonce f.srv_fits i;
    xid_rep = word h.xid_rep f.rep_fits i;
  },
  cursor rpc_header_sz body,
)

-- A request header of 32-bit fields that was packed before a body, in a message below 2 GB, is unpacked, and the cursor
-- stands before the body.
pub unpack-pack_req_header :
    (h : ReqHeader) (a b c d : ℕ) (rest body : Bytes)
    → ReqFits h
    → length (pack_req_header h (a ∷ b ∷ c ∷ d ∷ rest) ++ body) < 2 ^ 31
    → unpack_req_header (pack_req_header h (a ∷ b ∷ c ∷ d ∷ rest) ++ body)
      ≡ some (h, cursor rpc_header_sz body)
unfolding unpack_req_header readable
unpack-pack_req_header h a b c d rest body f small =
    let e : readable (pack_req_header h (a ∷ b ∷ c ∷ d ∷ rest) ++ body)
        ≡ (pack_req_header h (a ∷ b ∷ c ∷ d ∷ rest) ++ body) =
      ground (arith, small) in
    ap read_req_header e ∙ read-pack_req_header h a b c d rest body f

read-pack_reply_header :
    (h : ReplyHeader) (a b c d e f g j k l m n : ℕ) (rest body : Bytes)
    → length rest ≡ 12
    → h.xid < 2 ^ 32
    → h.ret < 2 ^ 32
    → read_reply_header
        (pack_reply_header h (a ∷ b ∷ c ∷ d ∷ e ∷ f ∷ g ∷ j ∷ k ∷ l ∷ m ∷ n ∷ rest) ++ body)
      ≡ some (h, cursor rpc_header_sz body)
unfolding read_reply_header pack_reply_header get_u32
read-pack_reply_header h a b c d e f g j k l m n rest body size p q =
    let skip : drop 12 (rest ++ body) ≡ body =
      subst (λ (s : ℕ). drop s (rest ++ body) ≡ body) size (drop-append rest body) in
    λ i. some (
      record { xid = word h.xid p i; ret = word h.ret q i },
      record { ind = rpc_header_sz; rest = skip i; ok = true },
    )

-- A reply header of 32-bit fields that was packed into 24 bytes before a body, in a message below 2 GB, is unpacked, and
-- the cursor stands before the body.
pub unpack-pack_reply_header :
    (h : ReplyHeader) (a b c d e f g j k l m n : ℕ) (rest body : Bytes)
    → length rest ≡ 12
    → h.xid < 2 ^ 32
    → h.ret < 2 ^ 32
    → length (pack_reply_header h (a ∷ b ∷ c ∷ d ∷ e ∷ f ∷ g ∷ j ∷ k ∷ l ∷ m ∷ n ∷ rest) ++ body)
      < 2 ^ 31
    → unpack_reply_header
        (pack_reply_header h (a ∷ b ∷ c ∷ d ∷ e ∷ f ∷ g ∷ j ∷ k ∷ l ∷ m ∷ n ∷ rest) ++ body)
      ≡ some (h, cursor rpc_header_sz body)
unfolding unpack_reply_header readable
unpack-pack_reply_header h a b c d e f g j k l m n rest body size p q small =
    let whole : readable
          (pack_reply_header h (a ∷ b ∷ c ∷ d ∷ e ∷ f ∷ g ∷ j ∷ k ∷ l ∷ m ∷ n ∷ rest) ++ body)
        ≡ (pack_reply_header h (a ∷ b ∷ c ∷ d ∷ e ∷ f ∷ g ∷ j ∷ k ∷ l ∷ m ∷ n ∷ rest) ++ body) =
      ground (arith, small) in
    ap read_reply_header whole ∙ read-pack_reply_header h a b c d e f g j k l m n rest body size p q

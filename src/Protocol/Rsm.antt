-- ===== src/Protocol/Rsm.antt =====
-- The messages of the replicated state machine (rsm_protocol.h).
use lab.Base.{ℕ, ◌+◌, ◌^◌, ◌<◌, ◌≡◌, ◌++◌, append_assoc, length, some}
use lab.Base.Bytes.{Bytes}
use lab.Rpc.Marshal.{Marshall, Get, ◌>>=◌, return, put_u32, put_string, get_u32, get_string}
use lab.Rpc.Marshal.Laws.{Wire, cursor, u32, string, get_part, get_last, u32_put, string_put}

-- `viewstamp`: a view and the number of a request in it.
pub record Viewstamp : Type 0 where
  pub vid : ℕ
  pub seqno : ℕ

unfoldable pub put_viewstamp : Viewstamp → Marshall → Marshall
put_viewstamp a m = put_u32 a.seqno (put_u32 a.vid m)

unfoldable pub get_viewstamp : Get Viewstamp
get_viewstamp = do vid ← get_u32; seqno ← get_u32; return (record { vid = vid; seqno = seqno })

abbrev pub ViewstampFits : Viewstamp → Type 0
ViewstampFits a = (a.vid < 2 ^ 32) × (a.seqno < 2 ^ 32)

abbrev viewstamp_bytes : Viewstamp → Bytes
viewstamp_bytes a = u32.bytes a.vid ++ u32.bytes a.seqno

pub put_viewstamp_lem :
    (a : Viewstamp) (m : Marshall) → (put_viewstamp a m).body ≡ m.body ++ viewstamp_bytes a
unfolding put_viewstamp
put_viewstamp_lem a m = simp (u32_put, append_assoc)

pub get_viewstamp_lem :
    (a : Viewstamp) (i : ℕ) (r : Bytes)
    → ViewstampFits a
    → i + length (viewstamp_bytes a ++ r) < 2 ^ 31
    → get_viewstamp (cursor i (viewstamp_bytes a ++ r))
      ≡ some (a, cursor (i + length (viewstamp_bytes a)) r)
unfolding get_viewstamp
get_viewstamp_lem a i r f =
    get_part u32 _ a.vid a i (u32.bytes a.seqno) r f.0 (get_last u32 _ a.seqno (i + 4) r f.1)

abbrev pub viewstamp : Wire Viewstamp
viewstamp = record {
  put = put_viewstamp;
  get = get_viewstamp;
  bytes = viewstamp_bytes;
  Fits = ViewstampFits;
  put_lem = put_viewstamp_lem;
  get_lem = get_viewstamp_lem;
}

-- `transferres`.
pub record Transferres : Type 0 where
  pub state : Bytes
  pub last : Viewstamp

unfoldable pub put_transferres : Transferres → Marshall → Marshall
put_transferres a m = put_viewstamp a.last (put_string a.state m)

unfoldable pub get_transferres : Get Transferres
get_transferres = do
  state ← get_string
  last ← get_viewstamp
  return (record { state = state; last = last })

abbrev pub TransferresFits : Transferres → Type 0
TransferresFits a = (length a.state < 2 ^ 32) × (ViewstampFits a.last)

abbrev transferres_bytes : Transferres → Bytes
transferres_bytes a = string.bytes a.state ++ viewstamp.bytes a.last

pub put_transferres_lem :
    (a : Transferres) (m : Marshall) → (put_transferres a m).body ≡ m.body ++ transferres_bytes a
unfolding put_transferres
put_transferres_lem a m = simp (string_put, put_viewstamp_lem, append_assoc)

pub get_transferres_lem :
    (a : Transferres) (i : ℕ) (r : Bytes)
    → TransferresFits a
    → i + length (transferres_bytes a ++ r) < 2 ^ 31
    → get_transferres (cursor i (transferres_bytes a ++ r))
      ≡ some (a, cursor (i + length (transferres_bytes a)) r)
unfolding get_transferres
get_transferres_lem a i r f =
    get_part string _ a.state a i (viewstamp.bytes a.last) r f.0
      (get_last viewstamp _ a.last (i + length (string.bytes a.state)) r f.1)

abbrev pub transferres : Wire Transferres
transferres = record {
  put = put_transferres;
  get = get_transferres;
  bytes = transferres_bytes;
  Fits = TransferresFits;
  put_lem = put_transferres_lem;
  get_lem = get_transferres_lem;
}

-- `joinres`.
pub record Joinres : Type 0 where
  pub log : Bytes

unfoldable pub put_joinres : Joinres → Marshall → Marshall
put_joinres a m = put_string a.log m

unfoldable pub get_joinres : Get Joinres
get_joinres = do log ← get_string; return (record { log = log })

abbrev pub JoinresFits : Joinres → Type 0
JoinresFits a = (length a.log < 2 ^ 32)

abbrev joinres_bytes : Joinres → Bytes
joinres_bytes a = string.bytes a.log

pub put_joinres_lem :
    (a : Joinres) (m : Marshall) → (put_joinres a m).body ≡ m.body ++ joinres_bytes a
unfolding put_joinres
put_joinres_lem a m = simp string_put

pub get_joinres_lem :
    (a : Joinres) (i : ℕ) (r : Bytes)
    → JoinresFits a
    → i + length (joinres_bytes a ++ r) < 2 ^ 31
    → get_joinres (cursor i (joinres_bytes a ++ r))
      ≡ some (a, cursor (i + length (joinres_bytes a)) r)
unfolding get_joinres
get_joinres_lem a i r f h = get_last string _ a.log i r f h

abbrev pub joinres : Wire Joinres
joinres = record {
  put = put_joinres;
  get = get_joinres;
  bytes = joinres_bytes;
  Fits = JoinresFits;
  put_lem = put_joinres_lem;
  get_lem = get_joinres_lem;
}

-- ===== src/Rpc/Marshal/Tests.antt =====
-- The theorems on marshalling at concrete inputs.
use lab.Base.{true, ℕ, List, [], ◌∷◌, arith, nat_key}
use lab.Base.Bytes.{Bytes, str_key}
use lab.Rpc.Marshal.{fresh, put_string}
use lab.Rpc.Marshal.Bounds.{IsAllocated, put_string-IsAllocated}
use lab.Rpc.Marshal.Header.{ReqHeader, ReplyHeader}

abbrev numbers : List ℕ
numbers = 7 ∷ 9 ∷ []

abbrev request : ReqHeader
request = record { xid = 5; proc = 24577; clt_nonce = 11; srv_nonce = 12; xid_rep = 4 }

abbrev zeros : Bytes
zeros = 0 ∷ 0 ∷ 0 ∷ 0 ∷ 0 ∷ 0 ∷ 0 ∷ 0 ∷ 0 ∷ 0 ∷ 0 ∷ 0 ∷ []

abbrev reply : ReplyHeader
reply = record { xid = 5; ret = 0 }

put_string-IsAllocated_example : IsAllocated (put_string (65 ∷ 66 ∷ []) fresh)
put_string-IsAllocated_example =
    put_string-IsAllocated (65 ∷ 66 ∷ []) fresh (omega arith)
      (omega arith, omega arith, omega arith, λ i. true)

-- ===== src/Protocol/RoundTrip.antt =====
-- The messages of the protocols are read as they were written.
use lab.Base.{arith, ℕ, ◌+◌, ◌^◌, ◌<◌, ◌≡◌, some, ◌++◌, length}
use lab.Base.Bytes.{Bytes}
use lab.Rpc.Marshal.{fresh}
use lab.Rpc.Marshal.Laws.{cursor}
use lab.Rpc.Marshal.RoundTrip.{read_back}
use lab.Protocol.Paxos.{
  Preparearg, Prepareres, put_preparearg, get_preparearg, PrepareargFits, preparearg,
  put_prepareres, get_prepareres, PrepareresFits, prepareres,
}
use lab.Protocol.Rsm.{Transferres, put_transferres, get_transferres, TransferresFits, transferres}
use lab.Protocol.Extent.{Attr, put_attr, get_attr, AttrFits, attr}

-- The arguments and the result of `preparereq` are read back, at any place of a message below
-- 512 MB, where their fields have the sizes of their types.
pub prepare_round_trip :
    (a : Preparearg) (b : Prepareres) (i : ℕ) (r : Bytes)
    → PrepareargFits a
    → PrepareresFits b
    → i + length ((put_preparearg a fresh).body ++ r) < 2 ^ 29
    → i + length ((put_prepareres b fresh).body ++ r) < 2 ^ 29
    → (get_preparearg (cursor i ((put_preparearg a fresh).body ++ r))
        ≡ some (a, cursor (i + length (put_preparearg a fresh).body) r))
      × (get_prepareres (cursor i ((put_prepareres b fresh).body ++ r))
          ≡ some (b, cursor (i + length (put_prepareres b fresh).body) r))
prepare_round_trip a b i r f g h k = (
  read_back preparearg a i r f (omega (arith, h)),
  read_back prepareres b i r g (omega (arith, k)),
)

-- The state that a replica transfers, with the viewstamp of its last request, is read back at
-- any place of a message below 2 GB, where the fields have the sizes of their types.
pub transferres_round_trip :
    (a : Transferres) (i : ℕ) (r : Bytes)
    → TransferresFits a
    → i + length ((put_transferres a fresh).body ++ r) < 2 ^ 31
    → get_transferres (cursor i ((put_transferres a fresh).body ++ r))
      ≡ some (a, cursor (i + length (put_transferres a fresh).body) r)
transferres_round_trip = read_back transferres

-- The attributes of an extent are read back at any place of a message below 2 GB, where they are
-- 32-bit numbers.
pub attr_round_trip :
    (a : Attr) (i : ℕ) (r : Bytes)
    → AttrFits a
    → i + length ((put_attr a fresh).body ++ r) < 2 ^ 31
    → get_attr (cursor i ((put_attr a fresh).body ++ r))
      ≡ some (a, cursor (i + length (put_attr a fresh).body) r)
attr_round_trip = read_back attr

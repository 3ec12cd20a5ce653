-- ===== src/Protocol/Tests.antt =====
-- The theorems on the messages at concrete inputs.
use lab.Base.{◌+◌, ◌≡◌, some, [], ◌∷◌, ◌++◌, arith, length}
use lab.Rpc.Marshal.{fresh, put_string, put_u32, put_u8, rawbyte, rawbytes}
use lab.Rpc.Marshal.Laws.{cursor}
use lab.Protocol.Paxos.{
  Prop, put_prop, Preparearg, Prepareres, put_preparearg, get_preparearg, put_prepareres,
  get_prepareres,
}
use lab.Protocol.Rsm.{Transferres}
use lab.Protocol.Extent.{Attr, put_attr, get_attr}
use lab.Protocol.RoundTrip.{prepare_round_trip, attr_round_trip}

abbrev number : Prop
number = record { n = 3; m = 97 ∷ [] }

abbrev ask : Preparearg
ask = record { instance_no = 2; n = number; v = [] }

abbrev told : Prepareres
told = record { oldinstance = 0; accept = 1; n_a = number; v_a = 118 ∷ [] }

prepare_round_trip_example :
    (get_preparearg (cursor 24 ((put_preparearg ask fresh).body ++ []))
      ≡ some (ask, cursor (24 + length (put_preparearg ask fresh).body) []))
    × (get_prepareres (cursor 24 ((put_prepareres told fresh).body ++ []))
        ≡ some (told, cursor (24 + length (put_prepareres told fresh).body) []))
unfolding put_preparearg put_prepareres put_prop put_string put_u32 put_u8 rawbyte rawbytes
prepare_round_trip_example =
    prepare_round_trip ask told 24 [] (omega arith, (omega arith, omega arith), omega arith)
      (omega arith, omega arith, (omega arith, omega arith), omega arith) (omega arith)
      (omega arith)

abbrev state : Transferres
state = record { state = 65 ∷ []; last = record { vid = 1; seqno = 2 } }

abbrev times : Attr
times = record { atime = 1; mtime = 2; ctime = 3; size = 4 }

attr_round_trip_example :
    get_attr (cursor 24 ((put_attr times fresh).body ++ []))
    ≡ some (times, cursor (24 + length (put_attr times fresh).body) [])
unfolding put_attr put_u32 put_u8 rawbyte rawbytes
attr_round_trip_example =
    attr_round_trip times 24 [] (omega arith, omega arith, omega arith, omega arith) (omega arith)

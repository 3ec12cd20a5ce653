-- ===== src/Protocol/Paxos.antt =====
-- The messages of Paxos (paxos_protocol.h).
use lab.Base.{ℕ, ◌+◌, ◌^◌, ◌<◌, ◌≡◌, ◌++◌, append_assoc, length, some}
use lab.Base.Bytes.{Bytes}
use lab.Rpc.Marshal.{Marshall, Get, ◌>>=◌, return, put_u32, put_string, get_u32, get_string}
use lab.Rpc.Marshal.Laws.{Wire, cursor, u32, string, get_part, get_last, u32_put, string_put}

-- `prop_t`: a proposal number, made unique by the name of its node.
pub record Prop : Type 0 where
  pub n : ℕ
  pub m : Bytes

unfoldable pub put_prop : Prop → Marshall → Marshall
put_prop a m = put_string a.m (put_u32 a.n m)

unfoldable pub get_prop : Get Prop
get_prop = do n ← get_u32; m ← get_string; return (record { n = n; m = m })

abbrev pub PropFits : Prop → Type 0
PropFits a = (a.n < 2 ^ 32) × (length a.m < 2 ^ 32)

abbrev prop_bytes : Prop → Bytes
prop_bytes a = u32.bytes a.n ++ string.bytes a.m

pub put_prop_lem : (a : Prop) (m : Marshall) → (put_prop a m).body ≡ m.body ++ prop_bytes a
unfolding put_prop
put_prop_lem a m = simp (string_put, u32_put, append_assoc)

pub get_prop_lem :
    (a : Prop) (i : ℕ) (r : Bytes)
    → PropFits a
    → i + length (prop_bytes a ++ r) < 2 ^ 31
    → get_prop (cursor i (prop_bytes a ++ r)) ≡ some (a, cursor (i + length (prop_bytes a)) r)
unfolding get_prop
get_prop_lem a i r f =
    get_part u32 _ a.n a i (string.bytes a.m) r f.0 (get_last string _ a.m (i + 4) r f.1)

abbrev pub prop : Wire Prop
prop = record {
  put = put_prop;
  get = get_prop;
  bytes = prop_bytes;
  Fits = PropFits;
  put_lem = put_prop_lem;
  get_lem = get_prop_lem;
}

-- `preparearg`.
pub record Preparearg : Type 0 where
  pub instance_no : ℕ
  pub n : Prop
  pub v : Bytes

unfoldable pub put_preparearg : Preparearg → Marshall → Marshall
put_preparearg a m = put_string a.v (put_prop a.n (put_u32 a.instance_no m))

unfoldable pub get_preparearg : Get Preparearg
get_preparearg = do
  instance_no ← get_u32
  n ← get_prop
  v ← get_string
  return (record { instance_no = instance_no; n = n; v = v })

abbrev pub PrepareargFits : Preparearg → Type 0
PrepareargFits a = (a.instance_no < 2 ^ 32) × (PropFits a.n) × (length a.v < 2 ^ 32)

abbrev preparearg_bytes : Preparearg → Bytes
preparearg_bytes a = u32.bytes a.instance_no ++ (prop.bytes a.n ++ string.bytes a.v)

pub put_preparearg_lem :
    (a : Preparearg) (m : Marshall) → (put_preparearg a m).body ≡ m.body ++ preparearg_bytes a
unfolding put_preparearg
put_preparearg_lem a m = simp (u32_put, put_prop_lem, string_put, append_assoc)

pub get_preparearg_lem :
    (a : Preparearg) (i : ℕ) (r : Bytes)
    → PrepareargFits a
    → i + length (preparearg_bytes a ++ r) < 2 ^ 31
    → get_preparearg (cursor i (preparearg_bytes a ++ r))
      ≡ some (a, cursor (i + length (preparearg_bytes a)) r)
unfolding get_preparearg
get_preparearg_lem a i r f =
    get_part u32 _ a.instance_no a i (prop.bytes a.n ++ string.bytes a.v) r f.0 (
      get_part prop _ a.n a (i + 4) (string.bytes a.v) r f.1
        (get_last string _ a.v ((i + 4) + length (prop.bytes a.n)) r f.2))

abbrev pub preparearg : Wire Preparearg
preparearg = record {
  put = put_preparearg;
  get = get_preparearg;
  bytes = preparearg_bytes;
  Fits = PrepareargFits;
  put_lem = put_preparearg_lem;
  get_lem = get_preparearg_lem;
}

-- `prepareres`.
pub record Prepareres : Type 0 where
  pub oldinstance : ℕ
  pub accept : ℕ
  pub n_a : Prop
  pub v_a : Bytes

unfoldable pub put_prepareres : Prepareres → Marshall → Marshall
put_prepareres a m = put_string a.v_a (put_prop a.n_a (put_u32 a.accept (put_u32 a.oldinstance m)))

unfoldable pub get_prepareres : Get Prepareres
get_prepareres = do
  oldinstance ← get_u32
  accept ← get_u32
  n_a ← get_prop
  v_a ← get_string
  return (record { oldinstance = oldinstance; accept = accept; n_a = n_a; v_a = v_a })

abbrev pub PrepareresFits : Prepareres → Type 0
PrepareresFits a =
    (a.oldinstance < 2 ^ 32) × (a.accept < 2 ^ 32) × (PropFits a.n_a) × (length a.v_a < 2 ^ 32)

abbrev prepareres_bytes : Prepareres → Bytes
prepareres_bytes a =
    u32.bytes a.oldinstance ++ (u32.bytes a.accept ++ (prop.bytes a.n_a ++ string.bytes a.v_a))

pub put_prepareres_lem :
    (a : Prepareres) (m : Marshall) → (put_prepareres a m).body ≡ m.body ++ prepareres_bytes a
unfolding put_prepareres
put_prepareres_lem a m = simp (u32_put, put_prop_lem, string_put, append_assoc)

pub get_prepareres_lem :
    (a : Prepareres) (i : ℕ) (r : Bytes)
    → PrepareresFits a
    → i + length (prepareres_bytes a ++ r) < 2 ^ 31
    → get_prepareres (cursor i (prepareres_bytes a ++ r))
      ≡ some (a, cursor (i + length (prepareres_bytes a)) r)
unfolding get_prepareres
get_prepareres_lem a i r f =
    get_part u32 _ a.oldinstance a i
      (u32.bytes a.accept ++ (prop.bytes a.n_a ++ string.bytes a.v_a)) r f.0
      (get_part u32 _ a.accept a (i + 4) (prop.bytes a.n_a ++ string.bytes a.v_a) r f.1 (
        get_part prop _ a.n_a a ((i + 4) + 4) (string.bytes a.v_a) r f.2
          (get_last string _ a.v_a (((i + 4) + 4) + length (prop.bytes a.n_a)) r f.3)))

abbrev pub prepareres : Wire Prepareres
prepareres = record {
  put = put_prepareres;
  get = get_prepareres;
  bytes = prepareres_bytes;
  Fits = PrepareresFits;
  put_lem = put_prepareres_lem;
  get_lem = get_prepareres_lem;
}

-- `acceptarg`.
pub record Acceptarg : Type 0 where
  pub instance_no : ℕ
  pub n : Prop
  pub v : Bytes

unfoldable pub put_acceptarg : Acceptarg → Marshall → Marshall
put_acceptarg a m = put_string a.v (put_prop a.n (put_u32 a.instance_no m))

unfoldable pub get_acceptarg : Get Acceptarg
get_acceptarg = do
  instance_no ← get_u32
  n ← get_prop
  v ← get_string
  return (record { instance_no = instance_no; n = n; v = v })

abbrev pub AcceptargFits : Acceptarg → Type 0
AcceptargFits a = (a.instance_no < 2 ^ 32) × (PropFits a.n) × (length a.v < 2 ^ 32)

abbrev acceptarg_bytes : Acceptarg → Bytes
acceptarg_bytes a = u32.bytes a.instance_no ++ (prop.bytes a.n ++ string.bytes a.v)

pub put_acceptarg_lem :
    (a : Acceptarg) (m : Marshall) → (put_acceptarg a m).body ≡ m.body ++ acceptarg_bytes a
unfolding put_acceptarg
put_acceptarg_lem a m = simp (u32_put, put_prop_lem, string_put, append_assoc)

pub get_acceptarg_lem :
    (a : Acceptarg) (i : ℕ) (r : Bytes)
    → AcceptargFits a
    → i + length (acceptarg_bytes a ++ r) < 2 ^ 31
    → get_acceptarg (cursor i (acceptarg_bytes a ++ r))
      ≡ some (a, cursor (i + length (acceptarg_bytes a)) r)
unfolding get_acceptarg
get_acceptarg_lem a i r f =
    get_part u32 _ a.instance_no a i (prop.bytes a.n ++ string.bytes a.v) r f.0 (
      get_part prop _ a.n a (i + 4) (string.bytes a.v) r f.1
        (get_last string _ a.v ((i + 4) + length (prop.bytes a.n)) r f.2))

abbrev pub acceptarg : Wire Acceptarg
acceptarg = record {
  put = put_acceptarg;
  get = get_acceptarg;
  bytes = acceptarg_bytes;
  Fits = AcceptargFits;
  put_lem = put_acceptarg_lem;
  get_lem = get_acceptarg_lem;
}

-- `decidearg`.
pub record Decidearg : Type 0 where
  pub instance_no : ℕ
  pub v : Bytes

unfoldable pub put_decidearg : Decidearg → Marshall → Marshall
put_decidearg a m = put_string a.v (put_u32 a.instance_no m)

unfoldable pub get_decidearg : Get Decidearg
get_decidearg = do
  instance_no ← get_u32
  v ← get_string
  return (record { instance_no = instance_no; v = v })

abbrev pub DecideargFits : Decidearg → Type 0
DecideargFits a = (a.instance_no < 2 ^ 32) × (length a.v < 2 ^ 32)

abbrev decidearg_bytes : Decidearg → Bytes
decidearg_bytes a = u32.bytes a.instance_no ++ string.bytes a.v

pub put_decidearg_lem :
    (a : Decidearg) (m : Marshall) → (put_decidearg a m).body ≡ m.body ++ decidearg_bytes a
unfolding put_decidearg
put_decidearg_lem a m = simp (u32_put, string_put, append_assoc)

pub get_decidearg_lem :
    (a : Decidearg) (i : ℕ) (r : Bytes)
    → DecideargFits a
    → i + length (decidearg_bytes a ++ r) < 2 ^ 31
    → get_decidearg (cursor i (decidearg_bytes a ++ r))
      ≡ some (a, cursor (i + length (decidearg_bytes a)) r)
unfolding get_decidearg
get_decidearg_lem a i r f =
    get_part u32 _ a.instance_no a i (string.bytes a.v) r f.0 (get_last string _ a.v (i + 4) r f.1)

abbrev pub decidearg : Wire Decidearg
decidearg = record {
  put = put_decidearg;
  get = get_decidearg;
  bytes = decidearg_bytes;
  Fits = DecideargFits;
  put_lem = put_decidearg_lem;
  get_lem = get_decidearg_lem;
}

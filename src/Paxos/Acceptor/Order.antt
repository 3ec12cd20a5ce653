-- ===== src/Paxos/Acceptor/Order.antt =====
-- The order of proposal numbers, as the acceptor's tests use it.
use lab.Base.{◌≡◌, true, false, not, nat_key, arith, Bool-cases, subst, inl, inr}
use lab.Base.Bytes.{
  Bytes, str_key, str_lt, str_lt_asym, str_lt_trans, str_lt_total, str_eq, str_eq_iff,
}
use lab.Protocol.Paxos.{Prop}
use lab.Paxos.Acceptor.{prop_gt, prop_ge}

pub ge_of_gt : (a b : Prop) → prop_gt a b ≡ true → prop_ge a b ≡ true
ge_of_gt a b h = ground (arith, str_lt_asym b.m a.m)

le_lt_trans : (x y z : Bytes) → str_lt y x ≡ false → str_lt y z ≡ true → str_lt x z ≡ true
le_lt_trans x y z h k = elim (Bool-cases (str_eq y x)) [
  | inl same ↦ subst (λ w. str_lt w z ≡ true) ((str_eq_iff y x).0 same) k
  | inr other ↦ str_lt_trans x y z (str_lt_total y x other h) k
]

pub gt_ge_trans : (a b c : Prop) → prop_gt a b ≡ true → prop_ge b c ≡ true → prop_gt a c ≡ true
gt_ge_trans a b c h k = ground (arith, str_lt_trans c.m b.m a.m, le_lt_trans c.m b.m a.m)

pub gt_irrefl : (a : Prop) → prop_gt a a ≡ false
gt_irrefl a = ground (arith, str_lt_asym a.m a.m)

pub ge_refl : (a : Prop) → prop_ge a a ≡ true
ge_refl a = ground (arith, str_lt_asym a.m a.m)

-- `a >= b` exactly where `b > a` does not hold.
pub ge_not : (a b : Prop) → prop_ge a b ≡ not (prop_gt b a)
ge_not a b = ground arith

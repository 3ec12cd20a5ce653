-- ===== src/Base/Key.antt =====
-- What a `std::map` asks of its keys: a strict order `<`. Equality of keys is decided besides.
use Prim.Native.Nat.{ℕ}
use mathlib.Core.Path.{◌≡◌}
use mathlib.Core.Logic.{◌↔◌}
use mathlib.Core.Bool.{Bool, true, false}
use native.Mathlib.Omega.{arith}
use lab.Base.Tests.{ltb, nat_beq, nat_beq_iff}

pub record Key {ℓ} (A : Type ℓ) : Type ℓ where
  pub beq : A → A → Bool
  pub before : A → A → Bool
  pub beq_iff : (a b : A) → (beq a b ≡ true) ↔ (a ≡ b)
  pub before_asym : (a b : A) → before a b ≡ true → before b a ≡ false
  pub before_ne : (a b : A) → before a b ≡ true → beq b a ≡ false
  pub before_trans : (a b c : A) → before a b ≡ true → before b c ≡ true → before a c ≡ true
  pub before_total : (a b : A) → beq a b ≡ false → before a b ≡ false → before b a ≡ true

infix 50 ◌==◌
abbrev pub ◌==◌ {ℓ} : {A : Type ℓ} ⦃e : Key A⦄ → A → A → Bool
◌==◌ ⦃e⦄ = e.beq

pub nat_asym : (a b : ℕ) → ltb a b ≡ true → ltb b a ≡ false
nat_asym a b h = ground arith

pub nat_ne : (a b : ℕ) → ltb a b ≡ true → nat_beq b a ≡ false
nat_ne a b h = ground arith

pub nat_trans : (a b c : ℕ) → ltb a b ≡ true → ltb b c ≡ true → ltb a c ≡ true
nat_trans a b c h k = ground arith

pub nat_total : (a b : ℕ) → nat_beq a b ≡ false → ltb a b ≡ false → ltb b a ≡ true
nat_total a b h k = ground arith

instance abbrev pub nat_key : Key ℕ
nat_key = record {
  beq = nat_beq;
  before = ltb;
  beq_iff = nat_beq_iff;
  before_asym = nat_asym;
  before_ne = nat_ne;
  before_trans = nat_trans;
  before_total = nat_total;
}

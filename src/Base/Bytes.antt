-- ===== src/Base/Bytes.antt =====
-- `std::string` as the list of its bytes, compared lexicographically as `operator<` does.
use mathlib.Core.Path.{◌≡◌, refl}
use mathlib.Core.Logic.{◌↔◌}
use mathlib.Core.Bool.{Bool, true, false, ◌&&◌, ◌||◌}
use mathlib.Core.List.{List, [], ◌∷◌}
use Prim.Native.Nat.{ℕ}
use native.Mathlib.Omega.{arith}
use lab.Base.Tests.{ltb, nat_beq}
use lab.Base.Key.{Key}

abbrev pub Bytes : Type 0
Bytes = List ℕ

abbrev pub str_eq : Bytes → Bytes → Bool
str_eq [] [] = true
str_eq [] (y ∷ ys) = false
str_eq (x ∷ xs) [] = false
str_eq (x ∷ xs) (y ∷ ys) = nat_beq x y && str_eq xs ys

abbrev pub str_lt : Bytes → Bytes → Bool
str_lt xs [] = false
str_lt [] (y ∷ ys) = true
str_lt (x ∷ xs) (y ∷ ys) = ltb x y || (nat_beq x y && str_lt xs ys)

pub str_eq_iff : (a b : Bytes) → (str_eq a b ≡ true) ↔ (a ≡ b)
str_eq_iff [] [] = ground arith
str_eq_iff [] (y ∷ ys) = ground arith
str_eq_iff (x ∷ xs) [] = ground arith
str_eq_iff (x ∷ xs) (y ∷ ys) = ground (arith, str_eq_iff xs ys)

pub str_lt_asym : (a b : Bytes) → str_lt a b ≡ true → str_lt b a ≡ false
str_lt_asym [] [] h = refl
str_lt_asym [] (y ∷ ys) h = refl
str_lt_asym (x ∷ xs) [] h = cc
str_lt_asym (x ∷ xs) (y ∷ ys) h = ground (arith, str_lt_asym xs ys)

pub str_lt_ne : (a b : Bytes) → str_lt a b ≡ true → str_eq b a ≡ false
str_lt_ne [] [] h = cc
str_lt_ne [] (y ∷ ys) h = refl
str_lt_ne (x ∷ xs) [] h = cc
str_lt_ne (x ∷ xs) (y ∷ ys) h = ground (arith, str_lt_ne xs ys)

pub str_lt_trans : (a b c : Bytes) → str_lt a b ≡ true → str_lt b c ≡ true → str_lt a c ≡ true
str_lt_trans [] [] c h k = cc
str_lt_trans [] (y ∷ ys) [] h k = cc
str_lt_trans [] (y ∷ ys) (z ∷ zs) h k = refl
str_lt_trans (x ∷ xs) [] c h k = cc
str_lt_trans (x ∷ xs) (y ∷ ys) [] h k = cc
str_lt_trans (x ∷ xs) (y ∷ ys) (z ∷ zs) h k = ground (arith, str_lt_trans xs ys zs)

pub str_lt_total : (a b : Bytes) → str_eq a b ≡ false → str_lt a b ≡ false → str_lt b a ≡ true
str_lt_total [] [] h k = cc
str_lt_total [] (y ∷ ys) h k = cc
str_lt_total (x ∷ xs) [] h k = refl
str_lt_total (x ∷ xs) (y ∷ ys) h k = ground (arith, str_lt_total xs ys)

instance abbrev pub str_key : Key Bytes
str_key = record {
  beq = str_eq;
  before = str_lt;
  beq_iff = str_eq_iff;
  before_asym = str_lt_asym;
  before_ne = str_lt_ne;
  before_trans = str_lt_trans;
  before_total = str_lt_total;
}

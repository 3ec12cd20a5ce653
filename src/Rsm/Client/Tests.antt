-- ===== src/Rsm/Client/Tests.antt =====
-- The theorem on the client at concrete nodes: "c" is silent, and "b" names "d" as the primary.
use lab.Base.{ℕ, ◌≡◌, refl, Bool, true, false, List, [], ◌∷◌, ◌+◌, if◌then◌else◌, ◌==◌, nat_key}
use lab.Base.Bytes.{Bytes, str_key}
use lab.Rsm.Calls.{ok}
use lab.Rsm.Client.{Answer, replied, lost, found, invoke}
use lab.Rsm.Client.Failover.{idle, invoke_fails_over}

abbrev a : Bytes
a = 97 ∷ []

abbrev b : Bytes
b = 98 ∷ []

abbrev c : Bytes
c = 99 ∷ []

abbrev d : Bytes
d = 100 ∷ []

-- The world counts the calls.
abbrev reached : Bytes → ℕ → Bool × ℕ
reached node w = (true, w)

abbrev told : Bytes → ℕ → (Bool × List Bytes) × ℕ
told node w = (if node == b then (true, a ∷ d ∷ []) else (false, []), w + 1)

abbrev called : Bytes → ℕ → Answer × ℕ
called node w = (if node == d then replied ok (1 ∷ []) else lost, w + 1)

invoke_fails_over_example :
    (t : ℕ) × (invoke reached told called 2 2 (idle a (a ∷ b ∷ c ∷ [])) 0
      ≡ found (1 ∷ [], idle d (a ∷ a ∷ []), t))
invoke_fails_over_example =
    invoke_fails_over reached told called (c ∷ []) (a ∷ []) (a ∷ []) b d a (1 ∷ []) 0
      ((λ v. refl), tt) (λ v. refl) (λ v. refl) (λ v. refl) refl

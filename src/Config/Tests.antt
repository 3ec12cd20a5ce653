-- ===== src/Config/Tests.antt =====
-- The theorems on the configuration at concrete inputs.
use lab.Base.{
  not, ℕ, ◌≡◌, refl, Option, some, [], ◌∷◌, Bool, true, false, arith, nat_key, ◌==◌, if◌then◌else◌,
}
use lab.Base.Bytes.{Bytes, str_key}
use lab.Protocol.Paxos.{Prepareres, Acceptarg}
use lab.Paxos.Proposer.Success.{Willing}
use lab.Config.{
  Config, members, value, is_space, add, remove_wo, without, Beat, answered, failure, ping,
  ping_all, smallest, doheartbeat,
}
use lab.Config.Text.{IsName, members-value}
use lab.Config.Views.{Decides, view_changes}
use lab.Config.Heartbeats.{Failed, removed-Failed}

abbrev a : Bytes
a = 97 ∷ []

abbrev b : Bytes
b = 98 ∷ []

abbrev c : Bytes
c = 99 ∷ []

named : (n : ℕ) → is_space n ≡ false → IsName (n ∷ [])
named n h = ((λ e. cc e), (h, tt))

members-value_example : members (value (a ∷ b ∷ [])) ≡ a ∷ b ∷ []
members-value_example = members-value (a ∷ b ∷ []) (named 97 refl, (named 98 refl, tt))

-- View 1 with the members "a" and "b", at "a".
abbrev first_view : Config
first_view = record {
  acc = record {
    me = a;
    cfg = true;
    n_h = record { n = 0; m = [] };
    n_a = record { n = 0; m = [] };
    v_a = [];
    instance_h = 1;
    values = (1, value (a ∷ b ∷ [])) ∷ [];
    l = [];
    paxos_commits = [];
  };
  pro = record {
    me = a;
    break1 = false;
    break2 = false;
    stable = true;
    c_nodes = [];
    c_v = [];
    my_n = record { n = 0; m = a };
  };
  myvid = 1;
  me = a;
  mems = a ∷ b ∷ [];
  deleted = [];
}

abbrev agreeing : Bytes → Option Prepareres
agreeing node =
    some (record { oldinstance = 0; accept = 1; n_a = record { n = 0; m = [] }; v_a = [] })

abbrev accepts_all : Bytes → Acceptarg → Bool
accepts_all node arg = true

willing : (node : Bytes) → Willing agreeing accepts_all node
willing node = (
  (
    record { oldinstance = 0; accept = 1; n_a = record { n = 0; m = [] }; v_a = [] },
    refl,
    refl,
    refl,
    refl,
  ),
  λ arg. refl,
)

-- There is no connection to "b".
abbrev linked : Bytes → Bool
linked node = not (node == b)

view_changes_example :
    Decides linked 2
      (a ∷ b ∷ [])
      (a ∷ b ∷ c ∷ [])
      (add (λ n arg. agreeing n) accepts_all linked c first_view).0
    × Decides linked 2
        (a ∷ b ∷ [])
        (without c (a ∷ b ∷ []))
        (remove_wo (λ n arg. agreeing n) accepts_all linked c first_view).0
unfolding without
view_changes_example =
    view_changes agreeing accepts_all linked first_view c a (b ∷ []) refl
      (willing a, (willing b, tt)) refl (omega arith)
      (named 97 refl, (named 98 refl, (named 99 refl, tt))) (named 97 refl, (named 98 refl, tt))

-- The call to "b" fails.
abbrev b_is_down : Bytes → ℕ → Beat
b_is_down node vid = if node == b then failure else answered

removed-Failed_example : Failed b_is_down 1 a (a ∷ b ∷ []) b
unfolding ping ping_all smallest doheartbeat
removed-Failed_example = removed-Failed b_is_down first_view b refl

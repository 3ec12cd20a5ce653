-- ===== src/Config/Text.antt =====
-- A view as the value that Paxos agrees on.
use lab.Base.{
  ◌≡◌, ◌≢◌, refl, sym, ap, ◌∙◌, false, List, [], ◌∷◌, ◌++◌, append_assoc, append-nil, nat_key, All,
}
use lab.Base.Bytes.{Bytes}
use lab.Config.{is_space, word, words, members, value}

-- The name of a node: not empty, and without blanks.
abbrev pub IsName : Bytes → Type 0
IsName n = (n ≢ []) × All (λ c. is_space c ≡ false) n

words-name :
    (w n rest : Bytes)
    → All (λ c. is_space c ≡ false) n
    → words w (n ++ 32 ∷ rest) ≡ word (w ++ n) ++ words [] rest
unfolding words
words-name w [] rest a = ap (λ v. word v ++ words [] rest) (sym (append-nil w))
words-name w (c ∷ n) rest (here, a) = rw here (
    words-name (w ++ c ∷ []) n rest a
    ∙ ap (λ v. word v ++ words [] rest) (append_assoc w (c ∷ []) n))

word_name : (n : Bytes) → n ≢ [] → word n ≡ n ∷ []
word_name [] h = absurd (h refl)
word_name (c ∷ n) h = refl

-- The value of a view whose members have names is read back as the same members.
pub members-value : (m : List Bytes) → All IsName m → members (value m) ≡ m
unfolding members value words
members-value [] a = refl
members-value (n ∷ m) ((full, plain), a) =
    ap (words []) (append_assoc n (32 ∷ []) (value m))
    ∙ words-name [] n (value m) plain
    ∙ ap (λ v. v ++ words [] (value m)) (word_name n full)
    ∙ ap (◌∷◌ n) (members-value m a)

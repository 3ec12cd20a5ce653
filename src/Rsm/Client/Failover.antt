-- ===== src/Rsm/Client/Failover.antt =====
-- The search for a new primary ends.
use lab.Base.{
  suc, subst, ◌+◌, ◌≡◌, refl, sym, ap, ◌∙◌, inl, inr, Bool, true, false, some, List, [], ◌∷◌, ◌++◌,
  append_assoc, append-nil, length, arith, ◌==◌, nat_key, Bool-cases,
}
use lab.Base.Bytes.{Bytes, str_key, str_eq_iff}
use lab.Rsm.Calls.{ok}
use lab.Rsm.Client.{
  Answer, replied, lost, fail_over, answered, invoke, RsmClient, found, exited, pop_back, connect,
  take_primary, init_members, try_primary, primary_failure,
}

pub pop_back-last : (front : List Bytes) (m : Bytes) → pop_back (front ++ m ∷ []) ≡ some (front, m)
unfolding pop_back
pop_back-last [] m = refl
pop_back-last (x ∷ front) m = rw (pop_back-last front m, pop_back) refl

-- A client without calls.
abbrev pub idle : Bytes → List Bytes → RsmClient
idle m mems = record { primary = m; nref = 0; known_mems = mems }

-- The members that are tried first, from `ds` in this order, stand at the end.
abbrev pub before : List Bytes → List Bytes → List Bytes
before [] mems = mems
before (d ∷ ds) mems = before ds mems ++ d ∷ []

module _ {W : Type 0} (bind : Bytes → W → Bool × W)
    (members : Bytes → W → (Bool × List Bytes) × W) where
  -- Nothing comes back from a node.
  abbrev pub IsSilent : Bytes → Type 0
  IsSilent d = (v : W) → (members d v).0 ≡ (false, [])

  abbrev pub AllSilent : List Bytes → Type 0
  AllSilent [] = Unit
  AllSilent (d ∷ ds) = IsSilent d × AllSilent ds

  connect-idle :
      (m old : Bytes) (mems : List Bytes) (w : W)
      → (r : Bool) × (t : W) × (connect bind members m (idle old mems) w ≡ some (r, idle m mems, t))
        × (((v : W) → (bind m v).0 ≡ true) → r ≡ true)
  unfolding connect
  connect-idle m old mems w = elim (Bool-cases (m == old)) [
    | inl same ↦ (
      true,
      w,
      rw (same, connect) (ap (λ x. some (true, idle x mems, w)) (sym ((str_eq_iff m old).0 same))),
      λ f. refl,
    )
    | inr new ↦ ((bind m w).0, (bind m w).1, rw (new, connect) refl, λ f. f w)
  ]

  init_members-silent :
      (d : Bytes) (mems : List Bytes) (w : W)
      → IsSilent d
      → init_members bind members true (idle d mems) w ≡ some (false, idle d mems, (members d w).1)
  unfolding init_members
  init_members-silent d mems w q =
      rw (q w, init_members) (ap (λ x. some (false, idle d x, (members d w).1)) (append-nil mems))

  try_primary-silent :
      (d old : Bytes) (mems : List Bytes) (w : W)
      → IsSilent d
      → (t : W) × (try_primary bind members d (idle old mems) w ≡ some (false, idle d mems, t))
  unfolding try_primary
  try_primary-silent d old mems w q =
      let (r, t, e, f) = connect-idle d old mems w in
      ((members d t).1, rw (e, try_primary) (init_members-silent d mems t q))

  init_members-answers :
      (m p : Bytes) (front ms : List Bytes) (w : W)
      → ((v : W) → (members m v).0 ≡ (true, ms ++ p ∷ []))
      → ((v : W) → (bind p v).0 ≡ true)
      → (t : W) × (init_members bind members true (idle m front) w
          ≡ some (true, idle p (front ++ ms), t))
  unfolding init_members take_primary
  init_members-answers m p front ms w q b =
      let (r, t, e, f) = connect-idle p m (front ++ ms) (members m w).1 in
      (
        t,
        rw (q w, init_members)
            (rw (sym (append_assoc front ms (p ∷ [])), pop_back-last (front ++ ms) p, take_primary)
              (e ∙ ap (λ x. some (x, idle p (front ++ ms), t)) (f b))),
      )

  try_primary-answers :
      (m p old : Bytes) (front ms : List Bytes) (w : W)
      → ((v : W) → (members m v).0 ≡ (true, ms ++ p ∷ []))
      → ((v : W) → (bind p v).0 ≡ true)
      → (t : W) × (try_primary bind members m (idle old front) w
          ≡ some (true, idle p (front ++ ms), t))
  unfolding try_primary
  try_primary-answers m p old front ms w q b =
      let (r, t, e, f) = connect-idle m old front w in
      let (u, g) = init_members-answers m p front ms t q b in (u, rw (e, try_primary) g)

  -- primary_failure ends in one round more than there are silent members.
  pub primary_failure_finds :
      (ds front ms : List Bytes) (m p old : Bytes) (w : W)
      → AllSilent ds
      → ((v : W) → (members m v).0 ≡ (true, ms ++ p ∷ []))
      → ((v : W) → (bind p v).0 ≡ true)
      → (t : W) × (primary_failure bind members
            (length ds + 1)
            (idle old (before ds (front ++ m ∷ [])))
            w
          ≡ found (idle p (front ++ ms), t))
  unfolding primary_failure
  primary_failure_finds [] front ms m p old w q a b =
      let (t, e) = try_primary-answers m p old front ms w a b in
      (t, rw (pop_back-last front m, e, primary_failure) refl)
  primary_failure_finds (d ∷ ds) front ms m p old w (q, qs) a b =
      let (t, e) = try_primary-silent d old (before ds (front ++ m ∷ [])) w q in
      let (u, f) = primary_failure_finds ds front ms m p d t qs a b in
      let rest = before ds (front ++ m ∷ []) in
      let n : length (d ∷ ds) + 1 ≡ suc (length ds + 1) = omega arith in
      (
        u,
        subst
            (λ k.
              primary_failure bind members k (idle old (rest ++ d ∷ [])) w
              ≡ found (idle p (front ++ ms), u))
            (sym n) (rw (pop_back-last rest d, e, primary_failure) f),
      )

  primary_failure_exits :
      (ds : List Bytes) (old : Bytes) (w : W)
      → AllSilent ds
      → primary_failure bind members (length ds + 1) (idle old (before ds [])) w ≡ exited
  unfolding primary_failure pop_back
  primary_failure_exits [] old w q = refl
  primary_failure_exits (d ∷ ds) old w (q, qs) =
      let rest = before ds [] in
      let n : length (d ∷ ds) + 1 ≡ suc (length ds + 1) = omega arith in
      let (t, e) = try_primary-silent d old rest w q in
      subst (λ k. primary_failure bind members k (idle old (rest ++ d ∷ [])) w ≡ exited) (sym n)
        (rw (pop_back-last rest d, e, primary_failure) (primary_failure_exits ds d t qs))

  -- The call of invoke at the primary is lost, and no other call uses the connection. The members
  -- `ds`, which are tried first, stay silent; then comes the member `m`, which answers with a list
  -- that ends with `p`; and `p` can be reached and executes the request. Then invoke returns the
  -- reply of `p` in its second turn, after a search of one round more than there are silent members.
  -- It has `p` as the primary, has forgotten the silent members and `m`, and has the rest of the
  -- answer behind the members that it had not tried.
  pub invoke_fails_over :
      (call : Bytes → W → Answer × W) (ds front ms : List Bytes) (m p old rep : Bytes) (w : W)
      → AllSilent ds
      → ((v : W) → (members m v).0 ≡ (true, ms ++ p ∷ []))
      → ((v : W) → (bind p v).0 ≡ true)
      → ((v : W) → (call p v).0 ≡ replied ok rep)
      → (call old w).0 ≡ lost
      → (t : W) × (invoke bind members call
            (length ds + 1)
            2
            (idle old (before ds (front ++ m ∷ [])))
            w
          ≡ found (rep, idle p (front ++ ms), t))
  unfolding invoke answered fail_over
  invoke_fails_over call ds front ms m p old rep w q a b c l =
      let (t, e) = primary_failure_finds ds front ms m p old (call old w).1 q a b in
      ((call p t).1, rw (l, invoke, answered, fail_over, e, c t) refl)

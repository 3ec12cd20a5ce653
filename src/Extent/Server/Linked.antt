-- ===== src/Extent/Server/Linked.antt =====
-- Every directory entry is known by its extent: the names and parents that the server keeps beside
-- the directories agree with them.
use lab.Base.{
  ℕ, ◌≡◌, sym, ap, subst, ◌∙◌, inl, inr, false, Option, none, some, [], ◌==◌, if◌then◌else◌,
  nat_key, arith, Bool-cases, some_inj, nat_beq_iff, ◌&&◌,
}
use lab.Base.Bytes.{Bytes, str_key, str_eq_iff}
use lab.Base.Map.{Map, lookup, insert, erase, at, touch, lookup-insert, lookup-erase, lookup-touch}
use lab.Extent.Server.{ExtentServer, enter, forget}

-- The entry of `name` in directory `p`.
abbrev pub entry : ℕ → Bytes → ExtentServer → Option ℕ
entry p name s = lookup name (at p [] s.dirid_fmap_m)

abbrev pub Linked : ExtentServer → Type 0
Linked s =
    (p : ℕ) (name : Bytes) (id : ℕ)
    → entry p name s ≡ some id
    → (lookup id s.fileid_dir_m ≡ some p) × (lookup id s.fileid_name_m ≡ some name)

pub entry-enter :
    (id parent : ℕ) (name : Bytes) (s : ExtentServer) (p : ℕ) (other : Bytes)
    → entry p other (enter id parent name s)
      ≡ (if parent == p && name == other then some id else entry p other s)
unfolding enter
entry-enter id parent name s p other = elim (Bool-cases (parent == p)) [
  | inr away ↦
      ground (
        arith,
        lookup-insert parent p (insert name id (at parent [] s.dirid_fmap_m)) s.dirid_fmap_m,
      )
  | inl here ↦ ground (
    arith,
    lookup-insert parent p (insert name id (at parent [] s.dirid_fmap_m)) s.dirid_fmap_m,
    lookup-insert name other id (at parent [] s.dirid_fmap_m),
    ap (λ k. lookup k s.dirid_fmap_m) ((nat_beq_iff parent p).0 here),
  )
]

-- A new entry for an extent that has no name yet.
pub enter-Linked :
    (id parent : ℕ) (name : Bytes) (s : ExtentServer)
    → lookup id s.fileid_name_m ≡ none
    → Linked s
    → Linked (enter id parent name s)
unfolding enter
enter-Linked id parent name s new h p other k e = elim (Bool-cases (parent == p && name == other)) [
  | inl same ↦
      let is : id ≡ k = some_inj (rw same at (sym (entry-enter id parent name s p other) ∙ e)) in
      ground (
        arith,
        is,
        lookup-insert id k parent s.fileid_dir_m,
        lookup-insert id k name s.fileid_name_m,
        str_eq_iff name other,
      )
  | inr differ ↦
      let old : entry p other s ≡ some k =
        rw differ at (sym (entry-enter id parent name s p other) ∙ e) in
      let back = h p other k old in
      let apart : (id == k) ≡ false =
        ground (arith, back.1, new, ap (λ i. lookup i s.fileid_name_m)) in
      ground (
        arith,
        back.0,
        back.1,
        lookup-insert id k parent s.fileid_dir_m,
        lookup-insert id k name s.fileid_name_m,
      )
]

pub entry-forget :
    (now pid id : ℕ) (s : ExtentServer) (p : ℕ) (other : Bytes)
    → entry p other (forget now pid id s) ≡ (
        if at id 0 s.fileid_dir_m == p && at id [] s.fileid_name_m == other
        then none
        else entry p other s)
unfolding forget
entry-forget now pid id s p other =
    let parent = at id 0 s.fileid_dir_m in
    let name = at id [] s.fileid_name_m in
    let fmap = at parent [] s.dirid_fmap_m in
    elim (Bool-cases (parent == p)) [
      | inr away ↦ ground (arith, lookup-insert parent p (erase name fmap) s.dirid_fmap_m)
      | inl here ↦ ground (
        arith,
        lookup-insert parent p (erase name fmap) s.dirid_fmap_m,
        lookup-erase name other fmap,
        ap (λ k. lookup k s.dirid_fmap_m) ((nat_beq_iff parent p).0 here),
      )
    ]

pub forget-Linked : (now pid id : ℕ) (s : ExtentServer) → Linked s → Linked (forget now pid id s)
unfolding forget
forget-Linked now pid id s h p other k e =
    let gone = at id 0 s.fileid_dir_m == p && at id [] s.fileid_name_m == other in
    elim (Bool-cases gone) [
      | inl same ↦ absurd (cc (rw same at (sym (entry-forget now pid id s p other) ∙ e)))
      | inr differ ↦
          let old : entry p other s ≡ some k =
            rw differ at (sym (entry-forget now pid id s p other) ∙ e) in
          let back = h p other k old in
          let apart : (id == k) ≡ false = elim (Bool-cases (id == k)) [
            | inr apart ↦ apart
            | inl same ↦
                let is : k ≡ id = sym ((nat_beq_iff id k).0 same) in
                let dir : lookup id s.fileid_dir_m ≡ some p =
                  subst (λ i. lookup i s.fileid_dir_m ≡ some p) is back.0 in
                let name : lookup id s.fileid_name_m ≡ some other =
                  subst (λ i. lookup i s.fileid_name_m ≡ some other) is back.1 in
                ground (arith, dir, name, differ, str_eq_iff other other)
          ] in
          ground (
            arith,
            back.0,
            back.1,
            apart,
            lookup-erase id k s.fileid_dir_m,
            lookup-erase id k s.fileid_name_m,
          )
    ]

-- An empty entry for a directory changes no listing.
pub touch_same : (id p : ℕ) (m : Map ℕ (Map Bytes ℕ)) → at p [] (touch id [] m) ≡ at p [] m
touch_same id p m = ground (arith, lookup-touch id p [] m, ap (λ k. lookup k m))

abbrev pub touched : ℕ → ExtentServer → ExtentServer
touched id s = record s { dirid_fmap_m = touch id [] s.dirid_fmap_m }

pub touched-Linked : (id : ℕ) (s : ExtentServer) → Linked s → Linked (touched id s)
touched-Linked id s h p other k e =
    h p other k (ap (lookup other) (sym (touch_same id p s.dirid_fmap_m)) ∙ e)

-- The directories after an entry is taken out.
abbrev pub WithoutEntry : ℕ → Bytes → ExtentServer → ExtentServer → Type 0
WithoutEntry pid name s t =
    (p : ℕ) (other : Bytes)
    → entry p other t ≡ (if pid == p && name == other then none else entry p other s)

pub forget-entry :
    (now pid id : ℕ) (name : Bytes) (s : ExtentServer)
    → Linked s
    → entry pid name s ≡ some id
    → WithoutEntry pid name s (forget now pid id s)
forget-entry now pid id name s h e p other =
    let back = h pid name id e in
    let dir : at id 0 s.fileid_dir_m ≡ pid = ground (arith, back.0) in
    let called : at id [] s.fileid_name_m ≡ name = ground (arith, back.1) in
    entry-forget now pid id s p other
    ∙ ap (λ d. if d == p && at id [] s.fileid_name_m == other then none else entry p other s) dir
    ∙ ap (λ n. if pid == p && n == other then none else entry p other s) called

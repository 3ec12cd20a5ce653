-- ===== src/Extent/Server/Names.antt =====
-- What creating and removing do to the directories.
use lab.Base.{
  ℕ, ◌≡◌, sym, ap, ◌∙◌, inl, inr, true, false, none, some, [], ◌==◌, if◌then◌else◌, nat_key, length,
  arith, Bool-cases, Option-cases, nat_beq_iff, ◌&&◌,
}
use lab.Base.Bytes.{Bytes, str_key}
use lab.Base.Map.{lookup, insert, has, at, lookup-insert}
use lab.Extent.Server.{
  ExtentServer, ok, noent, put, enter, forget, file_id, dir_id, create_file, create_dir, remove,
  isdir,
}
use lab.Extent.Server.Linked.{
  entry, Linked, entry-enter, enter-Linked, forget-Linked, touch_same, touched, touched-Linked,
  WithoutEntry, forget-entry,
}

nothing : {id : ℕ} → none ≡ some id → ⊥
nothing e = cc e

true-false : true ≡ false → ⊥
true-false e = cc e

remove-some :
    (now pid id : ℕ) (name : Bytes) (s : ExtentServer)
    → entry pid name s ≡ some id
    → (isdir id ≡ true → at id [] s.dirid_fmap_m ≡ [])
    → remove now pid name s ≡ (ok, forget now pid id (if isdir id then touched id s else s))
unfolding remove lookup
remove-some now pid id name s e empty = elim (Option-cases (lookup pid s.dirid_fmap_m)) [
  | inl unknown ↦
      let bare : at pid [] s.dirid_fmap_m ≡ [] = ground (arith, unknown) in
      absurd (nothing (ap (lookup name) (sym bare) ∙ e))
  | inr (fmap, known) ↦
      let found : at pid [] s.dirid_fmap_m ≡ fmap = ground (arith, known) in
      let named : lookup name fmap ≡ some id = ap (lookup name) (sym found) ∙ e in
      elim (Bool-cases (isdir id)) [
        | inr file ↦ rw (known, named, file, remove)
        | inl dir ↦
            let none_in : (length (at id [] s.dirid_fmap_m) == 0) ≡ true =
              ap (λ m. length m == 0) (empty dir) in
            rw (known, named, dir, none_in, remove)
      ]
]

-- The directories after an entry is made.
abbrev pub WithEntry : ℕ → Bytes → ℕ → ExtentServer → ExtentServer → Type 0
WithEntry pid name id s t =
    (p : ℕ) (other : Bytes)
    → entry p other t ≡ (if pid == p && name == other then some id else entry p other s)

-- In a server whose directories agree with its names and parents, `remove` of an entry, of a
-- file or of an empty directory, succeeds: it takes out this entry and no other, and keeps the
-- agreement.
pub remove-entry :
    (now pid id : ℕ) (name : Bytes) (s : ExtentServer)
    → Linked s
    → entry pid name s ≡ some id
    → (isdir id ≡ true → at id [] s.dirid_fmap_m ≡ [])
    → (t : ExtentServer) × (remove now pid name s ≡ (ok, t)) × Linked t × WithoutEntry pid name s t
remove-entry now pid id name s h e empty = elim (Bool-cases (isdir id)) [
  | inr file ↦ (
    forget now pid id s,
    remove-some now pid id name s e empty
        ∙ ap (λ b. (ok, forget now pid id (if b then touched id s else s))) file,
    forget-Linked now pid id s h,
    forget-entry now pid id name s h e,
  )
  | inl dir ↦ (
    forget now pid id (touched id s),
    remove-some now pid id name s e empty
        ∙ ap (λ b. (ok, forget now pid id (if b then touched id s else s))) dir,
    forget-Linked now pid id (touched id s) (touched-Linked id s h),
    λ p other.
        forget-entry now pid id name (touched id s) (touched-Linked id s h)
          (ap (lookup name) (touch_same id pid s.dirid_fmap_m) ∙ e) p other
        ∙ ap (λ m. if pid == p && name == other then none else lookup other m)
            (touch_same id p s.dirid_fmap_m),
  )
]

-- In a server whose directories agree with its names and parents, `createFile` in a directory
-- that has a name, where the random number gives an extent that has none, succeeds with that
-- extent: it makes this entry and changes no other, the file is empty, and the agreement is
-- kept.
pub create_file_entry :
    (now num pid mode _id : ℕ) (name : Bytes) (s : ExtentServer)
    → Linked s
    → has pid s.fileid_name_m ≡ true
    → lookup (file_id num) s.fileid_name_m ≡ none
    → (t : ExtentServer) × (create_file now num pid name mode _id s ≡ (ok, file_id num, t))
      × Linked t
      × WithEntry pid name (file_id num) s t
      × (lookup (file_id num) t.fileid_content_m ≡ some [])
unfolding create_file put enter
create_file_entry now num pid mode _id name s h named new = (
  (create_file now num pid name mode _id s).2,
  rw named,
  rw named (enter-Linked (file_id num) pid name s new h),
  rw named (entry-enter (file_id num) pid name s),
  rw named
      (ground (arith, lookup-insert {V = Bytes} (file_id num) (file_id num) [] s.fileid_content_m)),
)

-- In a server whose directories agree with its names and parents, `createDir` in a directory
-- that has a listing, where the random number gives an extent that has no name, succeeds: it
-- makes this entry and changes no other, and keeps the agreement.
pub create_dir_entry :
    (now num pid : ℕ) (name : Bytes) (s : ExtentServer)
    → Linked s
    → has pid s.dirid_fmap_m ≡ true
    → lookup (dir_id num) s.fileid_name_m ≡ none
    → (t : ExtentServer) × (create_dir now num pid name s ≡ (ok, t))
      × Linked t
      × WithEntry pid name (dir_id num) s t
unfolding create_dir enter
create_dir_entry now num pid name s h listed new = (
  (create_dir now num pid name s).1,
  rw listed,
  rw listed (enter-Linked (dir_id num) pid name s new h),
  rw listed (entry-enter (dir_id num) pid name s),
)

-- A directory that `createDir` has just made, under a number that had no listing, does not take
-- another one: `createDir` inside it answers NOENT.
pub new_dir_refuses :
    (now num later num' pid : ℕ) (name inner : Bytes) (s : ExtentServer)
    → has pid s.dirid_fmap_m ≡ true
    → has (dir_id num) s.dirid_fmap_m ≡ false
    → let t = (create_dir now num pid name s).1 in
      ((create_dir now num pid name s).0 ≡ ok)
      × (create_dir later num' (dir_id num) inner t ≡ (noent, t))
unfolding create_dir enter
new_dir_refuses now num later num' pid name inner s listed fresh =
    let t = (create_dir now num pid name s).1 in
    let apart : (pid == dir_id num) ≡ false = elim (Bool-cases (pid == dir_id num)) [
      | inr apart ↦ apart
      | inl same ↦ absurd (
          true-false (
            sym listed
            ∙ ap (λ k. has k s.dirid_fmap_m) ((nat_beq_iff pid (dir_id num)).0 same)
            ∙ fresh))
    ] in
    let unlisted : has (dir_id num) t.dirid_fmap_m ≡ false = rw listed (
      ground (
        arith,
        fresh,
        apart,
        lookup-insert pid (dir_id num) (insert name (dir_id num) (at pid [] s.dirid_fmap_m))
            s.dirid_fmap_m,
      )) in
    (rw listed, rw unlisted)

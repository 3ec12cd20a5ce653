-- ===== src/Rpc/Marshal/Containers.antt =====
-- The operators on `std::vector` and `std::map` (the templates of rpc/marshall.h).
use lab.Base.{
  ℕ, zero, suc, ◌+◌, ◌%◌, ◌^◌, ◌<◌, ◌≡◌, sym, ap, ◌∙◌, none, some, List, [], ◌∷◌, ◌++◌, append-nil,
  append_assoc, length, length-append, All, arith,
}
use lab.Base.Key.{Key}
use lab.Base.Bytes.{Bytes}
use lab.Base.Map.{Map, insert, IsSorted, Below, insert_last, Below-snoc}
use lab.Rpc.Marshal.{Marshall, Get, ◌>>=◌, put_u32, get_u32}
use lab.Rpc.Marshal.Laws.{Wire, cursor, u32, u32_bytes, u32_put, get_then}

module _ {A : Type 0} (w : Wire A) where
  unfoldable pub put_each : List A → Marshall → Marshall
  put_each [] m = m
  put_each (a ∷ xs) m = put_each xs (w.put a m)

  unfoldable pub put_vector : List A → Marshall → Marshall
  unfolding put_each
  put_vector v m = put_each v (put_u32 (length v % 2 ^ 32) m)

  -- `n` rounds of the loop: the elements go behind those that `v` has already.
  unfoldable pub get_each : ℕ → List A → Get (List A)
  get_each zero v u = some (v, u)
  get_each (suc n) v u = elim (w.get u) [ none ↦ none | some (z, u') ↦ get_each n (v ++ z ∷ []) u' ]

  unfoldable pub get_vector : List A → Get (List A)
  unfolding get_each
  get_vector v = do n ← get_u32; get_each n v

  abbrev pub each_bytes : List A → Bytes
  each_bytes [] = []
  each_bytes (a ∷ xs) = w.bytes a ++ each_bytes xs

  abbrev pub vector_bytes : List A → Bytes
  vector_bytes v = u32_bytes (length v % 2 ^ 32) ++ each_bytes v

  put_each_lem : (v : List A) (m : Marshall) → (put_each v m).body ≡ m.body ++ each_bytes v
  unfolding put_each
  put_each_lem [] m = sym (append-nil m.body)
  put_each_lem (a ∷ xs) m =
      put_each_lem xs (w.put a m)
      ∙ rw (w.put_lem a m) (append_assoc m.body (w.bytes a) (each_bytes xs))

  pub put_vector_lem :
      (v : List A) (m : Marshall) → (put_vector v m).body ≡ m.body ++ vector_bytes v
  unfolding put_vector
  put_vector_lem v m =
      put_each_lem v (put_u32 (length v % 2 ^ 32) m)
      ∙ rw (u32_put (length v % 2 ^ 32) m)
          (append_assoc m.body (u32_bytes (length v % 2 ^ 32)) (each_bytes v))

  get_each_lem :
      (v old : List A) (i : ℕ) (r : Bytes)
      → All w.Fits v
      → i + length (each_bytes v ++ r) < 2 ^ 31
      → get_each (length v) old (cursor i (each_bytes v ++ r))
        ≡ some (old ++ v, cursor (i + length (each_bytes v)) r)
  unfolding get_each
  get_each_lem [] old i r f h = rw (append-nil old) (ap (λ j. some (old, cursor j r)) (omega arith))
  get_each_lem (a ∷ xs) old i r f h =
      let split = append_assoc (w.bytes a) (each_bytes xs) r in
      let size = length-append (w.bytes a) (each_bytes xs ++ r) in
      let here = length-append (w.bytes a) (each_bytes xs) in
      rw split (
        rw (w.get_lem a i (each_bytes xs ++ r) f.0 (omega (arith, ap length split)), get_each)
          (get_each_lem xs (old ++ a ∷ []) (i + length (w.bytes a)) r f.1
              (omega (arith, size, ap length split))
            ∙ rw (append_assoc old (a ∷ []) xs)
                (ap (λ j. some (old ++ a ∷ xs, cursor j r)) (omega (arith, here)))))

  -- A vector that was written is read back behind the elements that the target has.
  pub get_vector_lem :
      (v old : List A) (i : ℕ) (r : Bytes)
      → All w.Fits v
      → length v < 2 ^ 32
      → i + length (vector_bytes v ++ r) < 2 ^ 31
      → get_vector old (cursor i (vector_bytes v ++ r))
        ≡ some (old ++ v, cursor (i + length (vector_bytes v)) r)
  unfolding get_vector
  get_vector_lem v old i r f l h =
      let n = length v % 2 ^ 32 in
      let e : n ≡ length v = omega arith in
      let content : get_each n old (cursor (i + 4) (each_bytes v ++ r))
          ≡ some (old ++ v, cursor (i + 4 + length (each_bytes v)) r) =
        rw e (get_each_lem v old (i + 4) r f (omega arith)) in
      get_then u32 _ n i (each_bytes v ++ r) (omega arith) (omega arith)
      ∙ content
      ∙ ap (λ j. some (old ++ v, cursor j r)) (omega arith)

module _ {K V : Type 0} ⦃o : Key K⦄ (k : Wire K) (w : Wire V) where
  unfoldable pub put_entries : Map K V → Marshall → Marshall
  put_entries [] m = m
  put_entries ((a, b) ∷ d) m = put_entries d (w.put b (k.put a m))

  unfoldable pub put_map : Map K V → Marshall → Marshall
  unfolding put_entries
  put_map d m = put_entries d (put_u32 (length d % 2 ^ 32) m)

  unfoldable pub get_entries : ℕ → Map K V → Get (Map K V)
  get_entries zero d u = some (d, u)
  get_entries (suc n) d u = elim (k.get u) [
    | none ↦ none
    | some (a, u') ↦ elim (w.get u') [ none ↦ none | some (b, t) ↦ get_entries n (insert a b d) t ]
  ]

  -- `d.clear()` comes before the loop.
  unfoldable pub get_map : Get (Map K V)
  unfolding get_entries
  get_map = do n ← get_u32; get_entries n []

  abbrev pub entries_bytes : Map K V → Bytes
  entries_bytes [] = []
  entries_bytes ((a, b) ∷ d) = k.bytes a ++ (w.bytes b ++ entries_bytes d)

  abbrev pub map_bytes : Map K V → Bytes
  map_bytes d = u32_bytes (length d % 2 ^ 32) ++ entries_bytes d

  abbrev pub EntriesFit : Map K V → Type 0
  EntriesFit [] = Unit
  EntriesFit ((a, b) ∷ d) = k.Fits a × w.Fits b × EntriesFit d

  put_entries_lem :
      (d : Map K V) (m : Marshall) → (put_entries d m).body ≡ m.body ++ entries_bytes d
  unfolding put_entries
  put_entries_lem [] m = sym (append-nil m.body)
  put_entries_lem ((a, b) ∷ d) m =
      put_entries_lem d (w.put b (k.put a m))
      ∙ rw (w.put_lem b (k.put a m), k.put_lem a m)
          (append_assoc (m.body ++ k.bytes a) (w.bytes b) (entries_bytes d)
            ∙ append_assoc m.body (k.bytes a) (w.bytes b ++ entries_bytes d))

  pub put_map_lem : (d : Map K V) (m : Marshall) → (put_map d m).body ≡ m.body ++ map_bytes d
  unfolding put_map
  put_map_lem d m =
      put_entries_lem d (put_u32 (length d % 2 ^ 32) m)
      ∙ rw (u32_put (length d % 2 ^ 32) m)
          (append_assoc m.body (u32_bytes (length d % 2 ^ 32)) (entries_bytes d))

  -- The keys of `new` stand behind those of `old`, in their order.
  abbrev pub Follows : Map K V → Map K V → Type 0
  Follows old [] = Unit
  Follows old ((a, b) ∷ d) = Below a old × Follows (old ++ (a, b) ∷ []) d

  get_entries_lem :
      (d old : Map K V) (i : ℕ) (r : Bytes)
      → EntriesFit d
      → Follows old d
      → i + length (entries_bytes d ++ r) < 2 ^ 31
      → get_entries (length d) old (cursor i (entries_bytes d ++ r))
        ≡ some (old ++ d, cursor (i + length (entries_bytes d)) r)
  unfolding get_entries
  get_entries_lem [] old i r f s h =
      rw (append-nil old) (ap (λ j. some (old, cursor j r)) (omega arith))
  get_entries_lem ((a, b) ∷ d) old i r f s h =
      let p = append_assoc (k.bytes a) (w.bytes b ++ entries_bytes d) r in
      let q = append_assoc (w.bytes b) (entries_bytes d) r in
      let c = length-append (k.bytes a) ((w.bytes b ++ entries_bytes d) ++ r) in
      let e = length-append (w.bytes b) (entries_bytes d ++ r) in
      let x = length-append (k.bytes a) (w.bytes b ++ entries_bytes d) in
      let y = length-append (w.bytes b) (entries_bytes d) in
      rw
        (
          p,
          k.get_lem a i ((w.bytes b ++ entries_bytes d) ++ r) f.0 (omega (arith, ap length p)),
          get_entries,
        )
        (rw
          (
            q,
            w.get_lem b (i + length (k.bytes a)) (entries_bytes d ++ r) f.1
                (omega (arith, ap length p, ap length q, c)),
            get_entries,
            insert_last a b old s.0,
          )
          (get_entries_lem d (old ++ (a, b) ∷ []) (i + length (k.bytes a) + length (w.bytes b)) r
              f.2 s.1 (omega (arith, ap length p, ap length q, c, e))
            ∙ rw (append_assoc old ((a, b) ∷ []) d)
                (ap (λ j. some (old ++ (a, b) ∷ d, cursor j r)) (omega (arith, x, y)))))

  abbrev pub HeadBelow : Map K V → Map K V → Type 0
  HeadBelow old [] = Unit
  HeadBelow old ((a, b) ∷ d) = Below a old

  pub Follows-IsSorted : (d old : Map K V) → IsSorted d → HeadBelow old d → Follows old d
  Follows-IsSorted [] old s h = tt
  Follows-IsSorted ((a, b) ∷ []) old s h = (h, tt)
  Follows-IsSorted ((a, b) ∷ (c, e) ∷ d) old s h =
      (h, Follows-IsSorted ((c, e) ∷ d) (old ++ (a, b) ∷ []) s.1 (Below-snoc a c b old h s.0.0))

  pub HeadBelow-nil : (d : Map K V) → HeadBelow [] d
  HeadBelow-nil [] = tt
  HeadBelow-nil ((a, b) ∷ d) = tt

  -- A map that was written is read back, whatever its keys and values are.
  pub get_map_lem :
      (d : Map K V) (i : ℕ) (r : Bytes)
      → EntriesFit d
      → IsSorted d
      → length d < 2 ^ 32
      → i + length (map_bytes d ++ r) < 2 ^ 31
      → get_map (cursor i (map_bytes d ++ r)) ≡ some (d, cursor (i + length (map_bytes d)) r)
  unfolding get_map
  get_map_lem d i r f s l h =
      let n = length d % 2 ^ 32 in
      let e : n ≡ length d = omega arith in
      let content : get_entries n [] (cursor (i + 4) (entries_bytes d ++ r))
          ≡ some (d, cursor (i + 4 + length (entries_bytes d)) r) =
        rw e (
          get_entries_lem d [] (i + 4) r f (Follows-IsSorted d [] s (HeadBelow-nil d))
            (omega arith)) in
      get_then u32 _ n i (entries_bytes d ++ r) (omega arith) (omega arith)
      ∙ content
      ∙ ap (λ j. some (d, cursor j r)) (omega arith)

abbrev pub vector : {A : Type 0} → Wire A → Wire (List A)
vector w = record {
  put = put_vector w;
  get = get_vector w [];
  bytes = vector_bytes w;
  Fits = λ v. All w.Fits v × (length v < 2 ^ 32);
  put_lem = put_vector_lem w;
  get_lem = λ v i r f. get_vector_lem w v [] i r f.0 f.1;
}

abbrev pub map : {K V : Type 0} ⦃o : Key K⦄ → Wire K → Wire V → Wire (Map K V)
map k w = record {
  put = put_map k w;
  get = get_map k w;
  bytes = map_bytes k w;
  Fits = λ d. EntriesFit k w d × IsSorted d × (length d < 2 ^ 32);
  put_lem = put_map_lem k w;
  get_lem = λ d i r f. get_map_lem k w d i r f.0 f.1 f.2;
}

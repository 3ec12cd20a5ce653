-- ===== src/Rpc/Marshal/RoundTrip.antt =====
-- What `<<` writes to a fresh message, `>>` reads.
use lab.Base.{ℕ, true, refl, arith, ◌+◌, ◌^◌, ◌<◌, ◌≡◌, some, List, ◌++◌, length, All}
use lab.Base.Bytes.{Bytes}
use lab.Base.Key.{Key}
use lab.Base.Map.{Map, IsSorted}
use lab.Rpc.Marshal.{fresh, take_content, rpc_header_sz, is_int}
use lab.Rpc.Marshal.Laws.{Wire, cursor}
use lab.Rpc.Marshal.Containers.{
  put_vector, get_vector, put_vector_lem, get_vector_lem, put_map, get_map, put_map_lem,
  get_map_lem, EntriesFit,
}

pub take_content_lem :
    (s : Bytes) → length s + rpc_header_sz < 2 ^ 31 → take_content s ≡ cursor rpc_header_sz s
unfolding take_content
take_content_lem s h =
    let fits : is_int (length s + rpc_header_sz) ≡ true = ground (arith, h) in rw fits refl

pub read_back :
    {A : Type 0} (w : Wire A) (a : A) (i : ℕ) (r : Bytes)
    → w.Fits a
    → i + length ((w.put a fresh).body ++ r) < 2 ^ 31
    → w.get (cursor i ((w.put a fresh).body ++ r))
      ≡ some (a, cursor (i + length (w.put a fresh).body) r)
read_back w a i r f h = let e = w.put_lem a fresh in rw e (w.get_lem a i r f (rw e at h))

-- A vector of fewer than 2 ^ 32 elements that fit their type, written to a message, is read back
-- at any place of a message below 2 GB: the elements come behind those that the target has, and
-- the cursor stands behind the vector.
pub vector_round_trip :
    {A : Type 0} (w : Wire A) (v old : List A) (i : ℕ) (r : Bytes)
    → All w.Fits v
    → length v < 2 ^ 32
    → i + length ((put_vector w v fresh).body ++ r) < 2 ^ 31
    → get_vector w old (cursor i ((put_vector w v fresh).body ++ r))
      ≡ some (old ++ v, cursor (i + length (put_vector w v fresh).body) r)
vector_round_trip w v old i r f l h =
    let e = put_vector_lem w v fresh in rw e (get_vector_lem w v old i r f l (rw e at h))

-- A map in key order with fewer than 2 ^ 32 entries that fit their types, written to a message,
-- is read back into an empty map, at any place of a message below 2 GB.
pub map_round_trip :
    {K V : Type 0} ⦃o : Key K⦄ (k : Wire K) (w : Wire V) (d : Map K V) (i : ℕ) (r : Bytes)
    → EntriesFit k w d
    → IsSorted d
    → length d < 2 ^ 32
    → i + length ((put_map k w d fresh).body ++ r) < 2 ^ 31
    → get_map k w (cursor i ((put_map k w d fresh).body ++ r))
      ≡ some (d, cursor (i + length (put_map k w d fresh).body) r)
map_round_trip k w d i r f s l h =
    let e = put_map_lem k w d fresh in rw e (get_map_lem k w d i r f s l (rw e at h))

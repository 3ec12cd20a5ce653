-- ===== src/Extent/Client/Tests.antt =====
-- Runs of the cache, and the theorem at a concrete input.
use lab.Base.{ℕ, ◌+◌, ◌^◌, ◌≡◌, refl, inl, none, some, [], ◌∷◌, arith, nat_key}
use lab.Base.Map.{lookup}
use lab.Extent.Server
use lab.Extent.Server.{ExtentServer, ok, noent, stamp}
use lab.Extent.Client.{ExtentClient, cached, write, flush, drop_entry, set_attr, cached_part}
use lab.Extent.Client.Flush.{flush_same}

abbrev file : ℕ
file = 2 ^ 31 + 5

-- A server where the file holds "ab".
abbrev stored : ExtentServer
stored = record {
  fileid_open_m = [];
  fileid_content_m = (file, 97 ∷ 98 ∷ []) ∷ [];
  fileid_name_m = [];
  fileid_dir_m = [];
  fileid_attr_m = (file, stamp 1 2) ∷ [];
  dirid_fmap_m = [];
  fileid_mode_m = (file, 420) ∷ [];
}

abbrev loaded : ExtentClient
loaded = record {
  cache_content = (file, 97 ∷ 98 ∷ []) ∷ [];
  cache_attr = (file, stamp 1 2) ∷ [];
  cache_mode = (file, 420) ∷ [];
  cache_status = (file, cached) ∷ [];
}

flush_same_example :
    (c' : ExtentClient) × (t e : ExtentServer) × (write 3 file 1 (120 ∷ 121 ∷ []) loaded stored
      ≡ some (ok, c', stored))
    × (flush 4 file c' stored ≡ some (drop_entry file c', t))
    × (lookup file (drop_entry file c').cache_status ≡ none)
    × (Server.write 3 file 1 2 (120 ∷ 121 ∷ []) stored ≡ some (ok, e))
    × (lookup file t.fileid_content_m ≡ lookup file e.fileid_content_m)
unfolding lookup Server.resize
flush_same_example =
    flush_same 3 4 file 1 (120 ∷ 121 ∷ []) (97 ∷ 98 ∷ []) (97 ∷ 98 ∷ []) loaded stored stored
      (inl refl) refl refl refl (omega arith) (omega arith) (omega arith)

-- A smaller size for a cached extent leaves its content as it was.
cut_is_read :
    cached_part file 0 9 (set_attr 3 file (stamp 1 0) loaded stored).1 ≡ some (97 ∷ 98 ∷ [])
unfolding cached_part set_attr Server.substr lookup
cut_is_read = refl

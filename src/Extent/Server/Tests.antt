-- ===== src/Extent/Server/Tests.antt =====
-- The theorems on the extent server at concrete inputs.
use lab.Base.{ℕ, ◌+◌, ◌≡◌, refl, some, [], ◌∷◌, arith, nat_key, get_elem?, ◌^◌}
use lab.Base.Bytes.{Bytes, str_key}
use lab.Base.Map.{lookup}
use lab.Extent.Server.{
  init, ExtentServer, ok, noent, no_attr, file_id, dir_id, isdir, isfile, write, remove,
  create_file, create_dir,
}
use lab.Extent.Server.Content.{byte_after, write_bytes}
use lab.Extent.Server.Linked.{Linked, WithoutEntry}
use lab.Extent.Server.Names.{WithEntry, remove-entry, create_file_entry, new_dir_refuses}

-- The root directory, and the file "a" in it, with two bytes.
abbrev one_file : ExtentServer
one_file = record {
  fileid_open_m = [];
  fileid_content_m = (2 ^ 31 + 5, 65 ∷ 66 ∷ []) ∷ [];
  fileid_name_m = (1, 47 ∷ []) ∷ (2 ^ 31 + 5, 97 ∷ []) ∷ [];
  fileid_dir_m = (2 ^ 31 + 5, 1) ∷ [];
  fileid_attr_m = (1, no_attr) ∷ (2 ^ 31 + 5, no_attr) ∷ [];
  dirid_fmap_m = (1, (97 ∷ [], 2 ^ 31 + 5) ∷ []) ∷ [];
  fileid_mode_m = [];
}

one_file-Linked : Linked one_file
unfolding lookup
one_file-Linked p name id e = ground arith

write_bytes_example :
    (str : Bytes) × (t : ExtentServer) × (write 9 (2 ^ 31 + 5) 4 1 (67 ∷ []) one_file
      ≡ some (ok, t))
    × (lookup (2 ^ 31 + 5) t.fileid_content_m ≡ some str)
    × ((i : ℕ) → get_elem? str i ≡ byte_after (65 ∷ 66 ∷ []) 4 (67 ∷ []) i)
unfolding lookup
write_bytes_example =
    write_bytes 9 (2 ^ 31 + 5) 4 (67 ∷ []) (65 ∷ 66 ∷ []) one_file refl (omega arith) (omega arith)

remove-entry_example :
    (t : ExtentServer) × (remove 9 1 (97 ∷ []) one_file ≡ (ok, t))
    × Linked t
    × WithoutEntry 1 (97 ∷ []) one_file t
unfolding lookup isdir isfile
remove-entry_example =
    remove-entry 9 1 (2 ^ 31 + 5) (97 ∷ []) one_file one_file-Linked refl (λ e. absurd (cc e))

create_file_entry_example :
    (t : ExtentServer) × (create_file 9 6 1 (98 ∷ []) 420 0 one_file ≡ (ok, file_id 6, t))
    × Linked t
    × WithEntry 1 (98 ∷ []) (file_id 6) one_file t
    × (lookup (file_id 6) t.fileid_content_m ≡ some [])
unfolding lookup
create_file_entry_example =
    create_file_entry 9 6 1 420 0 (98 ∷ []) one_file one_file-Linked refl refl

new_dir_refuses_example :
    ((create_dir 9 6 1 (98 ∷ []) one_file).0 ≡ ok)
    × (create_dir 10 7 (dir_id 6) (99 ∷ []) (create_dir 9 6 1 (98 ∷ []) one_file).1
        ≡ (noent, (create_dir 9 6 1 (98 ∷ []) one_file).1))
unfolding lookup
new_dir_refuses_example = new_dir_refuses 9 6 10 7 1 (98 ∷ []) (99 ∷ []) one_file refl refl

-- The root directory of a new server after the file "b" is made in it.
abbrev grown : ExtentServer
grown = (create_file 9 6 1 (98 ∷ []) 420 0 (init 8)).2

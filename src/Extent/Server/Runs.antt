-- ===== src/Extent/Server/Runs.antt =====
-- The directories along any sequence of calls to the extent server.
use lab.Base.{ℕ, ◌≡◌, Option, none, some, List, [], ◌∷◌, nat_key}
use lab.Base.Bytes.{Bytes, str_key}
use lab.Base.Map.{lookup}
use lab.Protocol.Extent.{Attr}
use lab.Extent.Server.{
  ExtentServer, Status, put, file_id, dir_id, create_file, create_dir, remove, readdir, get,
  open_file, set_mode, set_attr, write,
}
use lab.Extent.Server.Linked.{Linked}

-- The calls that change the server.
pub data Event : Type 0 where
  puts : ℕ → ℕ → Bytes → Event
  readdirs : ℕ → Event
  gets : ℕ → ℕ → ℕ → ℕ → Event
  removes : ℕ → ℕ → Bytes → Event
  creates_file : ℕ → ℕ → ℕ → Bytes → ℕ → Event
  opens : ℕ → ℕ → Event
  creates_dir : ℕ → ℕ → ℕ → Bytes → Event
  sets_mode : ℕ → ℕ → ℕ → Event
  sets_attr : ℕ → ℕ → Attr → Event
  writes : ℕ → ℕ → ℕ → ℕ → Bytes → Event

abbrev read_state : Option (Status × Bytes × ExtentServer) → Option ExtentServer
read_state none = none
read_state (some (st, buf, s)) = some s

abbrev written_state : Option (Status × ExtentServer) → Option ExtentServer
written_state none = none
written_state (some (st, s)) = some s

-- `none` where the server has ended on an exception.
unfoldable pub step : Event → ExtentServer → Option ExtentServer
step (puts now id buf) s = some (put now id buf s)
step (readdirs dirid) s = some (readdir dirid [] s).2
step (gets now id off size) s = read_state (get now id off size [] s)
step (removes now pid name) s = some (remove now pid name s).1
step (creates_file now num pid name mode) s = some (create_file now num pid name mode 0 s).2
step (opens now id) s = some (open_file now id s)
step (creates_dir now num pid name) s = some (create_dir now num pid name s).1
step (sets_mode now id mode) s = some (set_mode now id mode s)
step (sets_attr now id attr) s = some (set_attr now id attr s).1
step (writes now id off size buf) s = written_state (write now id off size buf s)

unfoldable pub run : List Event → ExtentServer → Option ExtentServer
run [] s = some s
run (e ∷ es) s = elim (step e s) [ none ↦ none | some s' ↦ run es s' ]

-- The random number of a new file or directory gives an extent that has no name.
abbrev pub IsFresh : Event → ExtentServer → Type 0
IsFresh (creates_file now num pid name mode) s = lookup (file_id num) s.fileid_name_m ≡ none
IsFresh (creates_dir now num pid name) s = lookup (dir_id num) s.fileid_name_m ≡ none
IsFresh e s = Unit {0}

-- So it is at each step of the run.
abbrev pub AllFresh : List Event → ExtentServer → Type 0
AllFresh [] s = Unit
AllFresh (e ∷ es) s = IsFresh e s × ((s' : ExtentServer) → step e s ≡ some s' → AllFresh es s')

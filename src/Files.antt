-- ===== src/Files.antt =====
-- The files that pkg/ipsum and pkg/logging write: a map from paths to contents, and what it was
-- after each earlier system call.
use Prim.Native.String.{String}
use go_connect.Base.{◌∷◌, List, none, some, Dict, string_key, lookup, insert, delete}
use go_connect.Bytes.{Bytes}

abbrev pub Files : Type 0
Files = Dict String Bytes

-- `seen` has the earlier states, the latest first.
pub record Disk : Type 0 where
  pub files : Files
  pub seen : List Files

abbrev pub change : (Files → Files) → Disk → Disk
change f d = record { files = f d.files; seen = d.files ∷ d.seen }

-- `os.Rename`
unfoldable pub rename : String → String → Files → Files
rename from to f = elim (lookup from f) [ none ↦ f | some xs ↦ insert to xs (delete from f) ]

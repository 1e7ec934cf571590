-- ===== src/Filters/Ipsum/Download.antt =====
-- `DownloadToFile` of pkg/ipsum/ipsum.go: the feed goes to a temporary file, which is then renamed.
pub mod Atomic
mod Tests
use Prim.Native.String.{String, ◌++◌ as join_text}
use go_connect.Base.{
  ℕ, ◌-◌, [], ◌∷◌, ◌++◌, List, Bool, true, false, not, Option, none, some, Result, ok, err, M, ◌>>◌,
  ◌>>=◌, pure, and_then, fail_if, ◌==◌, if◌then◌else◌, leb, length, take, string_key, insert,
  delete,
}
use go_connect.Bytes.{Bytes}
use go_connect.Files.{Files, Disk, change, rename}

-- The body comes in chunks, and ends well or not.
pub record Response : Type 0 where
  pub status : ℕ
  pub chunks : List Bytes
  pub complete : Bool

-- Whether the request can be made, and what comes back.
pub record Fetch : Type 0 where
  pub builds : Bool
  pub answer : Option Response

-- Which system calls succeed, and how many bytes the disk takes.
pub record Os : Type 0 where
  pub opens : Bool
  pub room : ℕ
  pub closes : Bool
  pub renames : Bool
  pub removes : Bool

pub data DownloadError : Type 0 where
  request_failed download_failed : DownloadError
  unexpected_status : ℕ → DownloadError
  create_failed write_failed close_failed rename_failed : DownloadError

unfoldable pub tmp_path : String → String
tmp_path path = join_text path ".tmp"

-- The file has `done` so far. A write that fails has written a part.
write_chunks : String → Bytes → ℕ → List Bytes → M Disk DownloadError (Unit {0})
write_chunks tmp done room [] d = (ok tt, d)
write_chunks tmp done room (xs ∷ chunks) d =
    let rest =
      write_chunks tmp (done ++ xs) (room - length xs) chunks
        (change (insert tmp (done ++ xs)) d) in
    if leb (length xs) room
    then rest
    else (err write_failed, change (insert tmp (done ++ take room xs)) d)

-- `os.Remove(tmpPath)` and the error.
or_remove :
    Bool → String → Result DownloadError (Unit {0}) × Disk → Result DownloadError (Unit {0}) × Disk
or_remove removes tmp (ok a, d) = (ok a, d)
or_remove removes tmp (err e, d) = (err e, if removes then change (delete tmp) d else d)

put_in_place : String → M Disk DownloadError (Unit {0})
unfolding tmp_path rename
put_in_place path d = (ok tt, change (rename (tmp_path path) path) d)

-- From `io.Copy` on.
save : String → Response → Os → M Disk DownloadError (Unit {0})
unfolding write_chunks put_in_place
save path r os = do
  write_chunks (tmp_path path) [] os.room r.chunks
  fail_if (not r.complete) write_failed
  fail_if (not os.closes) close_failed
  fail_if (not os.renames) rename_failed
  put_in_place path

-- From the answer on. Opening the temporary file empties it.
receive : String → Response → Os → M Disk DownloadError (Unit {0})
unfolding or_remove save
receive path r os d =
    if not (r.status == 200)
    then (err (unexpected_status r.status), d)
    else if not os.opens
    then (err create_failed, d)
    else or_remove os.removes (tmp_path path)
        (save path r os (change (insert (tmp_path path) []) d))

unfoldable pub download_to_file : String → Fetch → Os → M Disk DownloadError (Unit {0})
unfolding receive
download_to_file path fetch os d =
    if not fetch.builds
    then (err request_failed, d)
    else elim (fetch.answer) [ none ↦ (err download_failed, d) | some r ↦ receive path r os d ]

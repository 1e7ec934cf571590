-- ===== src/Logging.antt =====
-- The log files of pkg/logging/logger.go. A text is its code points; the clock, `filepath.Join` and
-- the disk's answers are arguments.
pub mod Appends
mod Tests
use Prim.Native.Char.{code}
use Prim.Native.String.{String, ◌++◌ as join_text}
use go_connect.Base.{
  ℕ, [], ◌∷◌, ◌++◌, List, Bool, true, false, not, none, some, Result, ok, err, M, ◌>>◌, fail_if,
  if◌then◌else◌, leb, length, take, Dict, Key, string_key, lookup, insert,
}
use go_connect.Bytes.{Bytes}
use go_connect.Files.{Files}

unfoldable pub codes : String → Bytes
codes String.[] = []
codes (String.◌∷◌ c s) = code c ∷ codes s

-- The severities.
abbrev pub severity_info : String
severity_info = "INFO"

abbrev pub severity_warn : String
severity_warn = "WARN"

abbrev pub severity_error : String
severity_error = "ERROR"

-- A logger for a directory; `none` where the directory cannot be made.
pub record Logger : Type 0 where
  pub dir : String

pub data LogError : Type 0 where
  no_directory open_failed write_failed : LogError

unfoldable pub new_logger : Bool → String → Result LogError Logger
new_logger made dir = if made then ok (record { dir = dir }) else err no_directory

-- What the clock says, in the formats of the file's name and of the line.
pub record Clock : Type 0 where
  pub date : String
  pub stamp : String

-- Whether the file can be opened, and how many bytes the disk takes.
pub record Os : Type 0 where
  pub opens : Bool
  pub room : ℕ

unfoldable pub log_line : Clock → String → String → Bytes → Bytes
unfolding codes
log_line clock tag severity message =
    b'[' ∷ codes clock.stamp
    ++ (codes "] ["
        ++ (codes tag
            ++ (codes "] [" ++ (codes severity ++ (codes "]\t" ++ (message ++ (codes "\n")))))))

abbrev pub content : String → Files → Bytes
content path f = elim (lookup path f) [ none ↦ [] | some xs ↦ xs ]

-- Opened with `O_APPEND` and `O_CREATE`.
open_file : Bool → String → M Files LogError (Unit {0})
open_file opens path f =
    if opens then (ok tt, insert path (content path f) f) else (err open_failed, f)

-- A write at the end of the file; one that fails has written a part.
append_to : ℕ → String → Bytes → M Files LogError (Unit {0})
append_to room path xs f =
    if leb (length xs) room
    then (ok tt, insert path (content path f ++ xs) f)
    else (err write_failed, insert path (content path f ++ take room xs) f)

module _ (join : String → String → String) where
  unfoldable pub filename : Logger → Clock → String
  filename l clock = join l.dir (join_text clock.date ".logs.txt")

  unfoldable pub log : Logger → Clock → Os → String → String → Bytes → M Files LogError (Unit {0})
  unfolding open_file append_to log_line filename
  log l clock os tag severity message = do
    open_file os.opens (filename l clock)
    append_to os.room (filename l clock) (log_line clock tag severity message)

  unfoldable pub warn : Logger → Clock → Os → String → Bytes → M Files LogError (Unit {0})
  unfolding log
  warn l clock os tag message = log l clock os tag severity_warn message

  unfoldable pub info : Logger → Clock → Os → String → Bytes → M Files LogError (Unit {0})
  unfolding log
  info l clock os tag message = log l clock os tag severity_info message

  unfoldable pub error : Logger → Clock → Os → String → Bytes → M Files LogError (Unit {0})
  unfolding log
  error l clock os tag message = log l clock os tag severity_error message

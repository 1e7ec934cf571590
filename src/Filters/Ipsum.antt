-- ===== src/Filters/Ipsum.antt =====
-- The blacklist of pkg/ipsum/ipsum.go: loading a feed and looking up an address.
pub mod Feed
pub mod Download
use Prim.Native.String.{String}
use go_connect.Base.{
  ℕ, zero, suc, ◌+◌, List, [], ◌∷◌, ◌++◌, Bool, true, false, ◌||◌, Option, none, some, Result, ok,
  err, M, if◌then◌else◌, ltb, Dict, Key, string_key, lookup, insert, ℤ, pos, negsuc, at_least,
}

-- What the code takes from strings, net and strconv. `parse_ip4` is `ParseIP`, `To4` and `String`.
pub record Parsing : Type 0 where
  pub trim_space : String → String
  pub is_empty : String → Bool
  pub is_comment : String → Bool
  pub fields : String → List String
  pub parse_ip4 : String → Option String
  pub atoi : String → Option ℤ

-- The counts that are stored are at least `min_count`, which is positive, so that they are naturals.
pub record Db : Type 0 where
  pub ips : Dict String ℕ
  pub min_count : ℕ

unfoldable pub new_db : ℤ → Db
new_db (pos n) = record { ips = []; min_count = if ltb n 1 then 1 else n }
new_db (negsuc n) = record { ips = []; min_count = 1 }

-- What a line of the feed comes to.
pub data Line : Type 0 where
  skipped unparsed : Line
  entry : String → ℤ → Line

module _ (p : Parsing) where
  classify_fields : List String → Line
  classify_fields (host ∷ count ∷ more) = elim (p.parse_ip4 host) [
    | none ↦ unparsed
    | some ip ↦ elim (p.atoi count) [ none ↦ unparsed | some cnt ↦ entry ip cnt ]
  ]
  classify_fields _ = unparsed

  unfoldable pub classify : String → Line
  unfolding classify_fields
  classify text =
      let line = p.trim_space text in
      if p.is_empty line || p.is_comment line then skipped else classify_fields (p.fields line)

-- `newMap`, and what `warn` was called with.
pub record Loading : Type 0 where
  pub new_map : Dict String ℕ
  pub warned : List (ℕ × String)

keep : ℕ → String → ℤ → Dict String ℕ → Dict String ℕ
keep min_count ip (pos cnt) d = if at_least min_count (pos cnt) then insert ip cnt d else d
keep min_count ip (negsuc cnt) d = d

take_line : ℕ → ℕ → String → Line → Loading → Loading
unfolding keep
take_line min_count line_num line skipped l = l
take_line min_count line_num line unparsed l = record l {
  warned = l.warned ++ ((line_num, line) ∷ []);
}
take_line min_count line_num line (entry ip cnt) l = record l {
  new_map = keep min_count ip cnt l.new_map;
}

load_line : Parsing → ℕ → ℕ → String → Loading → Loading
unfolding classify take_line
load_line p min_count line_num text l =
    take_line min_count line_num (p.trim_space text) (classify p text) l

load_lines : Parsing → ℕ → ℕ → List String → Loading → Loading
unfolding load_line
load_lines p min_count line_num [] l = l
load_lines p min_count line_num (text ∷ lines) l =
    load_lines p min_count (line_num + 1) lines (load_line p min_count line_num text l)

-- The lines that the scanner gives, and whether it stops at an error.
pub record Reader : Type 0 where
  pub lines : List String
  pub fails : Bool

pub data LoadError : Type 0 where
  open_error scan_error : LoadError

-- The warnings are given where there is a callback for them.
unfoldable pub load_from_reader :
    Parsing → Reader → Db → Result LoadError (Unit {0}) × (Db × List (ℕ × String))
unfolding load_lines
load_from_reader p r db =
    let l = load_lines p db.min_count 1 r.lines (record { new_map = []; warned = [] }) in
    if r.fails
    then (err scan_error, (db, l.warned))
    else (ok tt, (record db { ips = l.new_map }, l.warned))

-- `none` is a file that cannot be opened.
unfoldable pub load_from_file :
    Parsing → Option Reader → Db → Result LoadError (Unit {0}) × (Db × List (ℕ × String))
unfolding load_from_reader
load_from_file p none db = (err open_error, (db, []))
load_from_file p (some r) db = load_from_reader p r db

-- The count, where the address is blocked.
unfoldable pub is_blocked : Parsing → String → Db → Option ℕ
is_blocked p ip db = elim (p.parse_ip4 (p.trim_space ip)) [
  | none ↦ none
  | some ip4 ↦ lookup ip4 db.ips
]

-- ===== src/Filters/Ipsum/Feed.antt =====
-- What a loaded database says of an address, told from the lines of the feed.
use Prim.Native.String.{String}
use go_connect.Base.{
  ℕ, ◌+◌, ◌≤◌, ◌≡◌, refl, sym, ap, ◌∙◌, List, [], ◌∷◌, true, false, Option, none, some, err,
  if◌then◌else◌, arith, string_key, lookup, Dict, lookup-insert, ℤ, pos, negsuc, at_least,
  Option-cases, inl, inr,
}
use go_connect.Filters.Ipsum.{
  Parsing, Db, Line, skipped, unparsed, entry, classify, Loading, keep, take_line, load_line,
  load_lines, Reader, scan_error, load_from_reader, is_blocked,
}

-- The count that one line gives an address: that of an entry for it which reaches `min_count`.
line_count : ℕ → String → Line → Option ℕ
line_count min_count ip (entry other (pos cnt)) =
    if string_key.same other ip
    then (if at_least min_count (pos cnt) then some cnt else none)
    else none
line_count min_count ip _ = none

-- The count of the last line that gives one.
unfoldable pub feed_count : Parsing → ℕ → String → List String → Option ℕ
unfolding line_count
feed_count p min_count ip [] = none
feed_count p min_count ip (text ∷ lines) =
    let later = feed_count p min_count ip lines in
    elim later [ some cnt ↦ some cnt | none ↦ line_count min_count ip (classify p text) ]

abbrev or_else : Option ℕ → Option ℕ → Option ℕ
or_else (some n) d = some n
or_else none d = d

lookup-keep :
    (min_count : ℕ) (ip other : String) (cnt : ℤ) (d : Dict String ℕ)
    → lookup ip (keep min_count other cnt d)
      ≡ or_else (line_count min_count ip (entry other cnt)) (lookup ip d)
unfolding keep line_count
lookup-keep min_count ip other (pos cnt) d = ground (arith, lookup-insert other ip cnt d)
lookup-keep min_count ip other (negsuc cnt) d = refl

lookup-take_line :
    (min_count line_num : ℕ) (ip line : String) (k : Line) (l : Loading)
    → lookup ip (take_line min_count line_num line k l).new_map
      ≡ or_else (line_count min_count ip k) (lookup ip l.new_map)
unfolding take_line line_count
lookup-take_line min_count line_num ip line skipped l = refl
lookup-take_line min_count line_num ip line unparsed l = refl
lookup-take_line min_count line_num ip line (entry other cnt) l =
    lookup-keep min_count ip other cnt l.new_map

or_else_step :
    (later one : Option ℕ) (d : Option ℕ)
    → or_else later (or_else one d) ≡ or_else (elim later [ some cnt ↦ some cnt | none ↦ one ]) d
or_else_step none one d = refl
or_else_step (some n) one d = refl

lookup-load_lines :
    (p : Parsing) (min_count line_num : ℕ) (ip : String) (lines : List String) (l : Loading)
    → lookup ip (load_lines p min_count line_num lines l).new_map
      ≡ or_else (feed_count p min_count ip lines) (lookup ip l.new_map)
unfolding load_lines load_line feed_count
lookup-load_lines p min_count line_num ip [] l = refl
lookup-load_lines p min_count line_num ip (text ∷ lines) l =
    lookup-load_lines p min_count (line_num + 1) ip lines (load_line p min_count line_num text l)
    ∙ ap (or_else (feed_count p min_count ip lines))
        (lookup-take_line min_count line_num ip (p.trim_space text) (classify p text) l)
    ∙ or_else_step (feed_count p min_count ip lines) (line_count min_count ip (classify p text))
        (lookup ip l.new_map)

or_else-none : (d : Option ℕ) → or_else d none ≡ d
or_else-none none = refl
or_else-none (some n) = refl

-- After a feed was read to its end, an address is blocked with the count of the last line of the feed
-- that names it with a count of at least `min_count`, and is not blocked where no line does: nothing
-- is left of what was loaded before.
pub is_blocked-load_from_reader :
    (p : Parsing) (r : Reader) (db : Db) (ip ip4 : String)
    → r.fails ≡ false
    → p.parse_ip4 (p.trim_space ip) ≡ some ip4
    → is_blocked p ip (load_from_reader p r db).1.0 ≡ feed_count p db.min_count ip4 r.lines
unfolding is_blocked load_from_reader lookup
is_blocked-load_from_reader p r db ip ip4 ends parsed = ground (
  arith,
  lookup-load_lines p db.min_count 1 ip4 r.lines (record { new_map = []; warned = [] }),
  or_else-none (feed_count p db.min_count ip4 r.lines),
)

-- Where the scanner fails, the load is an error and the database stays as it was.
load_from_reader_failed :
    (p : Parsing) (r : Reader) (db : Db)
    → r.fails ≡ true
    → ((load_from_reader p r db).0 ≡ err scan_error) × ((load_from_reader p r db).1.0 ≡ db)
unfolding load_from_reader
load_from_reader_failed p r db f = (ground arith, ground arith)

line_count_bound :
    (min_count n : ℕ) (ip : String) (k : Line) → line_count min_count ip k ≡ some n → min_count ≤ n
unfolding line_count
line_count_bound min_count n ip (entry other (pos cnt)) e = ground arith
line_count_bound min_count n ip (entry other (negsuc cnt)) e = absurd (ground arith)
line_count_bound min_count n ip skipped e = absurd (ground arith)
line_count_bound min_count n ip unparsed e = absurd (ground arith)

feed_count_bound :
    (p : Parsing) (min_count n : ℕ) (ip : String) (lines : List String)
    → feed_count p min_count ip lines ≡ some n
    → min_count ≤ n
unfolding feed_count
feed_count_bound p min_count n ip [] e = absurd (ground arith)
feed_count_bound p min_count n ip (text ∷ lines) e =
    elim (Option-cases (feed_count p min_count ip lines)) [
      | inr (later, f) ↦ feed_count_bound p min_count n ip lines (ground arith)
      | inl f ↦ line_count_bound min_count n ip (classify p text) (ground arith)
    ]

-- An address that a feed, read to its end, blocks is blocked with a count of at least `min_count`.
is_blocked_bound :
    (p : Parsing) (r : Reader) (db : Db) (ip : String) (n : ℕ)
    → r.fails ≡ false
    → is_blocked p ip (load_from_reader p r db).1.0 ≡ some n
    → db.min_count ≤ n
unfolding is_blocked
is_blocked_bound p r db ip n ends e = elim (Option-cases (p.parse_ip4 (p.trim_space ip))) [
  | inl f ↦ absurd (ground arith)
  | inr (ip4, f) ↦
      feed_count_bound p db.min_count n ip4 r.lines
        (sym (is_blocked-load_from_reader p r db ip ip4 ends f) ∙ e)
]

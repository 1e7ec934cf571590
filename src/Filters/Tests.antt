-- ===== src/Filters/Tests.antt =====
-- The filters with a parser of a few addresses.
use Prim.Native.String.{String}
use go_connect.Base.{
  ◌≡◌, refl, [], ◌∷◌, Bool, true, false, none, some, if◌then◌else◌, string_key, lookup, insert, pos,
}
use go_connect.Filters.Ipsum.{Parsing, Reader, new_db, load_from_reader, is_blocked}
use go_connect.Filters.Ipsum.Feed.{feed_count, is_blocked-load_from_reader}
use go_connect.Filters.Geoblock.{Geo, CountryDb, normalize, open_db, is_country_blocked}
use go_connect.Filters.Geoblock.Laws.{configured, is_country_blocked-open_db}

abbrev is : String → String → Bool
is a b = string_key.same a b

-- Two lines of a feed, and the addresses on them.
abbrev few : Parsing
few = record {
  trim_space = λ s. s;
  is_empty = λ s. is s "";
  is_comment = λ s. is s "# IPsum";
  fields = λ s. if is s "192.0.2.1 8" then "192.0.2.1" ∷ "8" ∷ [] else "192.0.2.1" ∷ "2" ∷ [];
  parse_ip4 = λ s. some s;
  atoi = λ s. if is s "8" then some (pos 8) else some (pos 2);
}

abbrev feed : Reader
feed = record { lines = "# IPsum" ∷ "192.0.2.1 8" ∷ "192.0.2.1 2" ∷ []; fails = false }

is_blocked-load_from_reader_example :
    is_blocked few "192.0.2.1" (load_from_reader few feed (new_db (pos 3))).1.0
    ≡ feed_count few (new_db (pos 3)).min_count "192.0.2.1" feed.lines
is_blocked-load_from_reader_example =
    is_blocked-load_from_reader few feed (new_db (pos 3)) "192.0.2.1" "192.0.2.1" refl refl

abbrev broken_feed : Reader
broken_feed = record { lines = "192.0.2.1 8" ∷ []; fails = true }

abbrev atlas : Geo
atlas = record {
  Addr = String;
  trim_space = λ s. s;
  to_upper = λ s. if is s "de" then "DE" else s;
  is_empty = λ s. is s "";
  parse_addr = λ s. some s;
  city = λ a. some "DE";
}

abbrev opened : CountryDb
opened = record { blocked = "DE" ∷ [] }

opens : open_db atlas true ("de" ∷ "" ∷ []) ≡ some opened
unfolding open_db normalize
opens = refl

is_country_blocked-open_db_example : is_country_blocked atlas "192.0.2.1" opened ≡ (
    if atlas.is_empty "DE"
    then (false, none)
    else (configured atlas "DE" ("de" ∷ "" ∷ []), some "DE"))
is_country_blocked-open_db_example =
    is_country_blocked-open_db atlas "192.0.2.1" "DE" "192.0.2.1" ("de" ∷ "" ∷ []) opened opens refl
      refl

eight : is_blocked few "192.0.2.1" (load_from_reader few feed (new_db (pos 3))).1.0 ≡ some 8
unfolding is_blocked load_from_reader new_db lookup insert
eight = refl

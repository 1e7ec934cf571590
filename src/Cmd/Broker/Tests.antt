-- ===== src/Cmd/Broker/Tests.antt =====
-- A broker with the feed on, in a small world.
use Prim.Native.String.{String}
use go_connect.Base.{
  ◌≡◌, ◌≢◌, refl, Bool, true, false, List, [], ◌∷◌, Option, some, none, ok, err, if◌then◌else◌,
  string_key, pos,
}
use go_connect.Bytes.{Bytes}
use go_connect.Ui.Modes.{Message}
use go_connect.Filters.Ipsum.{
  Parsing, Db, Reader, new_db, load_from_file, load_from_reader, is_blocked,
}
use go_connect.Filters.Ipsum.Feed.{feed_count}
use go_connect.Filters.Geoblock.{Geo, CountryDb}
use go_connect.Broker.State.{Server, warn, blocked_ip}
use go_connect.Broker.Server.{new_server, accept}
use go_connect.Broker.Server.Events.{Event, arrives, run}
use go_connect.Cmd.Settings.{Texts, Env, is_on, passphrase_of}
use go_connect.Cmd.Broker.{
  BrokerFlags, Machine, CmdError, default_min_count, not_started, no_countries, no_feed,
  countries_asked, ip_test, geo_test, run_broker,
}
use go_connect.Cmd.Broker.Guarded.{IsIpGuard, IsGeoGuard, run_broker_guarded}
use go_connect.Cmd.Broker.Refusals.{run_broker-accept}

abbrev is : String → String → Bool
is a b = string_key.same a b

abbrev texts : Texts
texts = record {
  trim_space = λ s. s;
  without_colon = λ s. "1781";
  split_host_port = λ s. if is s "0.0.0.0:1781" then some ("0.0.0.0", "1781") else none;
  join_host_port = λ host port. "0.0.0.0:1781";
  split_commas = λ s. if is s "de," then "de" ∷ "" ∷ [] else s ∷ [];
  scan_int = λ s. none;
  pad_address = λ s. s;
}

-- Every line that is no comment is a line of 192.0.2.1 with a count of 8.
abbrev parsing : Parsing
parsing = record {
  trim_space = λ s. s;
  is_empty = λ s. is s "";
  is_comment = λ s. is s "# IPsum";
  fields = λ s. "192.0.2.1" ∷ "8" ∷ [];
  parse_ip4 = λ s. some s;
  atoi = λ s. some (pos 8);
}

abbrev atlas : Geo
atlas = record {
  Addr = String;
  trim_space = λ s. s;
  to_upper = λ s. if is s "de" then "DE" else s;
  is_empty = λ s. is s "";
  parse_addr = λ s. some s;
  city = λ a. some "DE";
}

abbrev flags : BrokerFlags
flags = record {
  bind_to = "0.0.0.0:1781";
  passphrase = "secret";
  blocked_countries = "de,";
  enable_security_logs = true;
  enable_ipsum = true;
  enable_geo_blocker = true;
}

abbrev env : Env
env name = ""

abbrev feed : Reader
feed = record { lines = "# IPsum" ∷ "192.0.2.1 8" ∷ []; fails = false }

abbrev machine : Machine
machine = record {
  makes_logs = true;
  feed_missing = true;
  downloads = true;
  feed = some feed;
  opens_geo = true;
  listens = some "0.0.0.0:1781";
  interfaces = none;
}

abbrev hash : Bytes → Bytes
hash b = b

abbrev bytes_of : String → Bytes
bytes_of s = 115 ∷ []

abbrev result : Machine → String → CmdError
result m s =
    elim (run_broker hash bytes_of texts parsing atlas (record flags { blocked_countries = s }) env
      m []).0 [ err e ↦ e | ok _ ↦ not_started ]

-- What goes wrong is not passed over.
no_download : result (record machine { downloads = false }) "de," ≡ no_feed
unfolding run_broker
no_download = refl

no_country : result machine "" ≡ no_countries
unfolding run_broker
no_country = refl

no_address : result (record machine { listens = none }) "de," ≡ not_started
unfolding run_broker
no_address = refl

abbrev loaded : Db
loaded = (load_from_reader parsing feed (new_db default_min_count)).1.0

abbrev started : Server
started =
    new_server hash (some (bytes_of "secret")) true (ip_test parsing (some loaded))
      (geo_test atlas (some (record { blocked = "DE" ∷ [] })))

abbrev messages : List Message
messages = (run_broker hash bytes_of texts parsing atlas flags env machine []).1

starts : run_broker hash bytes_of texts parsing atlas flags env machine [] ≡ (ok started, messages)
unfolding run_broker
starts = refl

abbrev evening : List Event
evening = arrives "198.51.100.7:4000" (some "198.51.100.7") ∷ []

named : feed_count parsing 3 "192.0.2.1" feed.lines ≡ some 8
unfolding feed_count go_connect.Filters.Ipsum.classify
named = refl

on : is_on true env "GO_CONNECT_ENABLE_IPSUM" ≡ true
unfolding is_on
on = refl

run_broker_guarded_example :
    (ip : Option Db) × (geo : Option CountryDb) × (started
      ≡ new_server hash
          (some (bytes_of (passphrase_of "secret" env)))
          (is_on true env "GO_CONNECT_ENABLE_SECURITY_LOGS")
          (ip_test parsing ip)
          (geo_test atlas geo))
    × IsIpGuard parsing (is_on true env "GO_CONNECT_ENABLE_IPSUM") machine ip
    × IsGeoGuard atlas
        (is_on true env "GO_CONNECT_ENABLE_GEO_BLOCKER")
        machine
        (countries_asked texts flags env)
        geo
    × (machine.listens ≢ none)
run_broker_guarded_example =
    run_broker_guarded hash bytes_of texts parsing atlas flags env machine started messages starts

run_broker-accept_example : accept "192.0.2.1:4000" (some "192.0.2.1") (run evening started) ≡ (
    if (run evening started).closing
    then run evening started
    else warn (blocked_ip "192.0.2.1:4000" 8) (run evening started))
run_broker-accept_example =
    run_broker-accept hash bytes_of texts parsing atlas flags env machine started messages feed
      "192.0.2.1:4000" "192.0.2.1" "192.0.2.1" 8 evening starts on refl refl named

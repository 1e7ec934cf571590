-- ===== src/Cmd/Broker.antt =====
-- The broker command of cmd/broker.go, up to the wait for a signal: filters that are
-- asked for are loaded, or the broker does not start. The messages leave out the texts of errors and
-- the counts of blocked addresses and countries.
pub mod Guarded
pub mod Refusals
mod Tests
use Prim.Native.String.{String, ◌++◌ as join_text}
use go_connect.Base.{
  ℕ, Bool, true, false, not, ◌&&◌, ◌||◌, map, string_key, List, [], ◌∷◌, ◌++◌, Option, none, some,
  Result, ok, err, M, ◌>>=◌, ◌>>◌, and_then, pure, if◌then◌else◌, ℤ, pos,
}
use go_connect.Bytes.{Bytes}
use go_connect.Ui.Modes.{Message, successful, failed, informed, hinted, listed, blank}
use go_connect.Ui.Network.{Interface, InterfaceAddr, list_addresses, display, label}
use go_connect.Filters.Ipsum.{Parsing, Db, Reader, new_db, load_from_file, is_blocked}
use go_connect.Filters.Geoblock.{Geo, CountryDb, open_db, is_country_blocked}
use go_connect.Broker.State.{Server}
use go_connect.Broker.Server.{new_server}
use go_connect.Cmd.Settings.{
  Texts, Env, is_empty, or_text, is_on, passphrase_of, parse_bind_address,
}

pub record BrokerFlags : Type 0 where
  pub bind_to : String
  pub passphrase : String
  pub blocked_countries : String
  pub enable_security_logs : Bool
  pub enable_ipsum : Bool
  pub enable_geo_blocker : Bool

-- What the machine answers: whether the log directory can be made, whether the feed is missing and a
-- download brings it, what reading it gives, whether the country database opens, and whether the
-- address can be listened on, with the
-- address that is bound; and what the network interfaces are, where they can be listed.
pub record Machine : Type 0 where
  pub makes_logs : Bool
  pub feed_missing : Bool
  pub downloads : Bool
  pub feed : Option Reader
  pub opens_geo : Bool
  pub listens : Option String
  pub interfaces : Option (List Interface)

pub data CmdError : Type 0 where
  no_logger no_feed no_countries no_geo_database not_started : CmdError

abbrev pub default_min_count : ℤ
default_min_count = pos 3

-- A call of the user interface.
abbrev pub say : Message → M (List Message) CmdError (Unit {0})
say m out = (ok tt, out ++ (m ∷ []))

-- A message, maybe a hint, and the error.
abbrev pub give_up : {A : Type 0} → List Message → CmdError → M (List Message) CmdError A
give_up ms e out = (err e, out ++ ms)

-- Whether there is a logger.
security_logger : BrokerFlags → Env → Machine → M (List Message) CmdError Bool
unfolding is_on
security_logger flags env m =
    if is_on flags.enable_security_logs env "GO_CONNECT_ENABLE_SECURITY_LOGS"
    then (if m.makes_logs
        then (do say (successful "Security logging enabled (logs/)"); pure true)
        else give_up (failed "Failed to initialize security logger" ∷ []) no_logger)
    else pure false

fetch_feed : Machine → M (List Message) CmdError (Unit {0})
fetch_feed m =
    if m.downloads
    then say (successful "IPsum feed downloaded to ipsum.txt")
    else give_up (failed "Failed to download IPsum feed: " ∷ []) no_feed

download_feed : Machine → M (List Message) CmdError (Unit {0})
unfolding fetch_feed
download_feed m =
    if m.feed_missing
    then (do say (informed "Downloading IPsum threat intelligence feed..."); fetch_feed m)
    else pure tt

-- The lines that cannot be parsed are warned of one by one; that is left out.
load_feed : Parsing → Machine → M (List Message) CmdError Db
unfolding load_from_file new_db
load_feed p m =
    let (r, (db, _)) = load_from_file p m.feed (new_db default_min_count) in
    elim r [ err _ ↦ give_up (failed "Failed to load IPsum feed: " ∷ []) no_feed | ok _ ↦ pure db ]

ip_filter_of : Parsing → BrokerFlags → Env → Machine → M (List Message) CmdError (Option Db)
unfolding download_feed load_feed is_on
ip_filter_of p flags env m =
    if is_on flags.enable_ipsum env "GO_CONNECT_ENABLE_IPSUM"
    then (do download_feed m; db ← load_feed p m; say (successful "IPsum loaded"); pure (some db))
    else pure none

-- The codes between commas that are not blank.
pub countries_of : Texts → List String → List String
countries_of t [] = []
countries_of t (c ∷ codes) =
    let rest = countries_of t codes in
    let trimmed = t.trim_space c in if is_empty trimmed then rest else trimmed ∷ rest

abbrev pub countries_asked : Texts → BrokerFlags → Env → List String
countries_asked t flags env =
    countries_of t
      (t.split_commas (or_text flags.blocked_countries (env "GO_CONNECT_BLOCKED_COUNTRIES")))

open_countries : Geo → Machine → List String → M (List Message) CmdError CountryDb
unfolding open_db
open_countries g m [] =
    give_up
      (failed "No blocked countries specified"
        ∷ hinted
            "Use --blocked-countries or GO_CONNECT_BLOCKED_COUNTRIES to specify ISO country codes (e.g., 'RU,CN,KP')."
        ∷ [])
      no_countries
open_countries g m (c ∷ countries) = elim (open_db g m.opens_geo (c ∷ countries)) [
  | none ↦
      give_up
        (failed "Failed to open GeoLite2 database: "
          ∷ hinted
              "Place a GeoLite2.mmdb file in the current directory or set GO_CONNECT_GEO_DB to the database path."
          ∷ [])
        no_geo_database
  | some db ↦ pure db
]

geo_filter_of :
    Texts → Geo → BrokerFlags → Env → Machine → M (List Message) CmdError (Option CountryDb)
unfolding open_countries countries_of is_on
geo_filter_of t g flags env m =
    if is_on flags.enable_geo_blocker env "GO_CONNECT_ENABLE_GEO_BLOCKER"
    then (do
      db ← open_countries g m (countries_asked t flags env)
      say (successful "Geo-blocker loaded")
      pure (some db))
    else pure none

-- The tests that the server's accept loop makes: `IsBlocked` of each filter.
unfoldable pub ip_test : Parsing → Option Db → Option (String → Option ℕ)
ip_test p none = none
ip_test p (some db) = some (λ ip. is_blocked p ip db)

unfoldable pub geo_test : Geo → Option CountryDb → Option (String → Option String)
geo_test g none = none
geo_test g (some db) =
    some (λ ip.
      let (blocked, country) = is_country_blocked g ip db in if blocked then country else none)

-- An address and what it is called. Padding to 24 columns is a parameter.
address_line : Texts → InterfaceAddr → Message
unfolding display label
address_line t a =
    listed (join_text (t.pad_address (display a)) (join_text " (" (join_text (label a) ")")))

-- What clients can connect to.
advertise : Texts → Option (List Interface) → String → List Message
unfolding list_addresses address_line
advertise t interfaces bound = elim (t.split_host_port bound) [
  | none ↦ []
  | some (host, port) ↦
      if string_key.same host "0.0.0.0" || string_key.same host "::"
      then blank
        ∷ informed "Available addresses for clients:"
        ∷ map (address_line t) (list_addresses port interfaces)
      else blank
        ∷ informed "Clients can connect with:"
        ∷ informed (join_text "  go-connect listen  -b " (join_text bound " -p <port>"))
        ∷ informed (join_text "  go-connect connect -b " (join_text bound " -i <id> -p <port>"))
        ∷ []
]

-- `srv.Start()`, and what is said of it
start_server : Texts → BrokerFlags → Machine → Server → M (List Message) CmdError Server
unfolding parse_bind_address advertise
start_server t flags m srv =
    let address = parse_bind_address t flags.bind_to in
    elim m.listens [
      | some bound ↦ λ out. (
        ok srv,
        out
            ++ (successful (join_text "Broker listening on " bound)
                ∷ (advertise t m.interfaces bound
                    ++ (blank ∷ informed "Waiting for connections..." ∷ []))),
      )
      | none ↦
          give_up
            (failed (join_text "Failed to start broker on " address)
              ∷ hinted
                  "Check that the port is not already in use and you have permission to bind to this address."
              ∷ [])
            not_started
    ]

-- `RunE`, with SHA-256 and the bytes of a text as parameters.
unfoldable pub run_broker :
    (Bytes → Bytes)
    → (String → Bytes)
    → Texts
    → Parsing
    → Geo
    → BrokerFlags
    → Env
    → Machine
    → M (List Message) CmdError Server
unfolding security_logger ip_filter_of geo_filter_of start_server passphrase_of ip_test geo_test
    new_server
run_broker sha256 bytes_of t p g flags env m = do
  logger ← security_logger flags env m
  ip ← ip_filter_of p flags env m
  geo ← geo_filter_of t g flags env m
  start_server t flags m (
      new_server sha256 (some (bytes_of (passphrase_of flags.passphrase env))) logger (ip_test p ip)
        (geo_test g geo))

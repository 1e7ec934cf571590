-- ===== src/Cmd/Broker/Guarded.antt =====
-- A broker that starts has every filter that was asked for.
use Prim.Native.String.{String}
use go_connect.Base.{
  ◌≡◌, ◌≢◌, ◌∙◌, ap, Bool, true, false, List, [], ◌∷◌, Option, none, some, ok, and_then-eq_ok, ◌⊎◌,
  inl, inr, arith, Bool-cases, Option-cases,
}
use go_connect.Bytes.{Bytes}
use go_connect.Ui.Modes.{Message}
use go_connect.Filters.Ipsum.{Parsing, Db, Reader, new_db, load_from_file, load_from_reader}
use go_connect.Filters.Geoblock.{Geo, CountryDb, normalize, open_db}
use go_connect.Broker.State.{Server}
use go_connect.Broker.Server.{new_server}
use go_connect.Cmd.Settings.{Texts, Env, is_on, passphrase_of}
use go_connect.Cmd.Broker.{
  BrokerFlags, Machine, default_min_count, security_logger, download_feed, load_feed, ip_filter_of,
  countries_asked, open_countries, geo_filter_of, ip_test, geo_test, start_server, run_broker,
}

-- The IP filter is absent, or the one of a feed that was read to its end.
abbrev pub IsIpGuard : Parsing → Bool → Machine → Option Db → Type 0
IsIpGuard p on m filter =
    ((on ≡ false) × (filter ≡ none))
    ⊎ ((on ≡ true)
        × ((r : Reader) × (m.feed ≡ some r)
            × (r.fails ≡ false)
            × (filter ≡ some (load_from_reader p r (new_db default_min_count)).1.0)))

-- The country filter is absent, or one of at least one country.
abbrev pub IsGeoGuard : Geo → Bool → Machine → List String → Option CountryDb → Type 0
IsGeoGuard g on m countries filter =
    ((on ≡ false) × (filter ≡ none))
    ⊎ ((on ≡ true)
        × (m.opens_geo ≡ true)
        × (countries ≢ [])
        × (filter ≡ some (record { blocked = normalize g countries })))

security_logger-eq_ok :
    (flags : BrokerFlags) (env : Env) (m : Machine) (out : List Message) (b : Bool)
    (out' : List Message)
    → security_logger flags env m out ≡ (ok b, out')
    → b ≡ is_on flags.enable_security_logs env "GO_CONNECT_ENABLE_SECURITY_LOGS"
unfolding security_logger
security_logger-eq_ok flags env m out b out' e = ground arith

load_feed-eq_ok :
    (p : Parsing) (m : Machine) (out out' : List Message) (db : Db)
    → load_feed p m out ≡ (ok db, out')
    → (r : Reader) × (m.feed ≡ some r)
      × (r.fails ≡ false)
      × (db ≡ (load_from_reader p r (new_db default_min_count)).1.0)
unfolding load_feed load_from_file
load_feed-eq_ok p m out out' db e = elim (Option-cases m.feed) [
  | inl f ↦ absurd (ground arith)
  | inr (r, f) ↦ (r, f, ground arith, ground arith)
]

ip_filter_of-eq_ok :
    (p : Parsing) (flags : BrokerFlags) (env : Env) (m : Machine) (out out' : List Message)
    (filter : Option Db)
    → ip_filter_of p flags env m out ≡ (ok filter, out')
    → IsIpGuard p (is_on flags.enable_ipsum env "GO_CONNECT_ENABLE_IPSUM") m filter
unfolding ip_filter_of
ip_filter_of-eq_ok p flags env m out out' filter e =
    elim (Bool-cases (is_on flags.enable_ipsum env "GO_CONNECT_ENABLE_IPSUM")) [
      | inr off ↦ inl (off, ground arith)
      | inl on ↦
          let (_, out1, _, f) = and_then-eq_ok (download_feed m out) _ (rw on at e) in
          let (db, out2, g, h) = and_then-eq_ok (load_feed p m out1) _ f in
          let (r, there, read, same) = load_feed-eq_ok p m out1 out2 db g in
          let it : filter ≡ some db = ground arith in inr (on, (r, there, read, it ∙ ap some same))
    ]

open_countries-eq_ok :
    (g : Geo) (m : Machine) (countries : List String) (out out' : List Message) (db : CountryDb)
    → open_countries g m countries out ≡ (ok db, out')
    → (m.opens_geo ≡ true) × (countries ≢ []) × (db ≡ record { blocked = normalize g countries })
unfolding open_countries open_db
open_countries-eq_ok g m [] out out' db e = absurd (ground arith)
open_countries-eq_ok g m (c ∷ countries) out out' db e = elim (Bool-cases m.opens_geo) [
  | inl f ↦ (f, λ h. cc, ground arith)
  | inr f ↦ absurd (ground arith)
]

geo_filter_of-eq_ok :
    (t : Texts) (g : Geo) (flags : BrokerFlags) (env : Env) (m : Machine) (out out' : List Message)
    (filter : Option CountryDb)
    → geo_filter_of t g flags env m out ≡ (ok filter, out')
    → IsGeoGuard g
        (is_on flags.enable_geo_blocker env "GO_CONNECT_ENABLE_GEO_BLOCKER")
        m
        (countries_asked t flags env)
        filter
unfolding geo_filter_of
geo_filter_of-eq_ok t g flags env m out out' filter e =
    let countries = countries_asked t flags env in
    elim (Bool-cases (is_on flags.enable_geo_blocker env "GO_CONNECT_ENABLE_GEO_BLOCKER")) [
      | inr off ↦ inl (off, ground arith)
      | inl on ↦
          let (db, out1, h, f) = and_then-eq_ok (open_countries g m countries out) _ (rw on at e) in
          let w = open_countries-eq_ok g m countries out out1 db h in
          let it : filter ≡ some db = ground arith in inr (on, w.0, w.1, it ∙ ap some w.2)
    ]

start_server-eq_ok :
    (t : Texts) (flags : BrokerFlags) (m : Machine) (s srv : Server) (out out' : List Message)
    → start_server t flags m s out ≡ (ok srv, out')
    → (srv ≡ s) × (m.listens ≢ none)
unfolding start_server
start_server-eq_ok t flags m s srv out out' e = elim (Option-cases m.listens) [
  | inl f ↦ absurd (ground arith)
  | inr (bound, f) ↦ (ground arith, λ h. cc)
]

pub run_broker_guarded :
    (sha256 : Bytes → Bytes) (bytes_of : String → Bytes) (t : Texts) (p : Parsing) (g : Geo)
    (flags : BrokerFlags) (env : Env) (m : Machine) (srv : Server) (out : List Message)
    → run_broker sha256 bytes_of t p g flags env m [] ≡ (ok srv, out)
    → (ip : Option Db) × (geo : Option CountryDb) × (srv
        ≡ new_server sha256
            (some (bytes_of (passphrase_of flags.passphrase env)))
            (is_on flags.enable_security_logs env "GO_CONNECT_ENABLE_SECURITY_LOGS")
            (ip_test p ip)
            (geo_test g geo))
      × IsIpGuard p (is_on flags.enable_ipsum env "GO_CONNECT_ENABLE_IPSUM") m ip
      × IsGeoGuard g
          (is_on flags.enable_geo_blocker env "GO_CONNECT_ENABLE_GEO_BLOCKER")
          m
          (countries_asked t flags env)
          geo
      × (m.listens ≢ none)
unfolding run_broker
run_broker_guarded sha256 bytes_of t p g flags env m srv out e =
    let (logger, out1, e1, f1) = and_then-eq_ok (security_logger flags env m []) _ e in
    let (ip, out2, e2, f2) = and_then-eq_ok (ip_filter_of p flags env m out1) _ f1 in
    let (geo, out3, e3, f3) = and_then-eq_ok (geo_filter_of t g flags env m out2) _ f2 in
    let asked = security_logger-eq_ok flags env m [] logger out1 e1 in
    let (same, listens) = start_server-eq_ok t flags m _ srv out3 out f3 in
    let hashed = some (bytes_of (passphrase_of flags.passphrase env)) in
    (
      ip,
      geo,
      same ∙ ap (λ b. new_server sha256 hashed b (ip_test p ip) (geo_test g geo)) asked,
      ip_filter_of-eq_ok p flags env m out1 out2 ip e2,
      geo_filter_of-eq_ok t g flags env m out2 out3 geo e3,
      listens,
    )

-- ===== src/Cmd/Broker/Refusals.antt =====
-- What a broker that was started with the feed does with the addresses in it.
use Prim.Native.String.{String}
use go_connect.Base.{
  ℕ, ◌≡◌, ◌∙◌, refl, sym, ap, true, false, List, [], some, ok, inl, inr, arith, if◌then◌else◌,
}
use go_connect.Bytes.{Bytes}
use go_connect.Ui.Modes.{Message}
use go_connect.Filters.Ipsum.{Parsing, Reader, new_db, load_from_reader}
use go_connect.Filters.Ipsum.Feed.{feed_count, is_blocked-load_from_reader}
use go_connect.Filters.Geoblock.{Geo}
use go_connect.Broker.State.{Server, warn, blocked_ip}
use go_connect.Broker.Server.{new_server, ask, accept}
use go_connect.Broker.Server.Events.{Event, run}
use go_connect.Broker.Server.Events.Filters.{run-filters}
use go_connect.Cmd.Settings.{Texts, Env, is_on}
use go_connect.Cmd.Broker.{BrokerFlags, Machine, default_min_count, ip_test, run_broker}
use go_connect.Cmd.Broker.Guarded.{run_broker_guarded}

-- A connection that the IP filter names is not let in.
accept_blocked :
    (remote host : String) (count : ℕ) (s : Server)
    → ask s.ip_filter (some host) ≡ some count
    → accept remote (some host) s ≡ (if s.closing then s else warn (blocked_ip remote count) s)
unfolding accept
accept_blocked remote host count s e = rw (e, accept) refl

-- The filter of a feed blocks what the feed names.
ip_filter-new_server :
    (p : Parsing) (r : Reader) (host ip4 : String) (count : ℕ)
    → r.fails ≡ false
    → p.parse_ip4 (p.trim_space host) ≡ some ip4
    → feed_count p 3 ip4 r.lines ≡ some count
    → ask (ip_test p (some (load_from_reader p r (new_db default_min_count)).1.0)) (some host)
      ≡ some count
unfolding ask ip_test new_db
ip_filter-new_server p r host ip4 count ends parsed named =
    is_blocked-load_from_reader p r (new_db default_min_count) host ip4 ends parsed ∙ named

-- A broker that was started with the IP filter on, from a feed that names the host's address with a
-- count of 3 or more, never lets a connection from that host in: after any events, accepting it
-- changes nothing but the log, which names the address and the last such count, and where the broker
-- is closing it changes nothing at all.
pub run_broker-accept :
    (sha256 : Bytes → Bytes) (bytes_of : String → Bytes) (t : Texts) (p : Parsing) (g : Geo)
    (flags : BrokerFlags) (env : Env) (m : Machine) (srv : Server) (out : List Message) (r : Reader)
    (remote host ip4 : String) (count : ℕ) (es : List Event)
    → run_broker sha256 bytes_of t p g flags env m [] ≡ (ok srv, out)
    → is_on flags.enable_ipsum env "GO_CONNECT_ENABLE_IPSUM" ≡ true
    → m.feed ≡ some r
    → p.parse_ip4 (p.trim_space host) ≡ some ip4
    → feed_count p 3 ip4 r.lines ≡ some count
    → accept remote (some host) (run es srv)
      ≡ (if (run es srv).closing then run es srv else warn (blocked_ip remote count) (run es srv))
unfolding new_server
run_broker-accept sha256 bytes_of t p g flags env m srv out r remote host ip4 count es e on there
      parsed named =
    let (ip, _, same, guard, _, _) =
      run_broker_guarded sha256 bytes_of t p g flags env m srv out e in
    let kept : (run es srv).ip_filter ≡ ip_test p ip =
      ap (λ f. f.0) (run-filters es srv) ∙ ap (λ s. s.ip_filter) same in
    let blocked : ask (run es srv).ip_filter (some host) ≡ some count = elim guard [
      | inl (off, _) ↦ absurd (ground arith)
      | inr (_, (r', there', ends, f)) ↦
          let one : r' ≡ r = ground arith in
          ap (λ x. ask x (some host))
            (kept
              ∙ ap (ip_test p)
                  (f ∙ ap (λ x. some (load_from_reader p x (new_db default_min_count)).1.0) one))
          ∙ ip_filter-new_server p r host ip4 count (sym (ap (λ x. x.fails) one) ∙ ends) parsed
              named
    ] in
    accept_blocked remote host count (run es srv) blocked

-- ===== src/Cmd/Settings/Addresses.antt =====
-- What an address is normalized to.
use Prim.Native.String.{String}
use text.Mathlib.Text.{starts_with}
use text.Mathlib.TextEquality.{eq_iff}
use go_connect.Base.{◌≡◌, ◌≢◌, false, arith, string_key, Bool-cases, Option-cases, inl, inr}
use go_connect.Cmd.Settings.{Texts, is_empty, or_text, default_port, parse_address}

default_port_ne : default_port ≢ ""
default_port_ne = ground (arith, eq_iff "1781" "")

not_empty : (s : String) → is_empty s ≡ false → s ≢ ""
not_empty s e f = ground (arith, eq_iff s "")

or_text_ne : (s d : String) → d ≢ "" → or_text s d ≢ ""
or_text_ne s d h = elim (Bool-cases (is_empty s)) [ inl e ↦ rw e h | inr e ↦ rw e (not_empty s e) ]

-- Whatever is typed, the normalized address is joined from a host and a port of which neither is
-- empty, if the default host is not empty.
parse_address_complete :
    (t : Texts) (addr default_host : String)
    → default_host ≢ ""
    → (host port : String) × (parse_address t addr default_host ≡ t.join_host_port host port)
      × (host ≢ "")
      × (port ≢ "")
unfolding parse_address
parse_address_complete t addr0 default_host h =
    let addr = t.trim_space addr0 in
    elim (Bool-cases (is_empty addr)) [
      | inl e ↦ (default_host, default_port, rw e, h, default_port_ne)
      | inr e ↦ elim (Bool-cases (starts_with addr ":")) [
        | inl f ↦ (
          default_host,
          or_text (t.without_colon addr) default_port,
          rw e (rw f),
          h,
          or_text_ne (t.without_colon addr) default_port default_port_ne,
        )
        | inr f ↦ elim (Option-cases (t.split_host_port addr)) [
          | inl g ↦ (addr, default_port, rw e (rw f (rw g)), not_empty addr e, default_port_ne)
          | inr ((host, port), g) ↦ (
            or_text host default_host,
            or_text port default_port,
            rw e (rw f (rw g)),
            or_text_ne host default_host h,
            or_text_ne port default_port default_port_ne,
          )
        ]
      ]
    ]

-- ===== src/Ui/Network/Order.antt =====
-- Which addresses are listed, and in which order.
use Prim.Native.String.{String}
use go_connect.Base.{
  ◌≡◌, ◌∙◌, refl, sym, ap, Bool, true, false, not, ◌&&◌, List, [], ◌∷◌, ◌++◌, append-nil,
  append_assoc, Option, none, some, if◌then◌else◌, arith, Bool-cases, inl, inr,
}
use go_connect.Ui.Network.{
  InterfaceAddr, Ip, Interface, Found, entry_of, add_addr, add_addrs, add_interface, add_interfaces,
  list_addresses,
}

-- An address of an interface is listed if it is a unicast address.
unfoldable pub is_unicast : Ip → Bool
is_unicast a = not a.is_unspecified && not a.is_multicast

unfoldable pub entries_of : String → Interface → List (Option Ip) → List InterfaceAddr
entries_of port i [] = []
entries_of port i (none ∷ addrs) = entries_of port i addrs
entries_of port i (some a ∷ addrs) =
    let rest = entries_of port i addrs in
    if is_unicast a
    then record {
      ip = a.text;
      port = port;
      iface = i.name;
      is_loopback = i.is_loopback;
      is_ipv6 = not a.is_v4;
    }
      ∷ rest
    else rest

abbrev or_empty : Option (List (Option Ip)) → List (Option Ip)
or_empty none = []
or_empty (some addrs) = addrs

-- All unicast addresses of the interfaces that are up, in the order of the machine.
unfoldable pub entries : String → List Interface → List InterfaceAddr
entries port [] = []
entries port (i ∷ ifaces) =
    let rest = entries port ifaces in
    if i.is_up then entries_of port i (or_empty i.addrs) ++ rest else rest

-- The entries of which a test is true, in their order.
unfoldable pub only : Bool → List InterfaceAddr → List InterfaceAddr
only b [] = []
only b (a ∷ others) =
    let rest = only b others in
    if a.is_loopback then (if b then a ∷ rest else rest) else if b then rest else a ∷ rest

only-append : (b : Bool) (xs ys : List InterfaceAddr) → only b (xs ++ ys) ≡ only b xs ++ only b ys
unfolding only
only-append b [] ys = refl
only-append b (a ∷ xs) ys = ground (arith, only-append b xs ys)

-- What a part of the loops adds to both slices.
record Adds (f g : Found) (new : List InterfaceAddr) : Type 0 where
  outer : g.non_loopback ≡ f.non_loopback ++ only false new
  inner : g.loopback ≡ f.loopback ++ only true new

Adds-none : (f : Found) → Adds f f []
unfolding only
Adds-none f = record {
  outer = sym (append-nil f.non_loopback);
  inner = sym (append-nil f.loopback);
}

Adds-append :
    (f g h : Found) (xs ys : List InterfaceAddr) → Adds f g xs → Adds g h ys → Adds f h (xs ++ ys)
Adds-append f g h xs ys p q = record {
  outer =
      q.outer
      ∙ ap (λ z. z ++ only false ys) p.outer
      ∙ append_assoc f.non_loopback (only false xs) (only false ys)
      ∙ ap (λ z. f.non_loopback ++ z) (sym (only-append false xs ys));
  inner =
      q.inner
      ∙ ap (λ z. z ++ only true ys) p.inner
      ∙ append_assoc f.loopback (only true xs) (only true ys)
      ∙ ap (λ z. f.loopback ++ z) (sym (only-append true xs ys));
}

add_addr-Adds :
    (port : String) (i : Interface) (a : Option Ip) (f : Found)
    → Adds f (add_addr port i a f) (entries_of port i (a ∷ []))
unfolding add_addr entry_of entries_of is_unicast only
add_addr-Adds port i none f = Adds-none f
add_addr-Adds port i (some a) f = record {
  outer = ground (arith, append-nil f.non_loopback);
  inner = ground (arith, append-nil f.loopback);
}

entries_of-cons :
    (port : String) (i : Interface) (a : Option Ip) (addrs : List (Option Ip))
    → entries_of port i (a ∷ addrs) ≡ entries_of port i (a ∷ []) ++ entries_of port i addrs
unfolding entries_of
entries_of-cons port i none addrs = refl
entries_of-cons port i (some a) addrs = ground arith

add_addrs-Adds :
    (port : String) (i : Interface) (addrs : List (Option Ip)) (f : Found)
    → Adds f (add_addrs port i addrs f) (entries_of port i addrs)
unfolding add_addrs entries_of
add_addrs-Adds port i [] f = Adds-none f
add_addrs-Adds port i (a ∷ addrs) f =
    let g = add_addr port i a f in
    rw (entries_of-cons port i a addrs) (
      Adds-append f g (add_addrs port i addrs g) (entries_of port i (a ∷ []))
        (entries_of port i addrs) (add_addr-Adds port i a f) (add_addrs-Adds port i addrs g))

add_interface-Adds :
    (port : String) (i : Interface) (f : Found)
    → Adds f (add_interface port i f) (if i.is_up then entries_of port i (or_empty i.addrs) else [])
unfolding add_interface entries_of
add_interface-Adds port i f = by_flags i.is_up i.addrs
  where
    by_flags :
        (up : Bool) (addrs : Option (List (Option Ip)))
        → Adds f
            (if not up then f else elim addrs [ none ↦ f | some a ↦ add_addrs port i a f ])
            (if up then entries_of port i (or_empty addrs) else [])
    by_flags false addrs = Adds-none f
    by_flags true none = Adds-none f
    by_flags true (some addrs) = add_addrs-Adds port i addrs f

add_interfaces-Adds :
    (port : String) (ifaces : List Interface) (f : Found)
    → Adds f (add_interfaces port ifaces f) (entries port ifaces)
unfolding add_interfaces entries
add_interfaces-Adds port [] f = Adds-none f
add_interfaces-Adds port (i ∷ ifaces) f =
    let g = add_interface port i f in
    let new = entries_of port i (or_empty i.addrs) in
    let w =
      Adds-append f g (add_interfaces port ifaces g) (if i.is_up then new else [])
        (entries port ifaces) (add_interface-Adds port i f) (add_interfaces-Adds port ifaces g) in
    elim (Bool-cases i.is_up) [ inl e ↦ rw e (rw e at w) | inr e ↦ rw e (rw e at w) ]

-- The list has exactly the unicast addresses of the interfaces that are up, each in the machine's
-- order: first those of interfaces that are no loopback, then those of loopbacks.
pub list_addresses-entries :
    (port : String) (ifaces : List Interface)
    → list_addresses port (some ifaces)
      ≡ only false (entries port ifaces) ++ only true (entries port ifaces)
unfolding list_addresses
list_addresses-entries port ifaces =
    let none_yet : Found = record { non_loopback = []; loopback = [] } in
    let w = add_interfaces-Adds port ifaces none_yet in
    ap (λ z. z ++ (add_interfaces port ifaces none_yet).loopback) w.outer
    ∙ ap (λ z. only false (entries port ifaces) ++ z) w.inner

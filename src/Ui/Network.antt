-- ===== src/Ui/Network.antt =====
-- The addresses that pkg/ui/network.go lists. The interfaces of the machine are an argument.
pub mod Order
mod Tests
use Prim.Native.String.{String, ◌++◌ as join_text}
use go_connect.Base.{
  Bool, true, false, not, ◌||◌, List, [], ◌∷◌, ◌++◌, Option, none, some, if◌then◌else◌,
}

pub record InterfaceAddr : Type 0 where
  pub ip : String
  pub port : String
  pub iface : String
  pub is_loopback : Bool
  pub is_ipv6 : Bool

unfoldable pub display : InterfaceAddr → String
display a =
    if a.is_ipv6
    then join_text "[" (join_text a.ip (join_text "]:" a.port))
    else join_text a.ip (join_text ":" a.port)

unfoldable pub label : InterfaceAddr → String
label a =
    if a.is_loopback
    then join_text a.iface ", local only"
    else if a.is_ipv6
    then join_text a.iface ", IPv6"
    else a.iface

-- A `net.IP`, with what the code asks it.
pub record Ip : Type 0 where
  pub text : String
  pub is_unspecified : Bool
  pub is_multicast : Bool
  pub is_v4 : Bool

-- `addrs`: `none` for an error; an address is `none` where its type is another.
pub record Interface : Type 0 where
  pub name : String
  pub is_up : Bool
  pub is_loopback : Bool
  pub addrs : Option (List (Option Ip))

-- The slices `nonLoopback` and `loopback`.
pub record Found : Type 0 where
  pub non_loopback : List InterfaceAddr
  pub loopback : List InterfaceAddr

-- The entry of an address that is listed.
entry_of : String → Interface → Ip → InterfaceAddr
entry_of port i a = record {
  ip = a.text;
  port = port;
  iface = i.name;
  is_loopback = i.is_loopback;
  is_ipv6 = not a.is_v4;
}

add_addr : String → Interface → Option Ip → Found → Found
unfolding entry_of
add_addr port i none f = f
add_addr port i (some a) f =
    if a.is_unspecified || a.is_multicast
    then f
    else if i.is_loopback
    then record f { loopback = f.loopback ++ (entry_of port i a ∷ []) }
    else record f { non_loopback = f.non_loopback ++ (entry_of port i a ∷ []) }

add_addrs : String → Interface → List (Option Ip) → Found → Found
unfolding add_addr
add_addrs port i [] f = f
add_addrs port i (a ∷ addrs) f = add_addrs port i addrs (add_addr port i a f)

add_interface : String → Interface → Found → Found
unfolding add_addrs
add_interface port i f =
    if not i.is_up then f else elim (i.addrs) [ none ↦ f | some addrs ↦ add_addrs port i addrs f ]

add_interfaces : String → List Interface → Found → Found
unfolding add_interface
add_interfaces port [] f = f
add_interfaces port (i ∷ ifaces) f = add_interfaces port ifaces (add_interface port i f)

-- `none` is an error of `net.Interfaces`.
unfoldable pub list_addresses : String → Option (List Interface) → List InterfaceAddr
unfolding add_interfaces
list_addresses port none = []
list_addresses port (some ifaces) =
    let f = add_interfaces port ifaces (record { non_loopback = []; loopback = [] }) in
    f.non_loopback ++ f.loopback

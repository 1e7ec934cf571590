-- ===== src/Ui/Network/Tests.antt =====
-- A loopback interface before another one.
use Prim.Native.String.{String}
use go_connect.Base.{◌≡◌, refl, true, false, List, [], ◌∷◌, ◌++◌, some, none, map}
use go_connect.Ui.Network.{Ip, Interface, list_addresses, display}
use go_connect.Ui.Network.Order.{entries, only, list_addresses-entries}

abbrev address : String → Ip
address text = record { text = text; is_unspecified = false; is_multicast = false; is_v4 = true }

abbrev machine : List Interface
machine =
    record {
      name = "lo";
      is_up = true;
      is_loopback = true;
      addrs = some (some (address "127.0.0.1") ∷ []);
    }
    ∷ record {
      name = "eth0";
      is_up = true;
      is_loopback = false;
      addrs = some (none ∷ some (address "10.0.0.7") ∷ []);
    }
    ∷ record {
      name = "eth1";
      is_up = false;
      is_loopback = false;
      addrs = some (some (address "10.0.0.9") ∷ []);
    }
    ∷ []

loopback_last :
    map display (list_addresses "1781" (some machine)) ≡ "10.0.0.7:1781" ∷ "127.0.0.1:1781" ∷ []
unfolding list_addresses display
loopback_last = refl

list_addresses-entries_example :
    list_addresses "1781" (some machine)
    ≡ only false (entries "1781" machine) ++ only true (entries "1781" machine)
list_addresses-entries_example = list_addresses-entries "1781" machine

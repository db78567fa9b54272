-- ===== src/PingMsgMap/Tests.antt =====
-- Instances of the theorems on the server's table.
use pingweave.Base.{ℕ, ◌≡◌, refl, none, [], ◌∷◌, arith}
use pingweave.Messages.{RdmaPingMsg}
use pingweave.Table.{find}
use pingweave.Table.Linked.{IsValid}
use pingweave.PingMsgMap.{Pings}
use pingweave.PingMsgMap.Lookup.{get_young}

abbrev ping : ℕ → RdmaPingMsg
ping id = record { pingid = id; qpn = 1; gid = []; lid = 2; time = 3 }

abbrev one : Pings
one = record {
  table = record {
    map = (5, record { value = ping 5; timestamp = 2000; list_iter = 0 }) ∷ [];
    key_list = record { iter = 0; key = 5 } ∷ [];
    next_iter = 1;
    threshold_ms = 1000;
  };
  queue = tt;
}

one-IsValid : IsValid 2000 one.table
unfolding find
one-IsValid = record {
  aligned = refl;
  linked = (omega arith, omega arith, omega arith, omega arith, refl, tt);
}

six_free : get_young 3000 6 one ≡ none
unfolding find
six_free = refl

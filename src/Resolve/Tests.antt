-- ===== src/Resolve/Tests.antt =====
-- A table of two routes and a table of two addresses, and the theorems at them.
use tas_smartnic.Prelude.{◌+◌, ◌^◌, arith, ◌*◌, ℕ, refl, ◌≡◌, true, some, [], ◌∷◌, Option}
use tas_smartnic.Resolve.Routing.{
  Route, out_of_fuel, resolve, next_hops, routing_init, config_routes, prefix_len_mask,
  next_hops_hang,
}
use tas_smartnic.Conn.Opening.{now}
use tas_smartnic.Resolve.Arp.{ArpEntry, State, Config, find, arp_request, arp_replied}
use tas_smartnic.Resolve.Waiting.{count, waiting, answered, in_care, arp_replied_lem}

-- The network 10.0.0.0/8 of the host, and a gateway in it for everything else.
abbrev network : Route
network = record { dest_ip = 10 * 2 ^ 24; dest_mask = 255 * 2 ^ 24; next_hop = 0 }

abbrev default_route : ℕ → Route
default_route next_hop = record { dest_ip = 0; dest_mask = 0; next_hop = next_hop }

abbrev near : ℕ
near = 10 * 2 ^ 24 + 1

init_table :
    routing_init (10 * 2 ^ 24 + 7) 8 (record { ip = 0; ip_prefix = 0; next_hop_ip = near } ∷ [])
    ≡ some (network ∷ default_route near ∷ [])
unfolding routing_init config_routes prefix_len_mask
init_table = refl

-- A gateway outside of the network of the host.
next_hops_hang_example : next_hops 9 (network ∷ default_route 5 ∷ []) 6 ≡ out_of_fuel
unfolding resolve
next_hops_hang_example =
    next_hops_hang 9 (network ∷ default_route 5 ∷ []) 6 (default_route 5) refl refl
      (λ e. absurd (omega arith))

abbrev entry : ArpEntry
entry = record { id = 1; is_pending = true; ip = 5; mac = 0; compl = 7 ∷ 8 ∷ []; timeout = 500 }

abbrev asked : State
asked = record { arp_table = entry ∷ []; calls = [] }

abbrev limits : Config
limits = record { ip = 10; nic_ip = 11; arp_to = 500; arp_to_max = 10000000 }

arp_replied_lem_example :
    ((comp : ℕ)
      → (answered comp 99 (arp_replied limits 5 99 asked).calls
          ≡ answered comp 99 asked.calls + count comp entry.compl)
        × (waiting comp (arp_replied limits 5 99 asked).arp_table + count comp entry.compl
            ≡ waiting comp asked.arp_table)
        × (in_care comp (arp_replied limits 5 99 asked) ≡ in_care comp asked))
    × ((comp : ℕ) (malloc : Option ℕ)
        → arp_request limits comp 5 malloc (arp_replied limits 5 99 asked)
          ≡ some (now 99, arp_replied limits 5 99 asked))
unfolding find
arp_replied_lem_example = arp_replied_lem limits 5 99 asked entry refl

-- ===== src/Resolve/Routing.antt =====
-- tas_nic/slow/routing.c: the first route that matches, and the way along the gateways, on fuel.
use tas_smartnic.Prelude.{
  subst, ◌-◌, Bool-cases, inr, inl, Option-cases, ◌^◌, ◌≤◌, [], not, false, true, if◌then◌else◌,
  ◌≢◌, ◌⊎◌, none, ◌∷◌, some, ◌==◌, Option, Bool, List, u32, ℕ, zero, suc, refl, ◌≡◌, arith,
}
use Prim.Native.Nat.{bit_and}

-- struct routing_table_entry
pub record Route : Type 0 where
  pub dest_ip : ℕ
  pub dest_mask : ℕ
  pub next_hop : ℕ

-- struct config_route
pub record ConfigRoute : Type 0 where
  pub ip : ℕ
  pub ip_prefix : ℕ
  pub next_hop_ip : ℕ

-- prefix_len_mask, for a prefix of at most 32 bits
unfoldable pub prefix_len_mask : ℕ → ℕ
prefix_len_mask len = u32 (2 ^ 64 - 1 - (2 ^ (32 - len) - 1))

-- The routes of the configuration; `none` where a mask removes bits of the address.
unfoldable pub config_routes : List ConfigRoute → Option (List Route)
config_routes [] = some []
config_routes (cr ∷ crs) =
    let mask : ℕ = prefix_len_mask cr.ip_prefix in
    let rest = config_routes crs in
    if not (bit_and mask cr.ip == cr.ip) then none else elim rest [
      | none ↦ none
      | some routes ↦
          some (record { dest_ip = cr.ip; dest_mask = mask; next_hop = cr.next_hop_ip } ∷ routes)
    ]

-- routing_init: the network of the host, and then the routes of the configuration.
unfoldable pub routing_init : (ip ip_prefix : ℕ) → List ConfigRoute → Option (List Route)
routing_init ip ip_prefix crs =
    let mask : ℕ = prefix_len_mask ip_prefix in
    let network : Route = record { dest_ip = bit_and ip mask; dest_mask = mask; next_hop = 0 } in
    elim (config_routes crs) [ none ↦ none | some routes ↦ some (network ∷ routes) ]

abbrev pub matches : Route → ℕ → Bool
matches r ip = r.dest_ip == bit_and ip r.dest_mask

-- resolve
unfoldable pub resolve : List Route → ℕ → Option Route
resolve [] ip = none
resolve (r ∷ rs) ip = let rest = resolve rs ip in if matches r ip then some r else rest

-- Where the way along the gateways ends.
pub data Hop : Type 0 where
  reached : (ip : ℕ) → Hop
  no_route : Hop
  out_of_fuel : Hop

-- The loop of routing_resolve.
unfoldable pub next_hops : ℕ → List Route → ℕ → Hop
next_hops zero table ip = out_of_fuel
next_hops (suc fuel) table ip = elim (resolve table ip) [
  | none ↦ no_route
  | some r ↦
      let rest = next_hops fuel table r.next_hop in if r.next_hop == 0 then reached ip else rest
]

-- The address to ask ARP for: the destination itself, or the gateway of its route.
abbrev pub gateway : List Route → ℕ → Hop
gateway table ip = elim (resolve table ip) [
  | none ↦ no_route
  | some r ↦ if r.next_hop == 0 then reached ip else reached r.next_hop
]

-- Every gateway is in the network of the host.
unfoldable pub GatewaysNear : Route → List Route → Type 0
GatewaysNear network [] = Unit
GatewaysNear network (r ∷ rs) =
    ((r.next_hop ≡ 0) ⊎ (matches network r.next_hop ≡ true)) × GatewaysNear network rs

near_next :
    (network : Route) (table : List Route) (ip : ℕ) (r : Route)
    → GatewaysNear network table
    → resolve table ip ≡ some r
    → (r.next_hop ≡ 0) ⊎ (matches network r.next_hop ≡ true)
unfolding GatewaysNear resolve
near_next network [] ip r all e = absurd cc
near_next network (d ∷ ds) ip r (near, all) e = elim (Bool-cases (matches d ip)) [
  | inl here ↦
      let same : d ≡ r = cc in
      subst (λ x. (x.next_hop ≡ 0) ⊎ (matches network x.next_hop ≡ true)) same near
  | inr later ↦ near_next network ds ip r all (rw later at e)
]

-- A table whose first entry is the host's network and whose gateways are all in it: the loop ends after
-- at most two passes, with the destination itself if its route has no gateway, and with the gateway
-- of the first route that matches otherwise.
pub next_hops-gateway :
    (fuel : ℕ) (network : Route) (routes : List Route) (ip : ℕ)
    → 2 ≤ fuel
    → network.next_hop ≡ 0
    → GatewaysNear network (network ∷ routes)
    → next_hops fuel (network ∷ routes) ip ≡ gateway (network ∷ routes) ip
unfolding next_hops resolve
next_hops-gateway zero network routes ip enough direct near = absurd (omega arith)
next_hops-gateway (suc zero) network routes ip enough direct near = absurd (omega arith)
next_hops-gateway (suc (suc fuel)) network routes ip enough direct near =
    elim (Option-cases (resolve (network ∷ routes) ip)) [
      | inl e ↦ rw (next_hops, e, gateway) refl
      | inr (r, e) ↦ elim (Bool-cases (r.next_hop == 0)) [
        | inl last ↦ rw (next_hops, e, gateway, last) refl
        | inr more ↦ elim (near_next network (network ∷ routes) ip r near e) [
          | inl zero_hop ↦ absurd (ground arith)
          | inr there ↦
              let found : resolve (network ∷ routes) r.next_hop ≡ some network = rw there refl in
              let ends : (network.next_hop == 0) ≡ true = rw direct refl in
              rw (next_hops, e, gateway, more, next_hops, found, ends) refl
        ]
      ]
    ]

-- A route that is also the route of its own gateway: no number of passes is enough.
pub next_hops_hang :
    (fuel : ℕ) (table : List Route) (ip : ℕ) (r : Route)
    → resolve table ip ≡ some r
    → resolve table r.next_hop ≡ some r
    → r.next_hop ≢ 0
    → next_hops fuel table ip ≡ out_of_fuel
unfolding next_hops
next_hops_hang zero table ip r e again gate = refl
next_hops_hang (suc fuel) table ip r e again gate =
    let far : (r.next_hop == 0) ≡ false = ground arith in
    rw (next_hops, e, far) (next_hops_hang fuel table r.next_hop r again again gate)

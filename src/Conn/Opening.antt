-- ===== src/Conn/Opening.antt =====
-- tcp_open, tcp_listen and conn_alloc of tas_nic/slow/tcp.c. What malloc, packetmem_alloc,
-- rq_pair_receiver and routing_resolve answer are arguments.
use tas_smartnic.Prelude.{
  ◌||◌, ◌==◌, true, none, not, false, some, if◌then◌else◌, Option, ℕ, Bool, length, ◌++◌, [], ◌∷◌,
}
use tas_smartnic.Conn.Ports.{
  Port, unused, listen, multi, port_alloc, found, exhausted, out_of_fuel, Scan, Allocated,
  port_alloc-Allocated, first_eph,
}
use tas_smartnic.Conn.Ports
use tas_smartnic.Conn.State.{
  Conn, State, Config, arp_pending, M, call, update, pure, ◌>>=◌, ◌>>◌, the_conn, set_conn,
  packetmem_free, assert,
}
use tas_smartnic.Conn.Table.{conn_register}
use tas_smartnic.Conn.Handlers.{conn_free, conn_arp_done}

-- What the allocations of conn_alloc answer; `pair_ok` only for a connection of a remote host.
pub record Memory : Type 0 where
  pub conn_ok : Bool
  pub rx_ok : Bool
  pub tx_ok : Bool
  pub pair_ok : Option Bool

-- conn_alloc: whether there is a connection. `raw` is what malloc leaves.
unfoldable pub conn_alloc : Memory → Conn → M Bool
conn_alloc m raw =
    if not m.conn_ok
    then pure false
    else if not m.rx_ok
    then pure false
    else if not m.tx_ok
    then (do call packetmem_free; pure false)
    else (do
      elim m.pair_ok [ none ↦ pure tt | some ok ↦ assert ok ]
      set_conn (record raw { live = true; to_armed = false })
      pure true)

-- The answer of routing_resolve.
pub data Resolved : Type 0 where
  failed pending : Resolved
  now : (mac : ℕ) → Resolved

-- port_alloc, with the hint it leaves; 0 is its failure.
unfoldable pub take_port : ℕ → M ℕ
take_port fuel s = elim (port_alloc fuel s.ports s.eph_hint) [
  | found p h ↦ some (p, record s { eph_hint = h })
  | exhausted ↦ some (0, s)
  | out_of_fuel ↦ none
]

-- `ports[local_port] = conn`
unfoldable pub own_port : ℕ → M (Unit {0})
own_port p s = some (tt, record s { ports = update s.ports p (Ports.conn s.conn.id) })

module _ (config : Config) (hash : (l_ip r_ip l_po r_po : ℕ) → ℕ) (fuel : ℕ) where
  -- tcp_open from routing_resolve on: whether it returns 0.
  unfoldable pub open_resolved : Resolved → (local_port random : ℕ) → M Bool
  unfolding conn_free conn_register own_port
  open_resolved failed p random = do conn_free; pure false
  open_resolved (now mac) p random = do
    c ← the_conn
    set_conn (record c { remote_mac = mac })
    conn_register hash
    conn_arp_done config hash random
    own_port p
    pure true
  open_resolved pending p random = do conn_register hash; own_port p; pure true

  -- tcp_open from port_alloc on.
  unfoldable pub open_fresh :
      (opaque remote_ip remote_port db_id : ℕ) → Resolved → (random : ℕ) → M Bool
  unfolding take_port
  open_fresh opaque remote_ip remote_port db_id resolved random = do
    p ← take_port fuel
    c ← the_conn
    if p == 0 then (do conn_free; pure false) else (do
      set_conn (record c {
        opaque = opaque;
        status = arp_pending;
        remote_ip = remote_ip;
        local_ip = config.ip;
        remote_port = remote_port;
        local_port = p;
        local_seq = 0;
        remote_seq = 0;
        cnt_tx_pending = 0;
        db_id = db_id;
        ecn = false;
        comp_ok = true;
      })
      open_resolved resolved p random)

  -- tcp_open
  unfoldable pub tcp_open :
      Memory → Conn → (opaque remote_ip remote_port db_id : ℕ) → Resolved → (random : ℕ) → M Bool
  unfolding conn_alloc
  tcp_open m raw opaque remote_ip remote_port db_id resolved random = do
    ok ← conn_alloc m raw
    if ok then open_fresh opaque remote_ip remote_port db_id resolved random else pure false

-- tcp_listen: whether it returns 0. `alloc_ok` says whether its allocations succeed, `id` is the new
-- listener's address.
unfoldable pub tcp_listen : (local_port : ℕ) → (reuseport alloc_ok : Bool) → (id : ℕ) → M Bool
tcp_listen p reuseport alloc_ok id s =
    let to : Port → State = λ port. record s { ports = update s.ports p port } in
    if not reuseport
    then elim (s.ports p) [
      | unused ↦ if alloc_ok then some (true, to (listen id)) else some (false, s)
      | listen l ↦ some (false, s)
      | multi ls ↦ some (false, s)
      | Ports.conn c ↦ some (false, s)
    ]
    else elim (s.ports p) [
      | unused ↦ if alloc_ok then some (true, to (multi (id ∷ []))) else some (false, s)
      | listen l ↦ some (false, s)
      | multi ls ↦
          if length ls == 32 || not alloc_ok
          then some (false, s)
          else some (true, to (multi (ls ++ id ∷ [])))
      | Ports.conn c ↦ some (false, s)
    ]

-- ===== src/Conn/Handlers.antt =====
-- The handlers of tas_nic/slow/tcp.c on the connection at hand. What nicif answers and the random
-- numbers of utils_rng_gen32 are arguments.
use tas_smartnic.Prelude.{
  ◌*◌, ◌%◌, u32, ◌||◌, ◌/◌, ltb, ◌&&◌, add32, ◌+◌, Bool, if◌then◌else◌, false, not, Option, true, ℕ,
  some, none,
}
use tas_smartnic.Timeout.Clock.{middle}
use tas_smartnic.Conn.Ports.{Port, unused, listen, multi}
use tas_smartnic.Conn.Ports
use tas_smartnic.Conn.State.{
  Status, syn_wait, arp_pending, syn_sent, reg_synack, conn_open, conn_closed, conn_failed, Flags,
  TimeoutType, handshake, closed, other, send_control, timeout_arm, timeout_disarm, cc_conn_init,
  cc_conn_remove, connection_add, connection_free, appif_conn_opened, appif_accept_conn,
  appif_conn_closed, packetmem_free, Config, Packet, no_flags, M, pure, abort, ◌>>=◌, ◌>>◌,
  the_conn, set_conn, call, assert, update,
}
use tas_smartnic.Conn.Table.{conn_unregister}

-- The SYN of a connection that is opened, and `TCP_MSS`.
abbrev pub tcp_mss : ℕ
tcp_mss = 1460

abbrev pub syn_flags : Flags
syn_flags = record no_flags { syn = true; ece = true; cwr = true }

-- send_control
unfoldable pub send : Flags → Option ℕ → ℕ → M (Unit {0})
send flags ts_echo mss = do
  c ← the_conn
  call (send_control flags c.local_seq c.remote_seq ts_echo mss)

-- conn_timeout_arm, with util_timeout_arm's abort for a time out of range, and the trap on a modulus of
-- 0. Both of its callers pass TO_TCP_HANDSHAKE.
unfoldable pub conn_timeout_arm : ℕ → M (Unit {0})
conn_timeout_arm random = do
  c ← the_conn
  assert (not c.to_armed)
  assert (ltb 0 c.timeout)
  let to = add32 (c.timeout / 2) (random % c.timeout)
  set_conn (record c { to_armed = true })
  assert (ltb to middle)
  call (timeout_arm to handshake)

-- conn_timeout_disarm
unfoldable pub conn_timeout_disarm : M (Unit {0})
conn_timeout_disarm = do
  c ← the_conn
  assert c.to_armed
  set_conn (record c { to_armed = false })
  call timeout_disarm

-- The release of a port of type PORT_TYPE_CONN.
unfoldable pub free_port : M (Unit {0})
free_port s = some (
  tt,
  record s {
    ports = elim (s.ports s.conn.local_port) [
      | Ports.conn c ↦ update s.ports s.conn.local_port unused
      | other_port ↦ s.ports
    ];
  },
)

-- conn_free
unfoldable pub conn_free : M (Unit {0})
conn_free = do
  c ← the_conn
  call packetmem_free
  call packetmem_free
  set_conn (record c { live = false })

-- TCPH_FLAGS == TCP_SYN
abbrev pub only_syn : Flags → Bool
only_syn f = f.syn && not f.fin && not f.rst && not f.ack && not f.ece && not f.cwr && not f.rest

-- The test of the state in tcp_timeout.
abbrev pub is_syn_sent : Status → Bool
is_syn_sent syn_sent = true
is_syn_sent syn_wait = false
is_syn_sent arp_pending = false
is_syn_sent reg_synack = false
is_syn_sent conn_open = false
is_syn_sent conn_closed = false
is_syn_sent conn_failed = false

abbrev pub is_open : Status → Bool
is_open conn_open = true
is_open syn_wait = false
is_open arp_pending = false
is_open reg_synack = false
is_open syn_sent = false
is_open conn_closed = false
is_open conn_failed = false

module _ (config : Config) (hash : (l_ip r_ip l_po r_po : ℕ) → ℕ) where
  -- conn_failed, for a status that is not 0.
  unfoldable pub fail : M (Unit {0})
  unfolding conn_timeout_disarm conn_unregister
  fail = do
    conn_unregister hash
    c ← the_conn
    if c.to_armed then conn_timeout_disarm else pure tt
    c ← the_conn
    set_conn (record c { status = conn_failed })
    call (appif_conn_opened false)

  -- conn_arp_done
  unfoldable pub conn_arp_done : ℕ → M (Unit {0})
  unfolding conn_timeout_arm send
  conn_arp_done random = do
    c ← the_conn
    set_conn (record c { status = syn_sent; to_attempts = 0; timeout = config.tcp_handshake_to })
    conn_timeout_arm random
    send syn_flags (some 0) tcp_mss

  -- The part of conn_syn_sent_packet for a SYN-ACK with a timestamp: whether it returns 0.
  unfoldable pub open_conn : Packet → ℕ → Bool → ℕ → M Bool
  unfolding send
  open_conn p ts add_ok flow_id = do
    c ← the_conn
    let c' = record c {
      remote_seq = add32 p.seqno 1;
      local_seq = p.ackno;
      syn_ts = ts;
      ecn = c.ecn || (p.flags.ece && not p.flags.cwr);
      comp_ok = true;
    }
    set_conn c'
    call cc_conn_init
    call (connection_add c'.remote_seq c'.local_seq)
    if add_ok
        then (do
          set_conn (record c' { status = conn_open; flow_id = flow_id })
          send (record no_flags { ack = true }) (some ts) 0
          call (appif_conn_opened true)
          pure true)
        else pure false

  -- conn_syn_sent_packet
  unfoldable pub conn_syn_sent_packet : Packet → Bool → ℕ → M Bool
  unfolding conn_timeout_disarm open_conn
  conn_syn_sent_packet p add_ok flow_id = do
    conn_timeout_disarm
    if p.flags.syn && p.flags.ack
        then elim p.ts_val [ none ↦ pure false | some ts ↦ open_conn p ts add_ok flow_id ]
        else pure false

  -- The branches of conn_packet by the state of the connection.
  unfoldable pub packet_in : Status → Packet → ℕ → ℕ → Bool → ℕ → M (Unit {0})
  unfolding conn_syn_sent_packet fail send
  packet_in syn_sent p fn_core flow_group add_ok flow_id = do
    c ← the_conn
    set_conn (record c { fn_core = fn_core; flow_group = flow_group })
    ok ← conn_syn_sent_packet p add_ok flow_id
    if ok then pure tt else fail
  packet_in conn_open p fn_core flow_group add_ok flow_id =
      if only_syn p.flags
      then elim p.ts_val [
        | none ↦ fail
        | some ts ↦ do
          c ← the_conn
          send (record no_flags { syn = true; ack = true; ece = c.ecn }) (some ts) tcp_mss
      ]
      else pure tt
  packet_in conn_closed p fn_core flow_group add_ok flow_id =
      if p.flags.fin then send (record no_flags { ack = true }) (some 0) 0 else pure tt
  packet_in syn_wait p fn_core flow_group add_ok flow_id = pure tt
  packet_in arp_pending p fn_core flow_group add_ok flow_id = pure tt
  packet_in reg_synack p fn_core flow_group add_ok flow_id = pure tt
  packet_in conn_failed p fn_core flow_group add_ok flow_id = pure tt

  -- conn_packet
  unfoldable pub conn_packet : Packet → ℕ → ℕ → Bool → ℕ → M (Unit {0})
  unfolding packet_in
  conn_packet p fn_core flow_group add_ok flow_id = do
    c ← the_conn
    packet_in c.status p fn_core flow_group add_ok flow_id

  -- conn_reg_synack
  unfoldable pub conn_reg_synack : M (Unit {0})
  unfolding send
  conn_reg_synack = do
    c ← the_conn
    set_conn (record c { status = conn_open })
    send (record no_flags { syn = true; ack = true; ece = c.ecn }) (some c.syn_ts) tcp_mss
    call appif_accept_conn

  -- conn_close_timeout
  unfoldable pub conn_close_timeout : M (Unit {0})
  unfolding free_port conn_unregister
  conn_close_timeout = do
    free_port
    conn_unregister hash
    call packetmem_free
    call packetmem_free
    c ← the_conn
    call (connection_free c.flow_id)
    free_port
    call appif_conn_closed
    set_conn (record c { live = false })

  -- The handshake timeout of a connection: it is given up, or the SYN is sent again.
  unfoldable pub retry : ℕ → M (Unit {0})
  unfolding fail conn_timeout_arm send
  retry random = do
    c ← the_conn
    let c' = record c { to_attempts = c.to_attempts + 1 }
    set_conn c'
    if ltb config.tcp_handshake_retries c'.to_attempts then fail else (do
      set_conn (record c' { timeout = u32 (c.timeout * 2) })
      conn_timeout_arm random
      send syn_flags (some 0) tcp_mss)

  -- tcp_timeout
  unfoldable pub tcp_timeout : TimeoutType → ℕ → M (Unit {0})
  unfolding conn_close_timeout retry
  tcp_timeout type random = do
    c ← the_conn
    assert c.to_armed
    set_conn (record c { to_armed = false })
    elim type [
      | closed ↦ conn_close_timeout
      | other ↦ abort
      | handshake ↦ do assert (is_syn_sent c.status); retry random
    ]

  -- tcp_close of an open connection, where nicif_connection_disable answers `seqs`: the sequence
  -- numbers, and whether both directions were closed; `none` is its failure.
  unfoldable pub close_open : Option (ℕ × ℕ × Bool) → M Bool
  unfolding send
  close_open none = pure false
  close_open (some (tx_seq, rx_seq, both_closed)) = do
    c ← the_conn
    set_conn (record c { remote_seq = rx_seq; local_seq = tx_seq })
    if both_closed then pure tt else send (record no_flags { rst = true }) none 0
    call cc_conn_remove
    c ← the_conn
    set_conn (record c { status = conn_closed })
    assert (not c.to_armed)
    call (timeout_arm 10000 closed)
    c ← the_conn
    set_conn (record c { to_armed = true })
    pure true

  -- tcp_close: whether it returns 0.
  unfoldable pub tcp_close : Option (ℕ × ℕ × Bool) → M Bool
  unfolding close_open
  tcp_close seqs = do c ← the_conn; if is_open c.status then close_open seqs else pure false

  -- tcp_destroy
  unfoldable pub tcp_destroy : M (Unit {0})
  unfolding conn_free
  tcp_destroy = do
    c ← the_conn
    assert (elim c.status [ conn_failed ↦ true | others ↦ false ])
    conn_free

  -- tcp_poll for one connection of conn_async_q, by its state.
  unfoldable pub completed : Status → Bool → ℕ → M (Unit {0})
  unfolding conn_arp_done conn_reg_synack fail
  completed arp_pending ok random = if ok then conn_arp_done random else fail
  completed reg_synack ok random = if ok then conn_reg_synack else fail
  completed syn_wait ok random = pure tt
  completed syn_sent ok random = pure tt
  completed conn_open ok random = pure tt
  completed conn_closed ok random = pure tt
  completed conn_failed ok random = pure tt

  unfoldable pub tcp_poll_conn : ℕ → M (Unit {0})
  unfolding completed
  tcp_poll_conn random = do c ← the_conn; completed c.status c.comp_ok random

-- ===== src/Conn/Tests.antt =====
-- Runs of connections and listeners, and the theorems on them at these.
use tas_smartnic.Prelude.{
  ◌==◌, arith, if◌then◌else◌, ℕ, refl, ◌≡◌, true, false, none, some, [], ◌∷◌,
}
use tas_smartnic.Conn.Ports.{
  Port, unused, listen, multi, Scan, found, exhausted, out_of_fuel, port_alloc,
  port_alloc-Allocated, port_alloc_hangs, Allocated, scan_ports,
}
use tas_smartnic.Conn.Ports
use tas_smartnic.Conn.State.{
  Conn, State, Config, Raw, no_flags, arp_pending, syn_sent, syn_wait, timeout_arm, send_control,
  handshake, update,
}
use tas_smartnic.Conn.Table.{conn_register, conn_lookup, conn_unregister, entry}
use tas_smartnic.Conn.Invariant.{Inv, doubled, has}
use tas_smartnic.Conn.Events.{polled, timed_out, handle, done, next, run-handled, retries}
use tas_smartnic.Conn.Lookup.{register-lookup, registered}
use tas_smartnic.Conn.Listener.{Slot, Listener, listener_packet, listener_accept}
use tas_smartnic.Conn.Backlog.{listener_packet-Queued, Queued}
use tas_smartnic.Conn.Accepting.{listener_accept-Accepts, Accepts}
use tas_smartnic.Conn.Opening.{Memory, now, tcp_open, open_fresh, open_resolved}
use tas_smartnic.Conn.Opened.{Opened}
use tas_smartnic.Conn.Dispatch.{tcp_packet, to_conn, as_packet}
use tas_smartnic.Conn.Answers.{tcp_open-tcp_packet, tcp_packet-ResetOnly, ResetOnly}
use tas_smartnic.Conn.Handlers.{syn_flags, tcp_poll_conn, completed, conn_arp_done}
use tas_smartnic.Conn.Options.{parse_options, parse_scan, parse_pass}

abbrev one_chain : ℕ → ℕ → ℕ → ℕ → ℕ
one_chain l_ip r_ip l_po r_po = 7

abbrev settings : Config
settings = record { ip = 10; tcp_handshake_to = 1000; tcp_handshake_retries = 2; kni = false }

-- A connection from port 9000 to port 80 of host 20 that waits for its ARP answer.
abbrev fresh : Conn
fresh = record {
  id = 1;
  live = true;
  opaque = 0;
  db_id = 0;
  remote_mac = 0;
  remote_ip = 20;
  local_ip = 10;
  remote_port = 80;
  local_port = 9000;
  status = arp_pending;
  remote_seq = 0;
  local_seq = 0;
  syn_ts = 0;
  timeout = 0;
  to_attempts = 0;
  to_armed = false;
  cnt_tx_pending = 0;
  comp_ok = true;
  flow_id = 0;
  fn_core = 0;
  ecn = false;
  flow_group = 0;
}

abbrev empty : State
empty = record {
  conn = fresh;
  ports = λ p. unused;
  eph_hint = 9000;
  hashtable = λ h. [];
  calls = [];
}

abbrev opening : State
opening = record empty {
  ports = λ p. if p == 9000 then Ports.conn 1 else unused;
  hashtable = λ h.
      if h == 7
      then record { conn = 1; remote_ip = 20; local_port = 9000; remote_port = 80 } ∷ []
      else [];
}

-- A SYN with a timestamp option of value 5.
abbrev syn : Raw
syn = record {
  eth_src = 99;
  ip_src = 20;
  ip_dest = 10;
  ip_len = 52;
  src_port = 80;
  dest_port = 9000;
  seqno = 100;
  ackno = 0;
  flags = record no_flags { syn = true };
  hdrlen = 8;
  opt = λ i.
      if i == 0
      then 8
      else if i == 1
      then 10
      else if i == 5
      then 5
      else if i == 10
      then 1
      else if i == 11
      then 1
      else 0;
}

abbrev syn_slot : Slot
syn_slot = record { pkt = syn; len = 66; core = 0; fg = 0 }

abbrev waiting : Listener
waiting = record {
  port = 9000;
  ecn = false;
  wait_conns = [];
  slots = λ i. syn_slot;
  backlog_len = 2;
  backlog_pos = 1;
  backlog_used = 0;
}

-- The connection with its SYN sent and its timeout armed.
abbrev asking : Conn
asking = record fresh { status = syn_sent; timeout = 1000; to_armed = true }

abbrev asked : State
asked = record opening {
  conn = asking;
  calls = timeout_arm 506 handshake ∷ send_control syn_flags 0 0 (some 0) 1460 ∷ [];
}

-- The SYN sent again after a timeout.
run-handled_example :
    (u : State) × (handle settings one_chain (timed_out handshake 6) asked ≡ some u)
    × Inv one_chain settings u
unfolding handle doubled has tcp_poll_conn completed conn_arp_done
run-handled_example =
    run-handled settings one_chain opening asked (timed_out handshake 6) (omega arith, omega arith)
      (λ live. (refl, refl))
      (next {s = opening} {t = asked} {u = asked} (polled 6) refl tt refl done) refl retries

register-lookup_example :
    (conn_register one_chain empty ≡ some (tt, registered one_chain empty))
    × (conn_lookup one_chain (registered one_chain empty) (as_packet syn none) ≡ some 1)
    × ((t : State) × (conn_unregister one_chain (registered one_chain empty) ≡ some (tt, t))
        × ((h : ℕ) → t.hashtable h ≡ []))
register-lookup_example =
    register-lookup one_chain empty (as_packet syn none) (refl, refl, refl, refl)

listener_packet-Queued_example :
    Queued settings one_chain 14 waiting
      (record { pkt = syn; len = 66; core = 0; fg = 0 })
      (listener_packet settings one_chain 14 waiting syn (some 0) 0 0 true 0 empty)
listener_packet-Queued_example =
    listener_packet-Queued settings one_chain 14 waiting syn (some 0) 0 0 true 0 empty
      (omega arith, omega arith, omega arith) refl

abbrev one_waits : Listener
one_waits = record waiting {
  wait_conns = record fresh { status = syn_wait } ∷ [];
  backlog_used = 1;
}

listener_accept-Accepts_example :
    Accepts settings one_chain 14 one_waits
      (record fresh { status = syn_wait })
      []
      true
      (listener_accept settings one_chain 14 one_waits true 3 empty)
unfolding parse_options parse_scan parse_pass
listener_accept-Accepts_example =
    listener_accept-Accepts settings one_chain 14 one_waits (record fresh { status = syn_wait }) []
      true 3 empty (omega arith, omega arith, omega arith) (omega arith) refl refl (λ e. absurd cc)

abbrev memory : Memory
memory = record { conn_ok = true; rx_ok = true; tx_ok = true; pair_ok = some true }

-- What tcp_open leaves where the peer's address is known at once.
abbrev opened : State
opened = record {
  conn = record asking { remote_mac = 99 };
  ports = update empty.ports 9000 (Ports.conn 1);
  eph_hint = 9001;
  hashtable = update empty.hashtable 7 (entry one_chain fresh ∷ []);
  calls = asked.calls;
}

tcp_open-tcp_packet_example :
    tcp_packet settings one_chain 57344 opened 66 syn ≡ to_conn 1 (as_packet syn (some 0))
unfolding doubled tcp_open parse_options parse_scan parse_pass port_alloc scan_ports open_fresh
    open_resolved conn_arp_done
tcp_open-tcp_packet_example =
    tcp_open-tcp_packet settings one_chain 57344 memory fresh 0 20 80 0 (now 99) 6 empty opened syn
      66 (record { mss = none; ts = some 0 }) (omega arith, omega arith) (omega arith) (omega arith)
      (omega arith) (λ e. absurd cc) refl (omega arith) refl refl refl refl refl

tcp_packet-ResetOnly_example :
    ResetOnly settings one_chain 14 empty 66 syn (tcp_packet settings one_chain 14 empty 66 syn)
tcp_packet-ResetOnly_example = tcp_packet-ResetOnly settings one_chain 14 empty 66 syn

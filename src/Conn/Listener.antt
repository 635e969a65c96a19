-- ===== src/Conn/Listener.antt =====
-- Listeners of tas_nic/slow/tcp.c (struct listener of tas_nic/slow/internal.h): the ring of SYNs that
-- wait for an accept, and the list of accepts that wait for a SYN.
use tas_smartnic.Prelude.{
  none, ltb, [], true, leb, ◌∷◌, u16, ◌++◌, if◌then◌else◌, ◌||◌, not, some, add32, false, ◌==◌,
  ◌&&◌, Option, List, ℕ, zero, suc, Bool, ◌%◌, ◌-◌, ◌+◌, ◌*◌,
}
use tas_smartnic.Conn.State.{
  Conn, State, Config, Flags, Raw, Call, cc_conn_init, connection_add, nbqueue_enq, send_rst_ack,
  appif_listen_newconn, reg_synack, syn_wait, M, call, update,
}
use tas_smartnic.Conn.Table.{entry, bucket}
use tas_smartnic.Conn.Options.{ok, malformed, out_of_fuel, parse_options}

-- struct backlog_slot, with the core and the flow group of its packet. The packet's IP length covers
-- its headers.
pub record Slot : Type 0 where
  pub pkt : Raw
  pub len : ℕ
  pub core : ℕ
  pub fg : ℕ

pub record Listener : Type 0 where
  pub port : ℕ
  pub ecn : Bool
  pub wait_conns : List Conn
  pub slots : ℕ → Slot
  pub backlog_len : ℕ
  pub backlog_pos : ℕ
  pub backlog_used : ℕ

-- The value of a timestamp option.
abbrev pub ts_val : Raw → ℕ → ℕ
ts_val p off =
    p.opt (off + 2) * 16777216 + p.opt (off + 3) * 65536 + p.opt (off + 4) * 256 + p.opt (off + 5)

abbrev pub opts_ts_val : Raw → Option ℕ → Option ℕ
opts_ts_val p none = none
opts_ts_val p (some off) = some (ts_val p off)

-- send_reset
unfoldable pub send_reset : Raw → Option ℕ → M (Unit {0})
send_reset p ts =
    call (send_rst_ack p.ip_src p.src_port p.dest_port p.ackno (add32 p.seqno 1) (opts_ts_val p ts))

-- The test of the flags: a SYN, whatever its ECN bits.
abbrev pub is_syn : Flags → Bool
is_syn f = f.syn && not f.fin && not f.rst && not f.ack && not f.rest

-- The four addresses of two packets.
abbrev pub same_tuple : Raw → Raw → Bool
same_tuple p q =
    p.ip_src == q.ip_src
    && p.ip_dest == q.ip_dest
    && p.src_port == q.src_port
    && p.dest_port == q.dest_port

-- The loop over the used slots.
unfoldable pub is_waiting : Raw → (ℕ → Slot) → (backlog_len n bp : ℕ) → Bool
is_waiting p slots backlog_len zero bp = false
is_waiting p slots backlog_len (suc n) bp =
    same_tuple p (slots bp).pkt || is_waiting p slots backlog_len n (add32 bp 1 % backlog_len)

-- The slot for the next packet.
abbrev pub free_slot : Listener → ℕ
free_slot l =
    let bp : ℕ = add32 l.backlog_pos l.backlog_used in
    if leb l.backlog_len bp then bp - l.backlog_len else bp

-- The end of listener_accept, at `out`.
unfoldable pub slot_done : Listener → Listener
slot_done l = record l {
  backlog_used = l.backlog_used - 1;
  backlog_pos =
      let pos : ℕ = add32 l.backlog_pos 1 in
      if leb l.backlog_len pos then pos - l.backlog_len else pos;
}

-- The connection that an accept takes from a SYN.
abbrev pub accepted : Config → Listener → Slot → (ts : ℕ) → Conn → Conn
accepted config l slot ts c = record c {
  fn_core = slot.core;
  flow_group = slot.fg;
  remote_mac = slot.pkt.eth_src;
  remote_ip = slot.pkt.ip_src;
  local_ip = config.ip;
  remote_port = slot.pkt.src_port;
  local_port = l.port;
  remote_seq = add32 slot.pkt.seqno 1;
  local_seq = 1;
  syn_ts = ts;
  ecn = c.ecn || (slot.pkt.flags.ece && slot.pkt.flags.cwr);
  status = reg_synack;
  comp_ok = true;
}

module _ (config : Config) (hash : (l_ip r_ip l_po r_po : ℕ) → ℕ) (fuel : ℕ) where
  -- The part of listener_accept for a SYN with a timestamp. `add_ok` and `flow_id` are the answer of
  -- nicif_connection_add.
  unfoldable pub take_syn :
      Listener
      → (ts : ℕ) → Conn
      → List Conn
      → (add_ok : Bool) → (flow_id : ℕ) → State
      → Listener × State
  take_syn l ts c cs add_ok flow_id s =
      let c' : Conn = accepted config l (l.slots l.backlog_pos) ts c in
      let asked : List Call = s.calls ++ cc_conn_init ∷ connection_add c'.remote_seq 2 ∷ [] in
      if add_ok
      then (
        record l { wait_conns = cs },
        record s {
          conn = record c' { flow_id = flow_id };
          hashtable =
              update s.hashtable (bucket hash c') (entry hash c' ∷ s.hashtable (bucket hash c'));
          calls = asked ++ nbqueue_enq ∷ [];
        },
      )
      else (record l { wait_conns = c' ∷ cs }, record s { conn = c'; calls = asked })

  -- listener_accept; `none` is a failed assertion, or a parser that does not end.
  unfoldable pub listener_accept : Listener → Bool → ℕ → State → Option (Listener × State)
  unfolding take_syn slot_done
  listener_accept l add_ok flow_id s = elim l.wait_conns [
    | [] ↦ none
    | c ∷ cs ↦
        let slot : Slot = l.slots l.backlog_pos in
        if l.backlog_used == 0
        then none
        else elim (parse_options fuel slot.pkt.opt slot.pkt.hdrlen slot.len) [
          | malformed ↦ some (slot_done l, s)
          | out_of_fuel ↦ none
          | ok opts ↦ elim opts.ts [
            | none ↦ some (slot_done l, s)
            | some off ↦
                let r = take_syn l (ts_val slot.pkt off) c cs add_ok flow_id s in
                some (slot_done r.0, r.1)
          ]
        ]
  ]

  -- The listener with the packet in its ring.
  abbrev pub store : Listener → Slot → Listener
  store l slot = record l {
    slots = update l.slots (free_slot l) slot;
    backlog_used = l.backlog_used + 1;
  }

  -- listener_packet
  unfoldable pub listener_packet :
      Listener
      → Raw
      → (ts : Option ℕ) → (fn_core flow_group : ℕ) → Bool
      → ℕ
      → State
      → Option (Listener × State)
  unfolding listener_accept send_reset
  listener_packet l p ts fn_core flow_group add_ok flow_id s =
      let len : ℕ = u16 (14 + p.ip_len) in
      let slot : Slot = record { pkt = p; len = len; core = fn_core; fg = flow_group } in
      let s' : State = record s {
        calls = s.calls ++ appif_listen_newconn p.ip_src p.src_port ∷ [];
      } in
      if not (is_syn p.flags)
      then (elim (send_reset p ts s) [ none ↦ none | some (u, t) ↦ some (l, t) ])
      else if ltb 126 len
      then some (l, s)
      else if is_waiting p l.slots l.backlog_len l.backlog_used l.backlog_pos
      then some (l, s)
      else if l.backlog_len == l.backlog_used
      then some (l, s)
      else elim l.wait_conns [
        | [] ↦ some (store l slot, s')
        | c ∷ cs ↦ listener_accept (store l slot) add_ok flow_id s'
      ]

  -- tcp_accept, for a connection that conn_alloc gave: it waits for a SYN, or takes the oldest one.
  unfoldable pub tcp_accept :
      Listener → Conn → (opaque db_id : ℕ) → Bool → ℕ → State → Option (Listener × State)
  unfolding listener_accept
  tcp_accept l fresh opaque db_id add_ok flow_id s =
      let c : Conn = record fresh {
        opaque = opaque;
        status = syn_wait;
        local_port = l.port;
        db_id = db_id;
        ecn = l.ecn;
        cnt_tx_pending = 0;
      } in
      let l' : Listener = record l { wait_conns = c ∷ l.wait_conns } in
      if ltb 0 l.backlog_used then listener_accept l' add_ok flow_id s else some (l', s)

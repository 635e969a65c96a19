-- ===== src/Conn/Keeps.antt =====
-- Every handler of tas_nic/slow/tcp.c on a connection in the invariant ends and keeps it.
use tas_smartnic.Prelude.{
  not, Option-cases, ◌&&◌, u32, ◌+◌, ◌++◌, ◌%◌, ◌/◌, inr, add32, inl, ◌-◌, ltb, Bool-cases, ℕ, ◌*◌,
  ◌≤◌, ◌≡◌, Bool, true, false, ◌||◌, List, [], ◌∷◌, Option, none, some, arith, refl,
}
use tas_smartnic.Timeout.Clock.{middle}
use tas_smartnic.Conn.State.{
  send_control, timeout_arm, connection_add, cc_conn_init, Call, ◌>>=◌, timeout_disarm, update,
  Status, syn_wait, arp_pending, syn_sent, reg_synack, conn_open, conn_closed, conn_failed, Conn,
  handshake, State, Config, Packet, Entry,
}
use tas_smartnic.Conn.Table.{bucket, conn_unregister}
use tas_smartnic.Conn.Handlers.{
  tcp_mss, syn_flags, only_syn, open_conn, conn_syn_sent_packet, packet_in, close_open, conn_free,
  tcp_close, tcp_destroy, free_port, fail, retry, conn_timeout_arm, conn_timeout_disarm,
  conn_arp_done, send, conn_close_timeout, conn_reg_synack,
}
use tas_smartnic.Conn.Invariant.{
  TimerOk, Inv, Returns, returns, TimeoutsFit, doubled, InTable, unlink-has, next-doubled,
  le-doubled,
}

module _ (config : Config) (hash : (l_ip r_ip l_po r_po : ℕ) → ℕ) where
  abbrev Kept : {A : Type 0} → Option (A × State) → Type 0
  Kept r = Returns (Inv hash config) r

  unregister_lem :
      (s : State)
      → InTable hash s
      → (es : List Entry) × (conn_unregister hash s
          ≡ some (tt, record s { hashtable = update s.hashtable (bucket hash s.conn) es }))
  unfolding conn_unregister
  unregister_lem s t = let (es, u) = unlink-has s.conn.id _ t in (es, rw (conn_unregister, u) refl)

  pub fail-Inv : (s : State) → InTable hash s → Kept (fail config hash s)
  unfolding fail conn_timeout_disarm
  fail-Inv s t =
      let (es, u) = unregister_lem s t in
      rw (◌>>=◌, u)
        (elim (Bool-cases s.conn.to_armed) [
          | inl armed ↦ rw armed (returns (λ live. (refl, tt)))
          | inr idle ↦ rw idle (returns (λ live. (refl, tt)))
        ])

  arm_fits :
      TimeoutsFit config
      → (k x r : ℕ) → 1 ≤ x
      → doubled k x ≤ doubled config.tcp_handshake_retries config.tcp_handshake_to
      → ltb (add32 (x / 2) (r % x)) middle ≡ true
  unfolding doubled
  arm_fits (_, fit) k x r pos bound = let h = le-doubled k x in ground arith

  pub start_bound : (r x : ℕ) → doubled (r - 0) x ≤ doubled r x
  start_bound r x = let e : r - 0 ≡ r = omega arith in rw e (omega arith)

  -- The state behind conn_arp_done.
  abbrev pub syn_is_out : ℕ → State → State
  syn_is_out random s = record s {
    conn = record s.conn {
      status = syn_sent;
      to_attempts = 0;
      timeout = config.tcp_handshake_to;
      to_armed = true;
    };
    calls =
        (s.calls
          ++ timeout_arm (add32 (config.tcp_handshake_to / 2) (random % config.tcp_handshake_to))
              handshake
            ∷ [])
        ++ send_control syn_flags s.conn.local_seq s.conn.remote_seq (some 0) tcp_mss ∷ [];
  }

  pub arp_done_lem :
      TimeoutsFit config
      → (s : State) (random : ℕ) → s.conn.to_armed ≡ false
      → conn_arp_done config hash random s ≡ some (tt, syn_is_out random s)
  unfolding conn_arp_done conn_timeout_arm send
  arp_done_lem fit s random idle =
      let pos : ltb 0 config.tcp_handshake_to ≡ true = ground arith in
      let in_range =
        arm_fits fit config.tcp_handshake_retries config.tcp_handshake_to random (fit.0)
          (omega arith) in
      rw (idle, ◌>>=◌, pos, in_range) refl

  pub arp_done-Inv :
      TimeoutsFit config
      → (s : State) (random : ℕ) → InTable hash s
      → s.conn.to_armed ≡ false
      → Kept (conn_arp_done config hash random s)
  arp_done-Inv fit s random t idle =
      rw (arp_done_lem fit s random idle)
        (returns (λ live. ((refl, fit.0, omega arith, start_bound _ _), t)))

  pub retry-Inv :
      TimeoutsFit config
      → (s : State) (random : ℕ) → InTable hash s
      → s.conn.to_armed ≡ false
      → s.conn.status ≡ syn_sent
      → 1 ≤ s.conn.timeout
      → s.conn.to_attempts ≤ config.tcp_handshake_retries
      → doubled (config.tcp_handshake_retries - s.conn.to_attempts) s.conn.timeout
        ≤ doubled config.tcp_handshake_retries config.tcp_handshake_to
      → Kept (retry config hash random s)
  unfolding retry conn_timeout_arm send
  retry-Inv fit s random t idle here pos few bound =
      let few_here = Bool-cases (ltb config.tcp_handshake_retries (s.conn.to_attempts + 1)) in
      elim few_here [
        | inl over ↦ rw over (
            fail-Inv (record s { conn = record s.conn { to_attempts = s.conn.to_attempts + 1 } }) t)
        | inr more ↦
            let e =
              next-doubled config.tcp_handshake_retries s.conn.to_attempts s.conn.timeout
                (ground arith) in
            let bound' : doubled (config.tcp_handshake_retries - (s.conn.to_attempts + 1))
                  (s.conn.timeout * 2)
                ≤ doubled config.tcp_handshake_retries config.tcp_handshake_to =
              rw e bound in
            let small =
              le-doubled (config.tcp_handshake_retries - (s.conn.to_attempts + 1))
                (s.conn.timeout * 2) in
            let whole : u32 (s.conn.timeout * 2) ≡ s.conn.timeout * 2 = omega (arith, fit.1) in
            let positive : ltb 0 (u32 (s.conn.timeout * 2)) ≡ true = rw whole (ground arith) in
            let in_range =
              arm_fits fit (config.tcp_handshake_retries - (s.conn.to_attempts + 1))
                (u32 (s.conn.timeout * 2)) random (rw whole (omega arith)) (rw whole bound') in
            let timer : TimerOk config syn_sent (record s.conn {
              to_armed = true;
              timeout = u32 (s.conn.timeout * 2);
              to_attempts = s.conn.to_attempts + 1;
            }) =
              (refl, rw whole (omega arith), ground arith, rw whole bound') in
            rw (more, idle, ◌>>=◌, positive, in_range, here) (returns (λ live. (timer, t)))
      ]

  pub close_timeout-Inv : (s : State) → InTable hash s → Kept (conn_close_timeout config hash s)
  unfolding conn_close_timeout free_port
  close_timeout-Inv s t =
      let (es, u) = unlink-has s.conn.id _ t in
      rw (conn_unregister, ◌>>=◌, u) (returns (λ live. absurd cc))

  pub destroyed-Inv : (s : State) → s.conn.status ≡ conn_failed → Kept (tcp_destroy config hash s)
  unfolding tcp_destroy conn_free
  destroyed-Inv s e = rw (e) (returns (λ live. absurd cc))

  pub synack-Inv :
      (s : State) → InTable hash s → s.conn.to_armed ≡ false → Kept (conn_reg_synack config hash s)
  unfolding conn_reg_synack send
  synack-Inv s t idle = returns (λ live. (idle, t))

  pub close-Inv :
      (s : State) (seqs : Option (ℕ × ℕ × Bool))
      → InTable hash s
      → s.conn.to_armed ≡ false
      → s.conn.status ≡ conn_open
      → Kept (tcp_close config hash seqs s)
  unfolding tcp_close close_open send
  close-Inv s none t idle here = rw (here) (returns (λ live. (idle, t)))
  close-Inv s (some (tx_seq, rx_seq, true)) t idle here =
      rw (here, idle) (returns (λ live. (refl, t)))
  close-Inv s (some (tx_seq, rx_seq, false)) t idle here =
      rw (here, idle) (returns (λ live. (refl, t)))

  -- A SYN-ACK, or any other packet for a connection that waits for one.
  syn_sent_packet-Inv :
      (s : State) (p : Packet) (fn_core flow_group : ℕ) (add_ok : Bool) (flow_id : ℕ)
      → InTable hash s
      → s.conn.to_armed ≡ true
      → Kept (packet_in config hash syn_sent p fn_core flow_group add_ok flow_id s)
  unfolding packet_in conn_syn_sent_packet conn_timeout_disarm open_conn send
  syn_sent_packet-Inv s p fn_core flow_group add_ok flow_id t armed =
      let disarmed : Conn = record s.conn {
        fn_core = fn_core;
        flow_group = flow_group;
        to_armed = false;
      } in
      let u : State = record s { conn = disarmed; calls = s.calls ++ timeout_disarm ∷ [] } in
      elim (Bool-cases (p.flags.syn && p.flags.ack)) [
        | inr other ↦ rw (armed, other) (fail-Inv u t)
        | inl synack ↦ elim (Option-cases p.ts_val) [
          | inl e ↦ rw (armed, synack, e) (fail-Inv u t)
          | inr (ts, e) ↦ elim (Bool-cases add_ok) [
            | inl added ↦ rw (armed, synack, e, added) (returns (λ live. (refl, t)))
            | inr failed ↦
                let taken : Conn = record disarmed {
                  remote_seq = add32 p.seqno 1;
                  local_seq = p.ackno;
                  syn_ts = ts;
                  ecn = s.conn.ecn || (p.flags.ece && not p.flags.cwr);
                  comp_ok = true;
                } in
                let calls : List Call =
                  (u.calls ++ cc_conn_init ∷ []) ++ connection_add (add32 p.seqno 1) p.ackno ∷ [] in
                rw (armed, synack, e, failed)
                  (fail-Inv (record u { conn = taken; calls = calls }) t)
          ]
        ]
      ]

  pub packet-Inv :
      (status : Status) (s : State) (p : Packet) (fn_core flow_group : ℕ) (add_ok : Bool)
      (flow_id : ℕ)
      → s.conn.status ≡ status
      → Inv hash config s
      → s.conn.live ≡ true
      → Kept (packet_in config hash status p fn_core flow_group add_ok flow_id s)
  unfolding packet_in send
  packet-Inv syn_sent s p fn_core flow_group add_ok flow_id here inv live =
      let (timer, t) = rw here at (inv live) in
      syn_sent_packet-Inv s p fn_core flow_group add_ok flow_id t timer.0
  packet-Inv conn_open s p fn_core flow_group add_ok flow_id here inv live =
      let (timer, t) = rw here at (inv live) in
      elim (Bool-cases (only_syn p.flags)) [
        | inr other ↦ rw other (returns inv)
        | inl again ↦ elim (Option-cases p.ts_val) [
          | inl e ↦ rw (again, e) (fail-Inv s t)
          | inr (ts, e) ↦ rw (again, e, here) (returns (λ live. (timer, t)))
        ]
      ]
  packet-Inv conn_closed s p fn_core flow_group add_ok flow_id here inv live =
      elim (Bool-cases p.flags.fin) [
        | inr other ↦ rw other (returns inv)
        | inl fin ↦
            let (timer, t) = rw here at (inv live) in rw (fin, here) (returns (λ live. (timer, t)))
      ]
  packet-Inv syn_wait s p fn_core flow_group add_ok flow_id here inv live = returns inv
  packet-Inv arp_pending s p fn_core flow_group add_ok flow_id here inv live = returns inv
  packet-Inv reg_synack s p fn_core flow_group add_ok flow_id here inv live = returns inv
  packet-Inv conn_failed s p fn_core flow_group add_ok flow_id here inv live = returns inv

-- ===== src/Conn/Answers.antt =====
-- tcp_packet of tas_nic/slow/tcp.c behind tcp_open, and its resets.
use tas_smartnic.Prelude.{
  subst, ◌<◌, ◌≢◌, ◌⊎◌, Bool-cases, inl, ==-same, inr, ◌==◌, Option-cases, ltb, ℕ, true, false,
  Option, none, some, refl, ◌≡◌, arith, ◌≤◌,
}
use tas_smartnic.Conn.State.{State, Config, Raw, Conn}
use tas_smartnic.Conn.Table.{conn_lookup}
use tas_smartnic.Conn.Options.{Opts, Answer, ok, malformed, out_of_fuel, parse_options}
use tas_smartnic.Conn.Invariant.{TimeoutsFit}
use tas_smartnic.Conn.Ports.{first_eph}
use tas_smartnic.Conn.Opened.{Opened, tcp_open-Opened}
use tas_smartnic.Conn.Opening.{Memory, Resolved, tcp_open}
use tas_smartnic.Conn.Dispatch.{
  Target, to_conn, to_listener, reset, dropped, endless, listener_lookup, tcp_packet, deliver,
  as_packet,
}

Answer-cases : (r : Answer) → (r ≡ malformed) ⊎ (r ≡ out_of_fuel) ⊎ ((opts : Opts) × (r ≡ ok opts))
Answer-cases malformed = inl refl
Answer-cases out_of_fuel = inr (inl refl)
Answer-cases (ok opts) = inr (inr (opts, refl))

module _ (config : Config) (hash : (l_ip r_ip l_po r_po : ℕ) → ℕ) (fuel : ℕ) where
  -- When tcp_open answers with success, with a hint among the ephemeral ports and timeouts that fit the
  -- timeout manager, the connection gets the packets that come from the side it was opened to:
  -- tcp_packet, run on the state that tcp_open left, hands every packet from there to the connection's
  -- port, with a whole header and options that the parser accepts, to this connection, whatever its
  -- flags.
  pub tcp_open-tcp_packet :
      (m : Memory) (raw : Conn) (opaque remote_ip remote_port db_id : ℕ) (resolved : Resolved)
      (random : ℕ) (s t : State) (p : Raw) (len : ℕ) (opts : Opts)
      → TimeoutsFit config
      → first_eph ≤ s.eph_hint
      → s.eph_hint < 65536
      → 57344 ≤ fuel
      → m.pair_ok ≢ some false
      → tcp_open config hash fuel m raw opaque remote_ip remote_port db_id resolved random s
        ≡ some (true, t)
      → 54 ≤ len
      → p.ip_src ≡ remote_ip
      → p.ip_dest ≡ config.ip
      → p.src_port ≡ remote_port
      → p.dest_port ≡ t.conn.local_port
      → parse_options fuel p.opt p.hdrlen len ≡ ok opts
      → tcp_packet config hash fuel t len p ≡ to_conn t.conn.id (as_packet p opts.ts)
  unfolding tcp_packet deliver
  tcp_open-tcp_packet m raw opaque remote_ip remote_port db_id resolved random s t p len opts fit
        low high enough_fuel paired success whole src dest sport dport parse =
      let opened : Opened config hash fuel s remote_ip remote_port (some (true, t)) =
        subst (Opened config hash fuel s remote_ip remote_port) success (
          tcp_open-Opened config hash fuel m raw opaque remote_ip remote_port db_id resolved random
            s fit low high enough_fuel paired) in
      let found = opened.4 (as_packet p opts.ts) src dest sport dport in
      let enough : ltb len 54 ≡ false = ground arith in
      let ours : (p.ip_dest == config.ip) ≡ true = rw dest (==-same config.ip) in
      rw (enough, ours, parse, deliver, found) refl

  -- What holds of a packet that is answered by a reset.
  abbrev pub ResetOnly : State → (len : ℕ) → Raw → Target → Type 0
  ResetOnly s len p (reset q ts) =
      (q ≡ p)
      × (p.flags.rst ≡ false)
      × (config.kni ≡ false)
      × (p.ip_dest ≡ config.ip)
      × (54 ≤ len)
      × (conn_lookup hash s (as_packet p ts) ≡ none)
      × (listener_lookup s.ports p ≡ none)
  ResetOnly s len p (to_conn id q) = conn_lookup hash s q ≡ some id
  ResetOnly s len p (to_listener l q ts) = conn_lookup hash s (as_packet p ts) ≡ none
  ResetOnly s len p dropped = Unit
  ResetOnly s len p endless = Unit

  deliver-ResetOnly :
      (s : State) (len : ℕ) (p : Raw) (ts : Option ℕ)
      → p.ip_dest ≡ config.ip
      → 54 ≤ len
      → ResetOnly s len p (deliver config hash fuel s p ts)
  unfolding deliver
  deliver-ResetOnly s len p ts ours whole =
      elim (Option-cases (conn_lookup hash s (as_packet p ts))) [
        | inr (id, e) ↦ rw (deliver, e, e) refl
        | inl stranger ↦ elim (Option-cases (listener_lookup s.ports p)) [
          | inr (l, e) ↦ rw (deliver, stranger, e, stranger) refl
          | inl closed ↦ elim (Bool-cases p.flags.rst) [
            | inl r ↦ rw (deliver, stranger, closed, r) tt
            | inr no_reset ↦ elim (Bool-cases config.kni) [
              | inl k ↦ rw (deliver, stranger, closed, no_reset, k) tt
              | inr no_kni ↦
                  rw (deliver, stranger, closed, no_reset, no_kni)
                    (refl, refl, refl, ours, whole, rw no_reset at stranger, rw no_reset at closed)
            ]
          ]
        ]
      ]

  -- tcp_packet answers with a reset only a packet with a whole header for this host that is no reset
  -- itself and has neither a connection nor a listener, and only without a kernel interface. It hands a
  -- packet to a connection only if the lookup finds it, and to a listener only if there is none.
  pub tcp_packet-ResetOnly :
      (s : State) (len : ℕ) (p : Raw) → ResetOnly s len p (tcp_packet config hash fuel s len p)
  unfolding tcp_packet
  tcp_packet-ResetOnly s len p = elim (Bool-cases (ltb len 54)) [
    | inl short ↦ rw short tt
    | inr whole ↦ elim (Bool-cases (p.ip_dest == config.ip)) [
      | inr other ↦ rw (whole, other) tt
      | inl ours ↦ elim (Answer-cases (parse_options fuel p.opt p.hdrlen len)) [
        | inl e ↦ rw (whole, ours, e) tt
        | inr (inl e) ↦ rw (whole, ours, e) tt
        | inr (inr (opts, e)) ↦
            rw (whole, ours, e) (deliver-ResetOnly s len p opts.ts (ground arith) (ground arith))
      ]
    ]
  ]

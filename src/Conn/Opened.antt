-- ===== src/Conn/Opened.antt =====
-- What tcp_open of tas_nic/slow/tcp.c leaves.
use tas_smartnic.Prelude.{
  Option-cases, inl, inr, ◌==◌, Bool-cases, sym, ◌∙◌, ◌%◌, ◌≢◌, ==-same, none, false, some, true,
  Option, ℕ, Bool, arith, refl, ◌≡◌, ◌<◌, ◌≤◌,
}
use tas_smartnic.Conn.Ports.{
  Port, unused, listen, multi, port_alloc, found, exhausted, out_of_fuel, Scan, Allocated,
  port_alloc-Allocated, first_eph,
}
use tas_smartnic.Conn.Ports
use tas_smartnic.Conn.State.{◌>>=◌, Conn, State, Config, Packet, arp_pending}
use tas_smartnic.Conn.Table.{find_entry, bucket, conn_register, conn_lookup}
use tas_smartnic.Conn.Handlers.{conn_free}
use tas_smartnic.Conn.Invariant.{Inv, InTable, has, TimeoutsFit}
use tas_smartnic.Conn.Keeps.{arp_done_lem, start_bound}
use tas_smartnic.Conn.Lookup.{register-lookup, registered}
use tas_smartnic.Conn.Opening.{
  open_fresh, Memory, Resolved, failed, now, pending, tcp_open, open_resolved, own_port, take_port,
  conn_alloc,
}

module _ (config : Config) (hash : (l_ip r_ip l_po r_po : ℕ) → ℕ) (fuel : ℕ) where
  -- What tcp_open leaves. A connection that it opens owns a port that was free, packets from the other
  -- side are found to be its, and it is in the invariant; where it fails, the port table and the hash
  -- table are as they were.
  abbrev pub Opened : State → (remote_ip remote_port : ℕ) → Option (Bool × State) → Type 0
  Opened s remote_ip remote_port none = ⊥
  Opened s remote_ip remote_port (some (true, t)) =
      (t.conn.live ≡ true)
      × Inv hash config t
      × (s.ports t.conn.local_port ≡ unused)
      × (t.ports t.conn.local_port ≡ Ports.conn t.conn.id)
      × ((p : Packet)
          → p.ip_src ≡ remote_ip
          → p.ip_dest ≡ config.ip
          → p.src_port ≡ remote_port
          → p.dest_port ≡ t.conn.local_port
          → conn_lookup hash t p ≡ some t.conn.id)
  Opened s remote_ip remote_port (some (false, t)) =
      ((p : ℕ) → t.ports p ≡ s.ports p) × ((h : ℕ) → t.hashtable h ≡ s.hashtable h)

  registered-has : (s : State) → InTable hash (registered hash s)
  unfolding has
  registered-has s = rw (==-same (bucket hash s.conn), has, ==-same s.conn.id) refl

  found_again :
      (s : State)
      → s.conn.local_ip ≡ config.ip
      → (p : Packet) → p.ip_src ≡ s.conn.remote_ip
      → p.ip_dest ≡ config.ip
      → p.src_port ≡ s.conn.remote_port
      → p.dest_port ≡ s.conn.local_port
      → find_entry p
          ((registered hash s).hashtable (hash p.ip_dest p.ip_src p.dest_port p.src_port % 4096))
        ≡ some s.conn.id
  unfolding conn_lookup
  found_again s ip p src dest sport dport =
      (register-lookup hash s p (src, dest ∙ sym ip, sport, dport)).1

  -- The part of tcp_open behind port_alloc.
  open_resolved-Opened :
      (s : State) (resolved : Resolved) (random : ℕ)
      → TimeoutsFit config
      → s.conn.live ≡ true
      → s.conn.status ≡ arp_pending
      → s.conn.to_armed ≡ false
      → s.conn.local_ip ≡ config.ip
      → s.ports s.conn.local_port ≡ unused
      → Opened s s.conn.remote_ip s.conn.remote_port
          (open_resolved config hash fuel resolved s.conn.local_port random s)
  unfolding open_resolved conn_free own_port conn_register conn_lookup
  open_resolved-Opened s failed random fit live status idle ip free = ((λ p. refl), (λ h. refl))
  open_resolved-Opened s pending random fit live status idle ip free = rw status (
    live,
    (λ l. (idle, registered-has s)),
    free,
    rw (==-same s.conn.local_port) refl,
    found_again s ip,
  )
  open_resolved-Opened s (now mac) random fit live status idle ip free =
      let u : State = registered hash (record s { conn = record s.conn { remote_mac = mac } }) in
      rw (◌>>=◌, arp_done_lem config hash fit u random idle)
        (
          live,
          (λ l. ((refl, fit.0, omega arith, start_bound config hash _ _), registered-has s)),
          free,
          rw (==-same s.conn.local_port) refl,
          found_again s ip,
        )

  -- The part of tcp_open from port_alloc on.
  open_fresh-Opened :
      (opaque remote_ip remote_port db_id : ℕ) (resolved : Resolved) (random : ℕ) (s : State)
      → TimeoutsFit config
      → s.conn.live ≡ true
      → s.conn.to_armed ≡ false
      → (r : Scan) → port_alloc fuel s.ports s.eph_hint ≡ r
      → Allocated s.ports s.eph_hint r
      → Opened s remote_ip remote_port
          (open_fresh config hash fuel opaque remote_ip remote_port db_id resolved random s)
  unfolding open_fresh take_port conn_free
  open_fresh-Opened opaque remote_ip remote_port db_id resolved random s fit live idle (found p h) e
        (free, low, high, more, less, other) =
      let port_is : (p == 0) ≡ false = ground arith in
      let c : Conn = record s.conn {
        opaque = opaque;
        status = arp_pending;
        remote_ip = remote_ip;
        local_ip = config.ip;
        remote_port = remote_port;
        local_port = p;
        local_seq = 0;
        remote_seq = 0;
        cnt_tx_pending = 0;
        db_id = db_id;
        ecn = false;
        comp_ok = true;
      } in
      rw (◌>>=◌, take_port, e, port_is)
        (open_resolved-Opened (record s { eph_hint = h; conn = c }) resolved random fit live refl
          idle refl free)
  open_fresh-Opened opaque remote_ip remote_port db_id resolved random s fit live idle exhausted e
        none_free =
      rw (◌>>=◌, take_port, e) ((λ p. refl), (λ h. refl))
  open_fresh-Opened opaque remote_ip remote_port db_id resolved random s fit live idle out_of_fuel e
        impossible =
      elim impossible [ ]

  pub tcp_open-Opened :
      (m : Memory) (raw : Conn) (opaque remote_ip remote_port db_id : ℕ) (resolved : Resolved)
      (random : ℕ) (s : State)
      → TimeoutsFit config
      → first_eph ≤ s.eph_hint
      → s.eph_hint < 65536
      → 57344 ≤ fuel
      → m.pair_ok ≢ some false
      → Opened s remote_ip remote_port
          (tcp_open config hash fuel m raw opaque remote_ip remote_port db_id resolved random s)
  unfolding tcp_open conn_alloc
  tcp_open-Opened m raw opaque remote_ip remote_port db_id resolved random s fit low high enough
        paired =
      let fresh : State = record s { conn = record raw { live = true; to_armed = false } } in
      let opened =
        open_fresh-Opened opaque remote_ip remote_port db_id resolved random fresh fit refl refl _
          refl (port_alloc-Allocated s.ports s.eph_hint low high fuel enough) in
      elim (Bool-cases m.conn_ok) [
        | inr lacks ↦ rw lacks ((λ p. refl), (λ h. refl))
        | inl c ↦ elim (Bool-cases m.rx_ok) [
          | inr lacks ↦ rw (c, lacks) ((λ p. refl), (λ h. refl))
          | inl rx ↦ elim (Bool-cases m.tx_ok) [
            | inr lacks ↦ rw (c, rx, lacks) ((λ p. refl), (λ h. refl))
            | inl tx ↦ elim (Option-cases m.pair_ok) [
              | inl none_to_pair ↦ rw (c, rx, tx, none_to_pair) opened
              | inr (ok, e) ↦ elim (Bool-cases ok) [
                | inl good ↦ rw (c, rx, tx, e, good) opened
                | inr bad ↦ absurd (paired (rw (e, bad) refl))
              ]
            ]
          ]
        ]
      ]

-- ===== src/Conn/Accepting.antt =====
-- listener_accept of tas_nic/slow/tcp.c: the oldest SYN leaves the ring, and the connection at the
-- head of the waiting ones, the newest of them, takes it.
use tas_smartnic.Prelude.{
  ==-same, Bool-cases, inr, inl, Option-cases, refl, none, ◌==◌, if◌then◌else◌, ◌≢◌, some, ◌∷◌,
  Option, false, ℕ, Bool, List, length, arith, refl, ◌≡◌, ◌<◌,
}
use tas_smartnic.Conn.State.{Conn, State, Config}
use tas_smartnic.Conn.Options.{Answer, ok, malformed, out_of_fuel, parse_options}
use tas_smartnic.Conn.Listener.{Slot, Listener, slot_done, listener_accept, take_syn}
use tas_smartnic.Conn.Backlog.{IsRing, contents, contents-slot_done}
use tas_smartnic.Conn.Invariant.{Inv, has}

module _ (config : Config) (hash : (l_ip r_ip l_po r_po : ℕ) → ℕ) (fuel : ℕ) where
  -- The parser's answer for the oldest SYN of the ring.
  abbrev pub oldest_opts : Listener → Answer
  oldest_opts l =
      let slot : Slot = l.slots l.backlog_pos in
      parse_options fuel slot.pkt.opt slot.pkt.hdrlen slot.len

  -- Whether the connection takes the SYN: it has a timestamp, and nicif_connection_add succeeds.
  abbrev pub takes : Answer → Bool → Bool
  takes malformed add_ok = false
  takes out_of_fuel add_ok = false
  takes (ok opts) add_ok = elim opts.ts [ none ↦ false | some off ↦ add_ok ]

  -- What listener_accept leaves: the ring without its oldest SYN, and the connection registered or still
  -- at the head of the waiting accepts.
  abbrev pub Accepts :
      Listener → Conn → List Conn → (add_ok : Bool) → Option (Listener × State) → Type 0
  Accepts l c cs add_ok none = ⊥
  Accepts l c cs add_ok (some (l', s')) =
      (IsRing l')
      × (contents l ≡ l.slots l.backlog_pos ∷ contents l')
      × (if takes (oldest_opts l) add_ok
          then (l'.wait_conns ≡ cs)
            × (s'.conn.id ≡ c.id)
            × (s'.conn.remote_ip ≡ (l.slots l.backlog_pos).pkt.ip_src)
            × (s'.conn.remote_port ≡ (l.slots l.backlog_pos).pkt.src_port)
            × Inv hash config s'
          else (length l'.wait_conns ≡ length (c ∷ cs)))

  by_answer :
      (l : Listener) (c : Conn) (cs : List Conn) (add_ok : Bool) (flow_id : ℕ) (s : State)
      → IsRing l
      → 0 < l.backlog_used
      → l.wait_conns ≡ c ∷ cs
      → c.to_armed ≡ false
      → (r : Answer) → oldest_opts l ≡ r
      → r ≢ out_of_fuel
      → Accepts l c cs add_ok (listener_accept config hash fuel l add_ok flow_id s)
  unfolding listener_accept take_syn slot_done has
  by_answer l c cs add_ok flow_id s ring used waits idle malformed e ends =
      let (ring', front) = contents-slot_done config hash fuel l ring used in
      let busy : (l.backlog_used == 0) ≡ false = ground arith in
      rw (waits, busy, e, e) (ring', front, refl)
  by_answer l c cs add_ok flow_id s ring used waits idle out_of_fuel e ends = absurd (ends refl)
  by_answer l c cs add_ok flow_id s ring used waits idle (ok opts) e ends =
      let (ring', front) = contents-slot_done config hash fuel l ring used in
      let busy : (l.backlog_used == 0) ≡ false = ground arith in
      elim (Option-cases opts.ts) [
        | inl plain ↦ rw (waits, busy, e, plain, e, plain) (ring', front, refl)
        | inr (off, stamped) ↦ elim (Bool-cases add_ok) [
          | inr failed ↦ rw (waits, busy, e, stamped, failed, e, stamped) (ring', front, refl)
          | inl added ↦
              rw (waits, busy, e, stamped, added, e, stamped)
                (
                  ring',
                  front,
                  (refl, refl, refl, refl, λ live. (idle, rw (==-same _, has, ==-same c.id) refl)),
                )
        ]
      ]

  -- With a SYN in the ring and a connection waiting for one, and a parser that ends, listener_accept ends
  -- and takes the oldest SYN out of the ring. If the SYN has a timestamp and nicif_connection_add
  -- succeeds, the connection that was at the head of the waiting ones is registered for the SYN's
  -- sender, with its timer off and in its chain of the hash table; otherwise as many connections wait
  -- as before.
  pub listener_accept-Accepts :
      (l : Listener) (c : Conn) (cs : List Conn) (add_ok : Bool) (flow_id : ℕ) (s : State)
      → IsRing l
      → 0 < l.backlog_used
      → l.wait_conns ≡ c ∷ cs
      → c.to_armed ≡ false
      → oldest_opts l ≢ out_of_fuel
      → Accepts l c cs add_ok (listener_accept config hash fuel l add_ok flow_id s)
  listener_accept-Accepts l c cs add_ok flow_id s ring used waits idle ends =
      by_answer l c cs add_ok flow_id s ring used waits idle (oldest_opts l) refl ends

-- ===== src/Conn/Ports.antt =====
-- The port table of tas_nic/slow/tcp.c and port_alloc. The loop of port_alloc runs on fuel. Listeners
-- and connections are named by their addresses.
use tas_smartnic.Prelude.{
  inr, inl, Bool-cases, leb, ◌≢◌, ◌+◌, u16, false, ◌<◌, ◌-◌, ◌==◌, ltb, true, ◌≤◌, ◌≡◌, ◌%◌,
  if◌then◌else◌, Bool, List, ℕ, zero, suc, arith, refl,
}
use native.Mathlib.Decide.{dec_lt}

-- An entry of `ports`: its type, and what it points at.
pub data Port : Type 0 where
  unused : Port
  listen : (listener : ℕ) → Port
  multi : (listeners : List ℕ) → Port
  conn : (connection : ℕ) → Port

abbrev pub is_unused : Port → Bool
is_unused unused = true
is_unused (listen l) = false
is_unused (multi ls) = false
is_unused (conn c) = false

-- `PORT_FIRST_EPH`
abbrev pub first_eph : ℕ
first_eph = 8192

-- How the loop ends: with a port and the hint behind it, or back at its start.
pub data Scan : Type 0 where
  found : (port hint : ℕ) → Scan
  exhausted : Scan
  out_of_fuel : Scan

-- `p_next`
unfoldable pub next_port : ℕ → ℕ
next_port p = if ltb (u16 (p + 1)) first_eph then first_eph else u16 (p + 1)

unfoldable pub scan_ports : ℕ → (ℕ → Port) → (start p : ℕ) → Scan
unfolding next_port
scan_ports zero ports start p = out_of_fuel
scan_ports (suc fuel) ports start p =
    let rest = scan_ports fuel ports start (next_port p) in
    if is_unused (ports p)
    then found p (next_port p)
    else if next_port p == start
    then exhausted
    else rest

-- port_alloc with `port_eph_hint`; the source returns 0 for `exhausted`.
unfoldable pub port_alloc : ℕ → (ℕ → Port) → ℕ → Scan
port_alloc fuel ports hint = scan_ports fuel ports hint hint

-- The hint that tcp_init takes from a random number.
unfoldable pub initial_hint : ℕ → ℕ
initial_hint random = random % (65535 - first_eph)

-- The ephemeral port `k` places behind `start`, going round.
abbrev pub eph_port : ℕ → ℕ → ℕ
eph_port start k = if ltb (start + k) 65536 then start + k else start + k - 57344

-- What port_alloc returns: the next free port, if there is any.
abbrev pub Allocated : (ℕ → Port) → ℕ → Scan → Type 0
Allocated ports hint (found p h) =
    (ports p ≡ unused) × (first_eph ≤ p) × (p < 65536) × (first_eph ≤ h) × (h < 65536) × (h ≢ p)
Allocated ports hint exhausted = (p : ℕ) → first_eph ≤ p → p < 65536 → is_unused (ports p) ≡ false
Allocated ports hint out_of_fuel = ⊥

module _ (ports : ℕ → Port) (hint : ℕ) (low : first_eph ≤ hint) (high : hint < 65536) where
  next-eph_port : (k : ℕ) → k < 57343 → next_port (eph_port hint k) ≡ eph_port hint (k + 1)
  unfolding next_port
  next-eph_port k h = ground arith

  next-last : next_port (eph_port hint 57343) ≡ hint
  unfolding next_port
  next-last = ground arith

  is_unused-eq : (p : Port) → is_unused p ≡ true → p ≡ unused
  is_unused-eq unused e = refl
  is_unused-eq (listen l) e = cc
  is_unused-eq (multi ls) e = cc
  is_unused-eq (conn c) e = cc

  all_seen :
      ((k : ℕ) → k < 57344 → is_unused (ports (eph_port hint k)) ≡ false)
      → (p : ℕ) → first_eph ≤ p
      → p < 65536
      → is_unused (ports p) ≡ false
  all_seen seen p l m =
      let k : ℕ = if leb hint p then p - hint else p + 57344 - hint in
      let there : eph_port hint (if leb hint p then p - hint else p + 57344 - hint) ≡ p =
        ground arith in
      rw there at (seen (if leb hint p then p - hint else p + 57344 - hint) (ground arith))

  seen_next :
      (k : ℕ)
      → ((j : ℕ) → j < k → is_unused (ports (eph_port hint j)) ≡ false)
      → is_unused (ports (eph_port hint k)) ≡ false
      → (j : ℕ) → j < k + 1
      → is_unused (ports (eph_port hint j)) ≡ false
  seen_next k seen used j m = elim (dec_lt j k) [
    | yes h ↦ seen j h
    | no h ↦ let e : j ≡ k = omega arith in rw e used
  ]

  scan-Allocated :
      (fuel k : ℕ)
      → k < 57344
      → 57344 ≤ k + fuel
      → ((j : ℕ) → j < k → is_unused (ports (eph_port hint j)) ≡ false)
      → Allocated ports hint (scan_ports fuel ports hint (eph_port hint k))
  unfolding scan_ports
  scan-Allocated zero k h l seen = absurd (omega arith)
  scan-Allocated (suc fuel) k h l seen = elim (Bool-cases (is_unused (ports (eph_port hint k)))) [
    | inl free ↦
        rw free (
          is_unused-eq _ free,
          ground arith,
          ground arith,
          ground arith,
          ground arith,
          ground arith,
        )
    | inr used ↦
        let upto = λ (j : ℕ) (m : j < k + 1). seen_next k seen used j m in
        elim (dec_lt k 57343) [
          | yes more ↦
              let e = next-eph_port k more in
              let go_on : (eph_port hint (k + 1) == hint) ≡ false = ground arith in
              rw (used, e, go_on) (scan-Allocated fuel (k + 1) (omega arith) (omega arith) upto)
          | no last ↦
              let there : k ≡ 57343 = omega arith in
              let e : next_port (eph_port hint k) ≡ hint = rw there next-last in
              let round : (hint == hint) ≡ true = ground arith in
              rw (used, e, round) (all_seen (λ j m. upto j (omega arith)))
        ]
  ]

  -- port_alloc with a hint among the ephemeral ports ends after at most 57344 passes. It returns an
  -- unused ephemeral port with a hint that is another ephemeral port, or finds that all of them are
  -- in use.
  pub port_alloc-Allocated :
      (fuel : ℕ) → 57344 ≤ fuel → Allocated ports hint (port_alloc fuel ports hint)
  unfolding port_alloc
  port_alloc-Allocated fuel h =
      let start : eph_port hint 0 ≡ hint = ground arith in
      rw start at
        (scan-Allocated fuel 0 (omega arith) (omega arith) (λ j m. absurd (omega (arith, m))))

-- A start below the ephemeral ports, which are all in use.
module _ (ports : ℕ → Port) (start : ℕ) (low : start < first_eph)
    (full : (p : ℕ) → first_eph ≤ p → p < 65536 → is_unused (ports p) ≡ false) where
  loops_above :
      (fuel p : ℕ) → first_eph ≤ p → p < 65536 → scan_ports fuel ports start p ≡ out_of_fuel
  unfolding scan_ports
  loops_above zero p h k = refl
  loops_above (suc fuel) p h k =
      let used = full p h k in
      let other : (next_port p == start) ≡ false = ground arith in
      rw (used, other) (loops_above fuel (next_port p) (ground arith) (ground arith))

  -- With a hint below the ephemeral ports, which tcp_init may choose, and all of these and the port of
  -- the hint in use, the loop of port_alloc never comes back to its start: no number of passes is
  -- enough.
  pub port_alloc_hangs :
      (fuel : ℕ) → is_unused (ports start) ≡ false → port_alloc fuel ports start ≡ out_of_fuel
  unfolding port_alloc scan_ports
  port_alloc_hangs zero used = refl
  port_alloc_hangs (suc fuel) used =
      let other : (next_port start == start) ≡ false = ground arith in
      rw (used, other) (loops_above fuel (next_port start) (ground arith) (ground arith))

-- ===== src/Tcp/Trim.antt =====
-- tcp_trim_rxbuf against the window: byte `i` of a packet fits if its sequence number lies within
-- `avail` of the next one expected, modulo 2^32.
use tas_smartnic.Prelude.{
  u16, true, add32, ◌-◌, false, leb, ◌&&◌, ◌≡◌, ltb, Bool, ℕ, ◌+◌, ◌^◌, ◌≤◌, ◌<◌, Option, none,
  some, arith, sub32,
}
use native.Mathlib.Decide.{dec_lt}
use tas_smartnic.Tcp.Window.{trim_interval, tcp_trim_rxbuf, Trimmed}

-- How far byte `i` of the packet lies beyond the next byte expected.
abbrev pub offset : ℕ → ℕ → ℕ → ℕ
offset next_seq pkt_seq i = sub32 (pkt_seq + i) next_seq

-- Everything in range: a window and a packet that are not so large that they meet round the
-- sequence space.
pub record InRange (next_seq avail pkt_seq pkt_bytes : ℕ) : Type 0 where
  pub next_small : next_seq < 2 ^ 32
  pub seq_small : pkt_seq < 2 ^ 32
  pub avail_small : avail < 2 ^ 31
  pub bytes_small : pkt_bytes < 2 ^ 16

-- Byte `i` of the packet is processed.
abbrev pub Retains : Option Trimmed → ℕ → ℕ → Type 0
Retains none pkt_bytes i = ⊥
Retains (some t) pkt_bytes i = (t.trim_start ≤ i) × (i + t.trim_end < pkt_bytes)

-- Whether a packet starts inside a window that does not reach 2^32, behind its first byte, and goes
-- past 2^32 itself.
abbrev pub straddles : ℕ → ℕ → ℕ → ℕ → Bool
straddles next_seq avail pkt_seq pkt_bytes =
    ltb (next_seq + avail) (2 ^ 32)
    && leb (2 ^ 32) (pkt_seq + pkt_bytes)
    && ltb next_seq pkt_seq
    && leb pkt_seq (next_seq + avail)

module _ (pa n sa av i : ℕ) (a : sa < 2 ^ 32) (b : pa < 2 ^ 32) (c : av < 2 ^ 31) (d : n < 2 ^ 16)
    (h : i < n) where
  only_whole :
      pa + n < 2 ^ 32
      → sa + av < 2 ^ 32
      → Retains (trim_interval pa (pa + n) sa (sa + av)) n i
      → offset sa pa i < av
  unfolding trim_interval
  only_whole p q k = ground arith

  only_window_wraps :
      pa + n < 2 ^ 32
      → 2 ^ 32 ≤ sa + av
      → Retains (trim_interval pa (pa + n) sa (sa + av - 2 ^ 32)) n i
      → offset sa pa i < av
  unfolding trim_interval
  only_window_wraps p q k = ground arith

  only_packet_wraps :
      2 ^ 32 ≤ pa + n
      → sa + av < 2 ^ 32
      → straddles sa av pa n ≡ false
      → Retains (trim_interval pa (pa + n - 2 ^ 32) sa (sa + av)) n i
      → offset sa pa i < av
  unfolding trim_interval
  only_packet_wraps p q e k = ground arith

  only_both_wrap :
      2 ^ 32 ≤ pa + n
      → 2 ^ 32 ≤ sa + av
      → Retains (trim_interval pa (pa + n - 2 ^ 32) sa (sa + av - 2 ^ 32)) n i
      → offset sa pa i < av
  unfolding trim_interval
  only_both_wrap p q k = ground arith

module _ {next_seq avail pkt_seq pkt_bytes : ℕ} (v : InRange next_seq avail pkt_seq pkt_bytes) where
  -- Completeness: no byte that fits is dropped or trimmed off.
  pub trim_keeps_fitting :
      (i : ℕ)
      → i < pkt_bytes
      → offset next_seq pkt_seq i < avail
      → Retains (tcp_trim_rxbuf next_seq avail pkt_seq pkt_bytes) pkt_bytes i
  unfolding tcp_trim_rxbuf trim_interval
  trim_keeps_fitting i h k = ground arith

  -- The interval ends, once it is known what wraps.
  at_ends :
      (pb sb i : ℕ)
      → add32 pkt_seq (u16 pkt_bytes) ≡ pb
      → add32 next_seq avail ≡ sb
      → Retains (tcp_trim_rxbuf next_seq avail pkt_seq pkt_bytes) pkt_bytes i
      → Retains (trim_interval pkt_seq pb next_seq sb) pkt_bytes i
  unfolding tcp_trim_rxbuf
  at_ends pb sb i p q k = rw (← p, ← q) k

  -- Soundness: every byte that is processed fits, unless the packet straddles the end of the
  -- sequence space in the way that `straddles` says.
  pub trim_only_fitting :
      (i : ℕ)
      → i < pkt_bytes
      → straddles next_seq avail pkt_seq pkt_bytes ≡ false
      → Retains (tcp_trim_rxbuf next_seq avail pkt_seq pkt_bytes) pkt_bytes i
      → offset next_seq pkt_seq i < avail
  trim_only_fitting i h e k = elim (dec_lt (pkt_seq + pkt_bytes) (2 ^ 32)) [
    | yes p ↦ elim (dec_lt (next_seq + avail) (2 ^ 32)) [
      | yes q ↦
          only_whole pkt_seq pkt_bytes next_seq avail i a b c d h p q
            (at_ends _ _ i (omega arith) (omega arith) k)
      | no q ↦
          only_window_wraps pkt_seq pkt_bytes next_seq avail i a b c d h p (omega arith)
            (at_ends _ _ i (omega arith) (omega arith) k)
    ]
    | no p ↦ elim (dec_lt (next_seq + avail) (2 ^ 32)) [
      | yes q ↦
          only_packet_wraps pkt_seq pkt_bytes next_seq avail i a b c d h (omega arith) q e
            (at_ends _ _ i (omega arith) (omega arith) k)
      | no q ↦
          only_both_wrap pkt_seq pkt_bytes next_seq avail i a b c d h (omega arith) (omega arith)
            (at_ends _ _ i (omega arith) (omega arith) k)
    ]
  ]
    where
      open v use {next_small as a, seq_small as b, avail_small as c, bytes_small as d}

  -- The straddling packets: such a packet is accepted untrimmed, and its last byte does not fit.
  pub trim_straddling :
      straddles next_seq avail pkt_seq pkt_bytes ≡ true
      → (tcp_trim_rxbuf next_seq avail pkt_seq pkt_bytes
          ≡ some (record { trim_start = 0; trim_end = 0 }))
        × (avail ≤ offset next_seq pkt_seq (pkt_bytes - 1))
        × (1 ≤ pkt_bytes)
  unfolding tcp_trim_rxbuf trim_interval
  trim_straddling e = ground arith

  -- The trims never take more than the packet has.
  pub trim_within :
      (t : Trimmed)
      → tcp_trim_rxbuf next_seq avail pkt_seq pkt_bytes ≡ some t
      → t.trim_start + t.trim_end ≤ pkt_bytes
  unfolding tcp_trim_rxbuf trim_interval
  trim_within t e = ground arith

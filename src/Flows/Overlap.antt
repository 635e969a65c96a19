-- ===== src/Flows/Overlap.antt =====
-- What tcp_trim_rxbuf leaves of the out-of-order interval once `n` bytes were delivered in order
-- (tas_nic/fast/fast_flows.c).
use tas_smartnic.Prelude.{
  ◌-◌, ltb, if◌then◌else◌, ◌≡◌, ◌+◌, ◌≤◌, ◌^◌, ◌<◌, add32, sub32, u16, some, none, ℕ, arith,
}
use native.Mathlib.Decide.{dec_lt}
use tas_smartnic.Tcp.Window.{tcp_trim_rxbuf, trim_interval}

-- The interval [start, pb) against the window [sa, sb), where `start` is `a` bytes and `sa` is `n`
-- bytes beyond the same number.
module _ (next avail start len n a pb sa sb : ℕ) (next_small : next < 2 ^ 32)
    (start_small : start < 2 ^ 32) (avail_small : avail < 2 ^ 31) (short : n < 2 ^ 16)
    (some_bytes : 0 < len) (h : n ≤ avail) (k : a + len ≤ avail) (pb_small : pb < 2 ^ 32)
    (sa_small : sa < 2 ^ 32) (sb_small : sb < 2 ^ 32) where
  abbrev Exact : Type 0
  Exact =
      trim_interval start pb sa sb
      ≡ (if ltb (a + len) n then none else some (record { trim_start = n - a; trim_end = 0 }))

  no_wrap : start ≡ next + a → pb ≡ start + len → sa ≡ next + n → sb ≡ next + avail → Exact
  unfolding trim_interval
  no_wrap e f g l = ground arith

  window_wraps :
      start ≡ next + a → pb ≡ start + len → sa ≡ next + n → sb + 2 ^ 32 ≡ next + avail → Exact
  unfolding trim_interval
  window_wraps e f g l = ground arith

  next_wraps :
      start ≡ next + a
      → pb ≡ start + len
      → sa + 2 ^ 32 ≡ next + n
      → sb + 2 ^ 32 ≡ next + avail
      → Exact
  unfolding trim_interval
  next_wraps e f g l = ground arith

  end_wraps :
      start ≡ next + a
      → pb + 2 ^ 32 ≡ start + len
      → sa ≡ next + n
      → sb + 2 ^ 32 ≡ next + avail
      → Exact
  unfolding trim_interval
  end_wraps e f g l = ground arith

  both_wrap :
      start ≡ next + a
      → pb + 2 ^ 32 ≡ start + len
      → sa + 2 ^ 32 ≡ next + n
      → sb + 2 ^ 32 ≡ next + avail
      → Exact
  unfolding trim_interval
  both_wrap e f g l = ground arith

  start_wraps :
      start + 2 ^ 32 ≡ next + a
      → pb ≡ start + len
      → sa ≡ next + n
      → sb + 2 ^ 32 ≡ next + avail
      → Exact
  unfolding trim_interval
  start_wraps e f g l = ground arith

  all_wrap :
      start + 2 ^ 32 ≡ next + a
      → pb ≡ start + len
      → sa + 2 ^ 32 ≡ next + n
      → sb + 2 ^ 32 ≡ next + avail
      → Exact
  unfolding trim_interval
  all_wrap e f g l = ground arith

  -- Whatever wraps round.
  by_wraps :
      start ≡ add32 next a
      → pb ≡ add32 start len
      → sa ≡ add32 next n
      → sb ≡ add32 next avail
      → Exact
  by_wraps e f g l = elim (dec_lt (next + avail) (2 ^ 32)) [
    | yes p ↦ no_wrap (omega arith) (omega arith) (omega arith) (omega arith)
    | no p ↦ elim (dec_lt (next + n) (2 ^ 32)) [
      | yes q ↦ elim (dec_lt (next + a + len) (2 ^ 32)) [
        | yes r ↦ window_wraps (omega arith) (omega arith) (omega arith) (omega arith)
        | no r ↦ elim (dec_lt (next + a) (2 ^ 32)) [
          | yes t ↦ end_wraps (omega arith) (omega arith) (omega arith) (omega arith)
          | no t ↦ start_wraps (omega arith) (omega arith) (omega arith) (omega arith)
        ]
      ]
      | no q ↦ elim (dec_lt (next + a + len) (2 ^ 32)) [
        | yes r ↦ next_wraps (omega arith) (omega arith) (omega arith) (omega arith)
        | no r ↦ elim (dec_lt (next + a) (2 ^ 32)) [
          | yes t ↦ both_wrap (omega arith) (omega arith) (omega arith) (omega arith)
          | no t ↦ all_wrap (omega arith) (omega arith) (omega arith) (omega arith)
        ]
      ]
    ]
  ]

-- The interval is dropped if it ends before the window, and else loses what lies before it.
pub trim_behind :
    (next avail start len n : ℕ)
    → next < 2 ^ 32
    → start < 2 ^ 32
    → avail < 2 ^ 31
    → n < 2 ^ 16
    → 0 < len
    → len < 2 ^ 16
    → n ≤ avail
    → sub32 start next + len ≤ avail
    → tcp_trim_rxbuf (add32 next n) (avail - n) start len ≡ (
        if ltb (sub32 start next + len) n
        then none
        else some (record { trim_start = n - sub32 start next; trim_end = 0 }))
unfolding tcp_trim_rxbuf
trim_behind next avail start len n a b c d e w f g =
    by_wraps next avail start len n (sub32 start next) (add32 start (u16 len)) (add32 next n)
      (add32 (add32 next n) (avail - n)) a b c d e f g (omega arith) (omega arith) (omega arith)
      (omega arith) (omega arith) (omega arith) (omega arith)

-- ===== src/Tcp/Scan.antt =====
-- When tcp_parse_options (tas_nic/fast/tcp_common.h) stops, and what it finds.
use tas_smartnic.Prelude.{
  leb_false→lt, false, ◌%◌, ◌-◌, ltb, ◌==◌, leb, Bool-cases, ◌^◌, ◌≡◌, ◌≢◌, ◌≤◌, Option, ◌<◌, ◌+◌,
  ℕ, zero, suc, none, some, arith, refl, inl, inr,
}
use tas_smartnic.Tcp.Options.{
  Parsed, parsed, malformed, out_of_fuel, Pass, stop, go, option_pass, scan_options,
}

-- The byte at `off` starts an option with a length byte.
pub record IsLong (opt : ℕ → ℕ) (opts_len off : ℕ) : Type 0 where
  pub before_end : off + 1 < opts_len
  pub no_end : opt off ≢ 0
  pub no_nop : opt off ≢ 1
  pub no_timestamp : opt off ≢ 8

-- The loop gets from the first offset to the second.
pub data Reaches (opt : ℕ → ℕ) (opts_len : ℕ) : ℕ → ℕ → Type 0 where
  here : (off : ℕ) → Reaches opt opts_len off off
  next :
      (off off' last : ℕ) (ts ts' : Option ℕ)
      → option_pass opt opts_len off ts ≡ go off' ts'
      → Reaches opt opts_len off' last
      → Reaches opt opts_len off last

-- No option that the loop reaches from `off` on claims a length of 0.
abbrev pub NoZeroLength : (ℕ → ℕ) → ℕ → ℕ → Type 0
NoZeroLength opt opts_len off =
    (last : ℕ) → Reaches opt opts_len off last → IsLong opt opts_len last → 0 < opt (last + 1)

-- The option at the position, if there is one, is a timestamp option with its full length.
abbrev pub IsTimestamp : (ℕ → ℕ) → Option ℕ → Type 0
IsTimestamp opt none = Unit {0}
IsTimestamp opt (some off) = (opt off ≡ 8) × (opt (off + 1) ≡ 10)

abbrev pub Finds : (ℕ → ℕ) → Parsed → Type 0
Finds opt (parsed ts) = IsTimestamp opt ts
Finds opt malformed = Unit {0}
Finds opt out_of_fuel = ⊥

module _ (opt : ℕ → ℕ) (opts_len : ℕ) (small : opts_len ≤ 40) where
  same_pass :
      (off : ℕ) (ts : Option ℕ)
      → IsLong opt opts_len off
      → opt (off + 1) ≡ 0
      → option_pass opt opts_len off ts ≡ go off ts
  unfolding option_pass
  same_pass off ts l e = ground (arith, l.before_end, l.no_end, l.no_nop, l.no_timestamp)

  -- An option of an unknown kind whose length byte is 0 keeps the loop at its place: no number of
  -- passes is enough.
  pub scan_zero_length_hangs :
      (fuel off : ℕ) (ts : Option ℕ)
      → IsLong opt opts_len off
      → opt (off + 1) ≡ 0
      → scan_options fuel opt opts_len off ts ≡ out_of_fuel
  unfolding scan_options
  scan_zero_length_hangs zero off ts l e = refl
  scan_zero_length_hangs (suc fuel) off ts l e =
      rw (scan_options, same_pass off ts l e) (scan_zero_length_hangs fuel off ts l e)

  -- What a pass achieves: it stops, or moves on with the timestamp option it has found.
  abbrev Progress : ℕ → Pass → Type 0
  Progress off (stop r) = Finds opt r
  Progress off (go off' ts) = (off < opts_len) × (off < off') × IsTimestamp opt ts

  module _ (bytes_small : (i : ℕ) → opt i < 2 ^ 8) where
    long :
        (off : ℕ)
        → leb opts_len off ≡ false
        → (opt off == 0) ≡ false
        → (opt off == 1) ≡ false
        → ltb ((opts_len - off) % 2 ^ 8) 2 ≡ false
        → (opt off == 8) ≡ false
        → IsLong opt opts_len off
    long off a b c d e = record {
      before_end = ground (arith, leb_false→lt _ _ a);
      no_end = ground arith;
      no_nop = ground arith;
      no_timestamp = ground arith;
    }

    option_pass-Progress :
        (off : ℕ) (ts : Option ℕ)
        → NoZeroLength opt opts_len off
        → IsTimestamp opt ts
        → Progress off (option_pass opt opts_len off ts)
    unfolding option_pass
    option_pass-Progress off ts no_zero h = elim (Bool-cases (leb opts_len off)) [
      | inl a ↦ rw a h
      | inr a ↦ elim (Bool-cases (opt off == 0)) [
        | inl b ↦ rw (a, b) h
        | inr b ↦ elim (Bool-cases (opt off == 1)) [
          | inl c ↦ rw (a, b, c) (leb_false→lt _ _ a, omega (arith, leb_false→lt _ _ a), h)
          | inr c ↦ elim (Bool-cases (ltb ((opts_len - off) % 2 ^ 8) 2)) [
            | inl d ↦ rw (a, b, c, d) tt
            | inr d ↦ elim (Bool-cases (opt off == 8)) [
              | inl e ↦ elim (Bool-cases (opt (off + 1) == 10)) [
                | inl f ↦
                    rw (a, b, c, d, e, f)
                      (
                        leb_false→lt _ _ a,
                        ground (arith, leb_false→lt _ _ a),
                        (ground arith, ground arith),
                      )
                | inr f ↦ rw (a, b, c, d, e, f) tt
              ]
              | inr e ↦
                  rw (a, b, c, d, e)
                    (
                      leb_false→lt _ _ a,
                      omega (
                        arith,
                        leb_false→lt _ _ a,
                        bytes_small (off + 1),
                        no_zero off (here off) (long off a b c d e),
                      ),
                      h,
                    )
            ]
          ]
        ]
      ]
    ]

    continued :
        (fuel off : ℕ) (pass : Pass)
        → Progress off pass
        → ((off' : ℕ) (ts : Option ℕ)
            → pass ≡ go off' ts
            → off < opts_len
            → off < off'
            → IsTimestamp opt ts
            → Finds opt (scan_options fuel opt opts_len off' ts))
        → Finds opt (elim pass [ stop r ↦ r | go off' ts ↦ scan_options fuel opt opts_len off' ts ])
    continued fuel off (stop r) p k = p
    continued fuel off (go off' ts) (a, b, c) k = k off' ts refl a b c

    -- If no option that the loop reaches claims a length of 0, as many passes as there are option bytes, and one more, are
    -- enough, and a position that is found holds a timestamp option of 10 bytes.
    pub scan-Finds :
        (fuel off : ℕ) (ts : Option ℕ)
        → opts_len < off + fuel
        → 0 < fuel
        → NoZeroLength opt opts_len off
        → IsTimestamp opt ts
        → Finds opt (scan_options fuel opt opts_len off ts)
    unfolding scan_options
    scan-Finds zero off ts h p clean t = absurd (omega (arith, p))
    scan-Finds (suc fuel) off ts h p clean t =
        continued fuel off (option_pass opt opts_len off ts) (option_pass-Progress off ts clean t)
          (λ off' ts' e a b c.
            scan-Finds fuel off' ts' (omega arith) (omega arith)
              (λ last r. clean last (next off off' last ts ts' e r)) c)

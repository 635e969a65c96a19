-- ===== src/Tcp/Tests.antt =====
-- Runs of the window checks, and their theorems at concrete packets.
use tas_smartnic.Prelude.{
  ◌==◌, ltb, if◌then◌else◌, ℕ, ◌+◌, ◌-◌, ◌^◌, ◌≤◌, ◌<◌, ◌≡◌, refl, none, some, arith,
}
use tas_smartnic.Tcp.Window.{trim_interval, tcp_trim_rxbuf, tcp_txavail}
use tas_smartnic.Tcp.Trim.{InRange, offset, trim_only_fitting, trim_within}
use tas_smartnic.Tcp.Options.{scan_options, option_pass, parsed, out_of_fuel}
use tas_smartnic.Tcp.Scan.{IsLong, NoZeroLength, Finds, scan-Finds, scan_zero_length_hangs}
use tas_smartnic.Tcp.Accept.{txavail_lem, txavail_overrun}

-- A window of 100 bytes at 1000, and a packet of 50 bytes that overlaps its start.
abbrev near : InRange 1000 100 980 50
near = record {
  next_small = omega arith;
  seq_small = omega arith;
  avail_small = omega arith;
  bytes_small = omega arith;
}

-- A window that ends 10 bytes before 2^32, and a packet of 100 bytes from 20 bytes before that.
abbrev far : InRange (2 ^ 32 - 200) 190 (2 ^ 32 - 30) 100
far = record {
  next_small = omega arith;
  seq_small = omega arith;
  avail_small = omega arith;
  bytes_small = omega arith;
}

trim_run : tcp_trim_rxbuf 1000 100 980 50 ≡ some (record { trim_start = 20; trim_end = 0 })
unfolding tcp_trim_rxbuf trim_interval
trim_run = refl

trim_only_fitting_example : offset 1000 980 30 < 100
unfolding tcp_trim_rxbuf trim_interval
trim_only_fitting_example = trim_only_fitting near 30 (omega arith) refl (omega arith)

trim_within_example : 20 + 0 ≤ 50
unfolding tcp_trim_rxbuf trim_interval
trim_within_example = trim_within near (record { trim_start = 20; trim_end = 0 }) refl

txavail_lem_example : tcp_txavail 50 40 10 none ≡ 30
txavail_lem_example = txavail_lem 50 40 10 (omega arith) (omega arith)

txavail_overrun_example : tcp_txavail 50 5 10 none ≡ 50
txavail_overrun_example = txavail_overrun 50 5 10 (omega arith) (omega arith) (omega arith)

-- NOP, NOP, timestamp; and an unknown option without a length.
abbrev timestamp_bytes : ℕ → ℕ
timestamp_bytes i = if ltb i 2 then 1 else if i == 2 then 8 else if i == 3 then 10 else 5

abbrev bad_bytes : ℕ → ℕ
bad_bytes i = if i == 0 then 253 else 0

scan_run : scan_options 13 timestamp_bytes 12 0 none ≡ parsed (some 2)
unfolding scan_options option_pass
scan_run = refl

timestamp_lengths : NoZeroLength timestamp_bytes 12 0
timestamp_lengths off r l = ground (arith, l.before_end, l.no_end, l.no_nop, l.no_timestamp)

scan-Finds_example : Finds timestamp_bytes (scan_options 13 timestamp_bytes 12 0 none)
scan-Finds_example =
    scan-Finds timestamp_bytes 12 (omega arith) (λ i. ground arith) 13 0 none (omega arith)
      (omega arith) timestamp_lengths tt

bad_bytes-IsLong : IsLong bad_bytes 4 0
bad_bytes-IsLong = record {
  before_end = omega arith;
  no_end = omega arith;
  no_nop = omega arith;
  no_timestamp = omega arith;
}

scan_zero_length_hangs_example : scan_options 1000 bad_bytes 4 0 none ≡ out_of_fuel
scan_zero_length_hangs_example =
    scan_zero_length_hangs bad_bytes 4 (omega arith) 1000 0 none bad_bytes-IsLong refl

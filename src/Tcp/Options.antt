-- ===== src/Tcp/Options.antt =====
-- tcp_parse_options of tas_nic/fast/tcp_common.h, and fast_flows_packet_parse of
-- tas_nic/fast/fast_flows.c, which calls it. `opt` are the bytes behind the TCP header. The loop runs
-- on fuel; `out_of_fuel` is a loop that goes on.
use tas_smartnic.Prelude.{
  ◌^◌, true, ◌%◌, false, sub64, ◌-◌, ◌||◌, ◌==◌, [], ltb, ◌*◌, leb, if◌then◌else◌, not, sub32, ◌+◌,
  List, Bool, u16, Option, ℕ, zero, suc, none, some, [], ◌∷◌, true, false, List,
}

-- The loop stops with the position of the timestamp option, if any, or with -1.
pub data Parsed : Type 0 where
  parsed : (ts : Option ℕ) → Parsed
  malformed : Parsed
  out_of_fuel : Parsed

-- The outcome of one pass of the loop.
pub data Pass : Type 0 where
  stop : Parsed → Pass
  go : (off : ℕ) → (ts : Option ℕ) → Pass

unfoldable pub option_pass : (ℕ → ℕ) → ℕ → ℕ → Option ℕ → Pass
option_pass opt opts_len off ts =
    let kind : ℕ = opt off in
    let opt_len : ℕ = opt (off + 1) in
    if leb opts_len off
    then stop (parsed ts)
    else if kind == 0
    then stop (parsed ts)
    else if kind == 1
    then go (u16 (off + 1)) ts
    else if ltb ((opts_len - off) % 2 ^ 8) 2
    then stop malformed
    else if kind == 8
    then if opt_len == 10 then go (u16 (off + opt_len)) (some off) else stop malformed
    else go (u16 (off + opt_len)) ts

unfoldable pub scan_options : ℕ → (ℕ → ℕ) → ℕ → ℕ → Option ℕ → Parsed
scan_options zero opt opts_len off ts = out_of_fuel
scan_options (suc fuel) opt opts_len off ts = elim (option_pass opt opts_len off ts) [
  | stop r ↦ r
  | go off' ts' ↦ scan_options fuel opt opts_len off' ts'
]

-- tcp_parse_options, for a packet of `len` bytes and a TCP header of `hdrlen` words.
unfoldable pub tcp_parse_options : ℕ → (ℕ → ℕ) → (hdrlen len : ℕ) → Parsed
tcp_parse_options fuel opt hdrlen len =
    let opts_len : ℕ = u16 (sub32 (hdrlen * 4) 20) in
    if ltb hdrlen 5 || ltb (sub64 len 54) opts_len
    then malformed
    else scan_options fuel opt opts_len 0 none

-- What fast_flows_packet_parse reads of a packet.
pub record Header : Type 0 where
  pub len : ℕ
  pub eth_is_ip : Bool
  pub proto_is_tcp : Bool
  pub ip_version : ℕ
  pub ip_hdrlen : ℕ
  pub ip_len : ℕ
  pub tcp_hdrlen : ℕ
  pub opt : ℕ → ℕ

-- Its `cond`, negated: whether the packet keeps its flow. The tests are joined by `|`, so the options
-- are always parsed. With `out_of_fuel` the source does not get this far.
unfoldable pub keeps_flow : Header → Parsed → Bool
keeps_flow p options = not (
    ltb p.len 54
    || not p.eth_is_ip
    || not p.proto_is_tcp
    || not (p.ip_version == 4)
    || not (p.ip_hdrlen == 5)
    || ltb p.tcp_hdrlen 5
    || ltb p.len (p.ip_len + 14)
    || elim options [
      | parsed (some off) ↦ false
      | parsed none ↦ true
      | malformed ↦ true
      | out_of_fuel ↦ true
    ])

-- fast_flows_packet_parse on the batch: each packet's flow, or NULL.
unfoldable pub fast_flows_packet_parse : ℕ → List (Option Header) → List (Option Header)
fast_flows_packet_parse fuel [] = []
fast_flows_packet_parse fuel (none ∷ ps) = none ∷ fast_flows_packet_parse fuel ps
fast_flows_packet_parse fuel (some p ∷ ps) =
    let options = tcp_parse_options fuel p.opt p.tcp_hdrlen p.len in
    (if keeps_flow p options then some p else none) ∷ fast_flows_packet_parse fuel ps

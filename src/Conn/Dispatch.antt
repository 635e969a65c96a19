-- ===== src/Conn/Dispatch.antt =====
-- tcp_packet and listener_lookup of tas_nic/slow/tcp.c: whom a packet is for.
use tas_smartnic.Prelude.{
  ◌/◌, zero, ◌==◌, ◌&&◌, ◌+◌, ◌%◌, not, ◌*◌, suc, ◌-◌, ltb, some, none, ◌^◌, if◌then◌else◌, Option,
  add64, ℕ, List, length, [], ◌∷◌,
}
use tas_smartnic.Conn.Ports.{Port, unused, listen, multi}
use tas_smartnic.Conn.Ports
use Prim.Native.Nat.{bit_xor}
use tas_smartnic.Conn.State.{State, Config, Packet, Raw}
use tas_smartnic.Conn.Table.{conn_lookup}
use tas_smartnic.Conn.Options.{ok, malformed, out_of_fuel, parse_options}
use tas_smartnic.Conn.Listener.{opts_ts_val}

-- hash_64_to_32, with its 64-bit wrap-around.
unfoldable pub hash_64_to_32 : ℕ → ℕ
hash_64_to_32 key0 =
    let key1 : ℕ = add64 (2 ^ 64 - 1 - key0) (key0 * 2 ^ 18 % 2 ^ 64) in
    let key2 : ℕ = bit_xor key1 (key1 / 2 ^ 31) in
    let key3 : ℕ = key2 * 21 % 2 ^ 64 in
    let key4 : ℕ = bit_xor key3 (key3 / 2 ^ 11) in
    let key5 : ℕ = add64 key4 (key4 * 2 ^ 6 % 2 ^ 64) in bit_xor key5 (key5 / 2 ^ 22) % 2 ^ 32

-- The element at an index of a list.
unfoldable pub get_elem? : List ℕ → ℕ → Option ℕ
get_elem? [] i = none
get_elem? (l ∷ ls) zero = some l
get_elem? (l ∷ ls) (suc i) = get_elem? ls i

-- listener_lookup
unfoldable pub listener_lookup : (ℕ → Port) → Raw → Option ℕ
listener_lookup ports p = elim (ports p.dest_port) [
  | unused ↦ none
  | listen l ↦ some l
  | multi ls ↦
      get_elem? ls
        (hash_64_to_32 (p.ip_src * 2 ^ 32 + p.src_port * 2 ^ 16 + p.dest_port) % length ls)
  | Ports.conn c ↦ none
]

-- Whom tcp_packet gives a packet to, with its timestamp; `dropped` is an answer of -1 without a reset.
pub data Target : Type 0 where
  to_conn : (id : ℕ) → Packet → Target
  to_listener : (id : ℕ) → Raw → (ts : Option ℕ) → Target
  reset : Raw → (ts : Option ℕ) → Target
  dropped : Target
  endless : Target

-- The packet as conn_packet reads it.
abbrev pub as_packet : Raw → Option ℕ → Packet
as_packet p ts = record {
  eth_src = p.eth_src;
  ip_src = p.ip_src;
  ip_dest = p.ip_dest;
  ip_len = p.ip_len;
  src_port = p.src_port;
  dest_port = p.dest_port;
  seqno = p.seqno;
  ackno = p.ackno;
  flags = p.flags;
  ts_val = opts_ts_val p ts;
}

module _ (config : Config) (hash : (l_ip r_ip l_po r_po : ℕ) → ℕ) (fuel : ℕ) where
  -- The part of tcp_packet behind parse_options.
  unfoldable pub deliver : State → Raw → Option ℕ → Target
  deliver s p ts = elim (conn_lookup hash s (as_packet p ts)) [
    | some id ↦ to_conn id (as_packet p ts)
    | none ↦ elim (listener_lookup s.ports p) [
      | some l ↦ to_listener l p ts
      | none ↦ if not p.flags.rst && not config.kni then reset p ts else dropped
    ]
  ]

  -- tcp_packet, up to the call of conn_packet, listener_packet or send_reset.
  unfoldable pub tcp_packet : State → (len : ℕ) → Raw → Target
  unfolding deliver
  tcp_packet s len p =
      if ltb len 54
      then dropped
      else if not (p.ip_dest == config.ip)
      then dropped
      else elim (parse_options fuel p.opt p.hdrlen len) [
        | malformed ↦ dropped
        | out_of_fuel ↦ endless
        | ok opts ↦ deliver s p opts.ts
      ]

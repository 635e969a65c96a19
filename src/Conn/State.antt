-- ===== src/Conn/State.antt =====
-- The state that a connection's handlers in tas_nic/slow/tcp.c work on: the connection at hand
-- (struct connection of tas_nic/slow/internal.h), the port table and the hash table, and the calls of
-- other parts. The chains of the hash table are lists; a connection is named by its address. The
-- queues and memory handles of a connection are handed on only, and so left out.
use tas_smartnic.Prelude.{
  [], false, ◌∷◌, true, ◌==◌, ◌++◌, if◌then◌else◌, none, some, List, Option, Bool, ℕ,
}
use tas_smartnic.Conn.Ports.{Port}

-- enum connection_status
pub data Status : Type 0 where
  syn_wait arp_pending syn_sent reg_synack conn_open conn_closed conn_failed : Status

-- struct connection. `live` says whether its memory is allocated, `ecn` is NICIF_CONN_ECN of `flags`,
-- and `comp_status` is `comp.status`, here whether it is 0.
pub record Conn : Type 0 where
  pub id : ℕ
  pub live : Bool
  pub opaque : ℕ
  pub db_id : ℕ
  pub remote_mac : ℕ
  pub remote_ip : ℕ
  pub local_ip : ℕ
  pub remote_port : ℕ
  pub local_port : ℕ
  pub status : Status
  pub remote_seq : ℕ
  pub local_seq : ℕ
  pub syn_ts : ℕ
  pub timeout : ℕ
  pub to_attempts : ℕ
  pub to_armed : Bool
  pub cnt_tx_pending : ℕ
  pub comp_ok : Bool
  pub flow_id : ℕ
  pub fn_core : ℕ
  pub ecn : Bool
  pub flow_group : ℕ

-- An entry of the hash table: the connection, and the fields that conn_lookup reads.
pub record Entry : Type 0 where
  pub conn : ℕ
  pub remote_ip : ℕ
  pub local_port : ℕ
  pub remote_port : ℕ

-- The TCP flags that the code reads or sends; `rest` is any other flag.
pub record Flags : Type 0 where
  pub fin : Bool
  pub syn : Bool
  pub rst : Bool
  pub ack : Bool
  pub ece : Bool
  pub cwr : Bool
  pub rest : Bool

-- enum timeout_type, as far as tcp.c knows it.
pub data TimeoutType : Type 0 where
  handshake closed other : TimeoutType

-- Calls of other parts, in the order of the code. `send_control` has the flags, the sequence and
-- acknowledgement numbers, the timestamp to echo, if the option is sent, and the MSS option or 0.
pub data Call : Type 0 where
  send_control : Flags → (local_seq remote_seq : ℕ) → (ts_echo : Option ℕ) → (mss : ℕ) → Call
  timeout_arm : (us : ℕ) → TimeoutType → Call
  timeout_disarm : Call
  cc_conn_init : Call
  cc_conn_remove : Call
  connection_add : (remote_seq local_seq : ℕ) → Call
  connection_free : (flow_id : ℕ) → Call
  appif_conn_opened : (ok : Bool) → Call
  appif_accept_conn : Call
  appif_conn_closed : Call
  packetmem_free : Call
  nbqueue_enq : Call
  send_rst_ack :
      (remote_ip remote_port local_port local_seq remote_seq : ℕ) → (ts_echo : Option ℕ) → Call
  appif_listen_newconn : (remote_ip remote_port : ℕ) → Call

pub record State : Type 0 where
  pub conn : Conn
  pub ports : ℕ → Port
  pub eph_hint : ℕ
  pub hashtable : ℕ → List Entry
  pub calls : List Call

-- A handler: `none` is an abort or a failed assertion.
abbrev pub M : Type 0 → Type 0
M A = State → Option (A × State)

abbrev pub pure : {A : Type 0} → A → M A
pure a s = some (a, s)

abbrev pub abort : {A : Type 0} → M A
abort s = none

infixl 5 ◌>>=◌ ◌>>◌
abbrev pub ◌>>=◌ : {A B : Type 0} → M A → (A → M B) → M B
◌>>=◌ m f s = elim (m s) [ none ↦ none | some (a, t) ↦ f a t ]

abbrev pub ◌>>◌ : {B : Type 0} → M (Unit {0}) → M B → M B
m >> k = m >>= λ _. k

abbrev pub the_conn : M Conn
the_conn s = some (s.conn, s)

abbrev pub set_conn : Conn → M (Unit {0})
set_conn c s = some (tt, record s { conn = c })

abbrev pub call : Call → M (Unit {0})
call c s = some (tt, record s { calls = s.calls ++ c ∷ [] })

-- What the handlers read of `config`; `kni` says whether kni_name is set.
pub record Config : Type 0 where
  pub ip : ℕ
  pub tcp_handshake_to : ℕ
  pub tcp_handshake_retries : ℕ
  pub kni : Bool

-- A TCP packet, with the value of its timestamp option, if it has one.
pub record Packet : Type 0 where
  pub eth_src : ℕ
  pub ip_src : ℕ
  pub ip_dest : ℕ
  pub ip_len : ℕ
  pub src_port : ℕ
  pub dest_port : ℕ
  pub seqno : ℕ
  pub ackno : ℕ
  pub flags : Flags
  pub ts_val : Option ℕ

-- A TCP packet as it is received: the header's length in words, and the bytes behind the header.
pub record Raw : Type 0 where
  pub eth_src : ℕ
  pub ip_src : ℕ
  pub ip_dest : ℕ
  pub ip_len : ℕ
  pub src_port : ℕ
  pub dest_port : ℕ
  pub seqno : ℕ
  pub ackno : ℕ
  pub flags : Flags
  pub hdrlen : ℕ
  pub opt : ℕ → ℕ

abbrev pub no_flags : Flags
no_flags = record {
  fin = false;
  syn = false;
  rst = false;
  ack = false;
  ece = false;
  cwr = false;
  rest = false;
}

abbrev pub assert : Bool → M (Unit {0})
assert true s = some (tt, s)
assert false s = none

abbrev pub update : {A : Type 0} → (ℕ → A) → ℕ → A → ℕ → A
update f k a i = if i == k then a else f i

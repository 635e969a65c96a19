-- ===== src/Conn/Invariant.antt =====
-- The invariant of a connection of tas_nic/slow/tcp.c: its timer and its place in the hash table by its
-- status, and that every handler ends and keeps it.
use tas_smartnic.Prelude.{
  inr, inl, Bool-cases, ◌+◌, ◌-◌, ℕ, zero, suc, ◌*◌, ◌≤◌, ◌==◌, ◌≡◌, Bool, true, false, ◌||◌, List,
  [], ◌∷◌, Option, some, arith, refl,
}
use tas_smartnic.Timeout.Clock.{middle}
use tas_smartnic.Conn.State.{
  Status, syn_wait, arp_pending, syn_sent, reg_synack, conn_open, conn_closed, conn_failed, Conn,
  State, Config, Entry,
}
use tas_smartnic.Conn.Table.{unlink, bucket}
use tas_smartnic.Conn.Handlers.{}

-- The timeout `x` after `k` further retries.
unfoldable pub doubled : ℕ → ℕ → ℕ
doubled zero x = x
doubled (suc k) x = doubled k (x * 2)

-- Whether the chain holds the connection.
unfoldable pub has : ℕ → List Entry → Bool
has id [] = false
has id (e ∷ es) = e.conn == id || has id es

module _ (config : Config) where
  -- The timeouts of all retries are in the range of the timeout manager.
  abbrev pub TimeoutsFit : Type 0
  TimeoutsFit =
      (1 ≤ config.tcp_handshake_to)
      × (doubled config.tcp_handshake_retries config.tcp_handshake_to * 2 ≤ middle)

  -- The timer is armed while a SYN is answered or a closed connection lingers, and only then.
  abbrev pub TimerOk : Status → Conn → Type 0
  TimerOk syn_sent c =
      (c.to_armed ≡ true)
      × (1 ≤ c.timeout)
      × (c.to_attempts ≤ config.tcp_handshake_retries)
      × (doubled (config.tcp_handshake_retries - c.to_attempts) c.timeout
          ≤ doubled config.tcp_handshake_retries config.tcp_handshake_to)
  TimerOk conn_closed c = c.to_armed ≡ true
  TimerOk syn_wait c = c.to_armed ≡ false
  TimerOk arp_pending c = c.to_armed ≡ false
  TimerOk reg_synack c = c.to_armed ≡ false
  TimerOk conn_open c = c.to_armed ≡ false
  TimerOk conn_failed c = c.to_armed ≡ false

module _ (hash : (l_ip r_ip l_po r_po : ℕ) → ℕ) where
  abbrev pub InTable : State → Type 0
  InTable s = has s.conn.id (s.hashtable (bucket hash s.conn)) ≡ true

  -- Where the connection has to be in its chain.
  abbrev pub TableOk : Status → State → Type 0
  TableOk arp_pending s = InTable s
  TableOk syn_sent s = InTable s
  TableOk reg_synack s = InTable s
  TableOk conn_open s = InTable s
  TableOk conn_closed s = InTable s
  TableOk syn_wait s = Unit
  TableOk conn_failed s = Unit

  -- The invariant of a connection, until its memory is freed.
  abbrev pub Inv : Config → State → Type 0
  Inv config s = s.conn.live ≡ true → TimerOk config s.conn.status s.conn × TableOk s.conn.status s

-- The handler ends without an abort, in a state with the property.
pub data Returns {A : Type 0} (P : State → Type 0) : Option (A × State) → Type 0 where
  returns : {a : A} {t : State} → P t → Returns P (some (a, t))

pub le-doubled : (k x : ℕ) → x ≤ doubled k x
unfolding doubled
le-doubled zero x = omega arith
le-doubled (suc k) x = let h = le-doubled k (x * 2) in omega arith

pub next-doubled : (r a x : ℕ) → a + 1 ≤ r → doubled (r - (a + 1)) (x * 2) ≡ doubled (r - a) x
unfolding doubled
next-doubled r a x h = let e : r - a ≡ suc (r - (a + 1)) = omega arith in rw e refl

pub unlink-has :
    (id : ℕ) (es : List Entry) → has id es ≡ true → (es' : List Entry) × (unlink id es ≡ some es')
unfolding unlink has
unlink-has id [] h = cc
unlink-has id (e ∷ es) h = elim (Bool-cases (e.conn == id)) [
  | inl same ↦ (es, rw same refl)
  | inr differs ↦
      let (es', u) = unlink-has id es (rw differs at h) in (e ∷ es', rw (differs, u) refl)
]

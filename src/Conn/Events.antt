-- ===== src/Conn/Events.antt =====
-- What happens to a connection of tas_nic/slow/tcp.c in the order it happens: an event calls a handler,
-- and a run is a sequence of events from the state that tcp_open or listener_accept leaves.
use tas_smartnic.Prelude.{refl, subst, false, ℕ, ◌≡◌, Bool, true, Option, none, some}
use tas_smartnic.Conn.State.{
  Status, syn_wait, arp_pending, syn_sent, reg_synack, conn_open, conn_closed, conn_failed, Conn,
  TimeoutType, handshake, closed, State, Config, Packet,
}
use tas_smartnic.Conn.Handlers.{
  completed, conn_packet, tcp_timeout, tcp_close, tcp_destroy, tcp_poll_conn,
}
use tas_smartnic.Conn.Invariant.{Inv, Returns, returns, TimeoutsFit}
use tas_smartnic.Conn.Keeps.{
  fail-Inv, arp_done-Inv, retry-Inv, close_timeout-Inv, destroyed-Inv, synack-Inv, close-Inv,
  packet-Inv,
}

pub data Event : Type 0 where
  polled : (random : ℕ) → Event
  packet : Packet → (fn_core flow_group : ℕ) → (add_ok : Bool) → (flow_id : ℕ) → Event
  timed_out : TimeoutType → (random : ℕ) → Event
  app_closed : Option (ℕ × ℕ × Bool) → Event
  destroyed : Event

-- The type of the timeout that a connection with a status has armed.
pub data Armed : Status → TimeoutType → Type 0 where
  retries : Armed syn_sent handshake
  lingers : Armed conn_closed closed

-- When an event can happen: the timeout manager reports what was armed, and the application's part
-- of the slow path destroys a connection that failed.
abbrev pub CanHappen : Event → Conn → Type 0
CanHappen (timed_out type random) c = Armed c.status type
CanHappen destroyed c = c.status ≡ conn_failed
CanHappen (polled random) c = Unit
CanHappen (packet p fn_core flow_group add_ok flow_id) c = Unit
CanHappen (app_closed seqs) c = Unit

-- The state that a handler leaves.
abbrev state_of : {A : Type 0} → Option (A × State) → Option State
state_of none = none
state_of (some (a, s)) = some s

module _ (config : Config) (hash : (l_ip r_ip l_po r_po : ℕ) → ℕ) where
  -- The handler of an event, and the state it leaves.
  unfoldable pub handle : Event → State → Option State
  handle (polled random) s = state_of (tcp_poll_conn config hash random s)
  handle (packet p fn_core flow_group add_ok flow_id) s =
      state_of (conn_packet config hash p fn_core flow_group add_ok flow_id s)
  handle (timed_out type random) s = state_of (tcp_timeout config hash type random s)
  handle (app_closed seqs) s = state_of (tcp_close config hash seqs s)
  handle destroyed s = state_of (tcp_destroy config hash s)

  -- A live connection's run from one state to another: the events that can happen where they do.
  pub data History : State → State → Type 0 where
    done : {s : State} → History s s
    next :
        {s t u : State} (e : Event)
        → s.conn.live ≡ true
        → CanHappen e s.conn
        → handle e s ≡ some t
        → History t u
        → History s u

  state_of-Returns :
      {A : Type 0} {P : State → Type 0} (r : Option (A × State))
      → Returns P r
      → (t : State) × (state_of r ≡ some t) × P t
  state_of-Returns none r = elim r [ ]
  state_of-Returns (some (a, t)) (returns p) = (t, refl, p)

  poll-Inv :
      TimeoutsFit config
      → (status : Status) (s : State) (ok : Bool) (random : ℕ) → s.conn.status ≡ status
      → Inv hash config s
      → s.conn.live ≡ true
      → Returns (Inv hash config) (completed config hash status ok random s)
  unfolding completed
  poll-Inv fit arp_pending s true random here inv live =
      let (idle, t) = rw here at (inv live) in arp_done-Inv config hash fit s random t idle
  poll-Inv fit arp_pending s false random here inv live =
      let (idle, t) = rw here at (inv live) in fail-Inv config hash s t
  poll-Inv fit reg_synack s true random here inv live =
      let (idle, t) = rw here at (inv live) in synack-Inv config hash s t idle
  poll-Inv fit reg_synack s false random here inv live =
      let (idle, t) = rw here at (inv live) in fail-Inv config hash s t
  poll-Inv fit syn_wait s ok random here inv live = returns inv
  poll-Inv fit syn_sent s ok random here inv live = returns inv
  poll-Inv fit conn_open s ok random here inv live = returns inv
  poll-Inv fit conn_closed s ok random here inv live = returns inv
  poll-Inv fit conn_failed s ok random here inv live = returns inv

  timeout-Inv :
      TimeoutsFit config
      → {status : Status} {type : TimeoutType} → Armed status type
      → (s : State) (random : ℕ) → s.conn.status ≡ status
      → Inv hash config s
      → s.conn.live ≡ true
      → Returns (Inv hash config) (tcp_timeout config hash type random s)
  unfolding tcp_timeout
  timeout-Inv fit retries s random here inv live =
      let ((on, pos, few, bound), t) = rw here at (inv live) in
      let u : State = record s { conn = record s.conn { to_armed = false; status = syn_sent } } in
      rw (on, here) (retry-Inv config hash fit u random t refl refl pos few bound)
  timeout-Inv fit lingers s random here inv live =
      let (on, t) = rw here at (inv live) in
      rw on
        (close_timeout-Inv config hash (record s { conn = record s.conn { to_armed = false } }) t)

  close-Inv_any :
      (status : Status) (s : State) (seqs : Option (ℕ × ℕ × Bool))
      → s.conn.status ≡ status
      → Inv hash config s
      → s.conn.live ≡ true
      → Returns (Inv hash config) (tcp_close config hash seqs s)
  unfolding tcp_close
  close-Inv_any conn_open s seqs here inv live =
      let (idle, t) = rw here at (inv live) in close-Inv config hash s seqs t idle here
  close-Inv_any syn_wait s seqs here inv live =
      let kept = rw here at (inv live) in rw here (returns (λ l. kept))
  close-Inv_any arp_pending s seqs here inv live =
      let kept = rw here at (inv live) in rw here (returns (λ l. kept))
  close-Inv_any syn_sent s seqs here inv live =
      let kept = rw here at (inv live) in rw here (returns (λ l. kept))
  close-Inv_any reg_synack s seqs here inv live =
      let kept = rw here at (inv live) in rw here (returns (λ l. kept))
  close-Inv_any conn_closed s seqs here inv live =
      let kept = rw here at (inv live) in rw here (returns (λ l. kept))
  close-Inv_any conn_failed s seqs here inv live =
      let kept = rw here at (inv live) in rw here (returns (λ l. kept))

  event-Inv :
      TimeoutsFit config
      → (e : Event) (s : State) → Inv hash config s
      → s.conn.live ≡ true
      → CanHappen e s.conn
      → (t : State) × (handle e s ≡ some t) × Inv hash config t
  unfolding handle tcp_poll_conn conn_packet
  event-Inv fit (polled random) s inv live can =
      state_of-Returns _ (poll-Inv fit s.conn.status s s.conn.comp_ok random refl inv live)
  event-Inv fit (packet p fn_core flow_group add_ok flow_id) s inv live can =
      state_of-Returns _
        (packet-Inv config hash s.conn.status s p fn_core flow_group add_ok flow_id refl inv live)
  event-Inv fit (timed_out type random) s inv live can =
      state_of-Returns _ (timeout-Inv fit can s random refl inv live)
  event-Inv fit (app_closed seqs) s inv live can =
      state_of-Returns _ (close-Inv_any s.conn.status s seqs refl inv live)
  event-Inv fit destroyed s inv live can = state_of-Returns _ (destroyed-Inv config hash s can)

  pub run-Inv :
      TimeoutsFit config → (s t : State) → History s t → Inv hash config s → Inv hash config t
  run-Inv fit s t done inv = inv
  run-Inv fit s t (next {t = v} e live can step rest) inv =
      let (u, step', kept) = event-Inv fit e s inv live can in
      let same : u ≡ v = cc in run-Inv fit v t rest (subst (Inv hash config) same kept)

  -- From a state in the invariant, with timeouts that fit the timeout manager, every event that can
  -- happen to a live connection after any run is handled to its end, without an abort or a failed
  -- assertion, and leaves the invariant: the timer is armed exactly while a SYN is answered or a
  -- closed connection lingers, and the connection is in its chain of the hash table in every status
  -- but those of a waiting accept and a failed connection.
  pub run-handled :
      (s t : State) (e : Event)
      → TimeoutsFit config
      → Inv hash config s
      → History s t
      → t.conn.live ≡ true
      → CanHappen e t.conn
      → (u : State) × (handle e t ≡ some u) × Inv hash config u
  run-handled s t e fit inv run live can = event-Inv fit e t (run-Inv fit s t run inv) live can

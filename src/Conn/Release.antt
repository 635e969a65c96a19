-- ===== src/Conn/Release.antt =====
-- What becomes of a connection's port in tas_nic/slow/tcp.c when the connection ends.
use tas_smartnic.Prelude.{inr, inl, Bool-cases, ==-same, ℕ, false, Option, none, some, refl, ◌≡◌}
use tas_smartnic.Conn.Ports.{Port, unused}
use tas_smartnic.Conn.Ports
use tas_smartnic.Conn.State.{◌>>=◌, State, Config, ◌>>◌}
use tas_smartnic.Conn.Table.{conn_unregister}
use tas_smartnic.Conn.Handlers.{
  fail, tcp_destroy, conn_close_timeout, free_port, conn_free, conn_timeout_disarm,
}
use tas_smartnic.Conn.Invariant.{InTable, unlink-has}

-- The connection's memory is freed, and its port is in this state.
abbrev pub FreedWith : Port → {A : Type 0} → Option (A × State) → Type 0
FreedWith port none = ⊥
FreedWith port (some (a, t)) = (t.conn.live ≡ false) × (t.ports t.conn.local_port ≡ port)

module _ (config : Config) (hash : (l_ip r_ip l_po r_po : ℕ) → ℕ) where
  -- The end of a closed connection gives its port back. A connection that fails and is then destroyed
  -- keeps its port: the table still has the freed connection there, and port_alloc never hands the
  -- port out again.
  pub port_leak :
      (s : State)
      → InTable hash s
      → s.ports s.conn.local_port ≡ Ports.conn s.conn.id
      → FreedWith unused (conn_close_timeout config hash s)
        × FreedWith (Ports.conn s.conn.id) ((fail config hash >> tcp_destroy config hash) s)
  unfolding conn_close_timeout free_port fail tcp_destroy conn_free conn_timeout_disarm
  port_leak s t own =
      let (es, u) = unlink-has s.conn.id _ t in
      (
        rw (conn_unregister, ◌>>=◌, u, own)
            (refl, rw (==-same s.conn.local_port, own, ==-same s.conn.local_port) refl),
        elim (Bool-cases s.conn.to_armed) [
          | inl armed ↦ rw (conn_unregister, ◌>>=◌, u, armed) (refl, own)
          | inr idle ↦ rw (conn_unregister, ◌>>=◌, u, idle) (refl, own)
        ],
      )

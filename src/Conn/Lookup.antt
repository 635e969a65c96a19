-- ===== src/Conn/Lookup.antt =====
-- conn_register, conn_unregister and conn_lookup of tas_nic/slow/tcp.c together.
use tas_smartnic.Prelude.{==-same, ◌%◌, ◌∷◌, arith, List, some, ◌≡◌, ℕ, refl}
use tas_smartnic.Conn.State.{update, Conn, Entry, State, Packet}
use tas_smartnic.Conn.Table.{
  unlink, find_entry, bucket, entry, conn_register, conn_unregister, conn_lookup,
}

-- The packet's addresses are the connection's, seen from the other side.
abbrev pub Addressed : Packet → Conn → Type 0
Addressed p c =
    (p.ip_src ≡ c.remote_ip)
    × (p.ip_dest ≡ c.local_ip)
    × (p.src_port ≡ c.remote_port)
    × (p.dest_port ≡ c.local_port)

module _ (hash : (l_ip r_ip l_po r_po : ℕ) → ℕ) where
  -- The state behind conn_register.
  abbrev pub registered : State → State
  registered s = record s {
    hashtable =
        update s.hashtable (bucket hash s.conn)
          (entry hash s.conn ∷ s.hashtable (bucket hash s.conn));
  }

  -- The first entry of a packet's chain is the one found, if its addresses are the packet's.
  find-first :
      (p : Packet) (c : Conn) (es : List Entry)
      → Addressed p c
      → find_entry p (entry hash c ∷ es) ≡ some c.id
  unfolding find_entry
  find-first p c es (src, dest, sport, dport) =
      rw (src, sport, dport, ==-same c.remote_ip, ==-same c.local_port, ==-same c.remote_port) refl

  -- A packet with the addresses of a connection just registered is found to be its; to unregister the
  -- connection again brings back the hash table there was.
  pub register-lookup :
      (s : State) (p : Packet)
      → Addressed p s.conn
      → (conn_register hash s ≡ some (tt, registered s))
        × (conn_lookup hash (registered s) p ≡ some s.conn.id)
        × ((t : State) × (conn_unregister hash (registered s) ≡ some (tt, t))
            × ((h : ℕ) → t.hashtable h ≡ s.hashtable h))
  unfolding conn_register conn_lookup conn_unregister unlink
  register-lookup s p (src, dest, sport, dport) = (
    refl,
    (let there : hash p.ip_dest p.ip_src p.dest_port p.src_port % 4096 ≡ bucket hash s.conn =
          rw (src, dest, sport, dport) refl in
        rw (there, ==-same (bucket hash s.conn)) (find-first p s.conn _ (src, dest, sport, dport))),
    (
      record (registered s) {
        hashtable =
            update (registered s).hashtable (bucket hash s.conn) (s.hashtable (bucket hash s.conn));
      },
      rw (conn_unregister, ==-same (bucket hash s.conn), unlink, ==-same s.conn.id) refl,
      λ h. ground arith,
    ),
  )

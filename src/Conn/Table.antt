-- ===== src/Conn/Table.antt =====
-- The hash table of connections in tas_nic/slow/tcp.c. `hash` is conn_hash, over rte_hash_crc.
use tas_smartnic.Prelude.{[], ◌&&◌, ◌==◌, if◌then◌else◌, Option, ◌∷◌, ◌%◌, List, ℕ, some, none}
use tas_smartnic.Conn.State.{Conn, Entry, State, M, update, Packet}

-- The chain without the connection; `none` if it is not in the chain.
unfoldable pub unlink : ℕ → List Entry → Option (List Entry)
unlink id [] = none
unlink id (e ∷ es) =
    let later : Option (List Entry) = elim (unlink id es) [
      | none ↦ none
      | some es' ↦ some (e ∷ es')
    ] in
    if e.conn == id then some es else later

-- The first entry of the chain for a packet's addresses.
unfoldable pub find_entry : Packet → List Entry → Option ℕ
find_entry p [] = none
find_entry p (e ∷ es) =
    let later = find_entry p es in
    if p.ip_src == e.remote_ip && p.dest_port == e.local_port && p.src_port == e.remote_port
    then some e.conn
    else later

module _ (hash : (l_ip r_ip l_po r_po : ℕ) → ℕ) where
  abbrev pub bucket : Conn → ℕ
  bucket c = hash c.local_ip c.remote_ip c.local_port c.remote_port % 4096

  abbrev pub entry : Conn → Entry
  entry c = record {
    conn = c.id;
    remote_ip = c.remote_ip;
    local_port = c.local_port;
    remote_port = c.remote_port;
  }

  -- conn_register
  unfoldable pub conn_register : M (Unit {0})
  conn_register s = some (
    tt,
    record s {
      hashtable = update s.hashtable (bucket s.conn) (entry s.conn ∷ s.hashtable (bucket s.conn));
    },
  )

  -- conn_unregister
  unfoldable pub conn_unregister : M (Unit {0})
  conn_unregister s = elim (unlink s.conn.id (s.hashtable (bucket s.conn))) [
    | none ↦ none
    | some es ↦ some (tt, record s { hashtable = update s.hashtable (bucket s.conn) es })
  ]

  -- conn_lookup
  unfoldable pub conn_lookup : State → Packet → Option ℕ
  conn_lookup s p =
      find_entry p (s.hashtable (hash p.ip_dest p.ip_src p.dest_port p.src_port % 4096))

-- ===== src/Conn/Dispatching.antt =====
-- Which connection, listener or reset tcp_packet of tas_nic/slow/tcp.c finds.
use tas_smartnic.Prelude.{
  ◌%◌, ◌+◌, ◌^◌, ◌*◌, length-append, subst, inr, inl, Bool-cases, none, ◌≢◌, zero, Option, suc,
  ==-same, ◌==◌, true, ◌||◌, some, false, ℕ, Bool, List, length, ◌++◌, arith, refl, ◌≡◌, ◌<◌, ◌≤◌,
  [], ◌∷◌,
}
use tas_smartnic.Conn.Ports.{Port, unused, listen, multi}
use tas_smartnic.Conn.Ports
use native.Mathlib.Nat.{mod-lt}
use tas_smartnic.Conn.State.{update, State, Raw}
use tas_smartnic.Conn.Opening.{tcp_listen}
use tas_smartnic.Conn.Dispatch.{hash_64_to_32, listener_lookup, get_elem?}

-- The listeners of a port.
abbrev pub listeners : Port → List ℕ
listeners unused = []
listeners (listen l) = l ∷ []
listeners (multi ls) = ls
listeners (Ports.conn c) = []

-- A port of several listeners has at least one, and 32 at most.
abbrev pub PortsOk : (ℕ → Port) → Type 0
PortsOk ports = (p : ℕ) (ls : List ℕ) → ports p ≡ multi ls → (1 ≤ length ls) × (length ls ≤ 32)

unfoldable pub is_among : ℕ → List ℕ → Bool
is_among l [] = false
is_among l (k ∷ ks) = k == l || is_among l ks

or-true : (b : Bool) → (b || true) ≡ true
or-true true = refl
or-true false = refl

get_elem?-some :
    (ls : List ℕ) (i : ℕ)
    → i < length ls
    → (l : ℕ) × (get_elem? ls i ≡ some l) × (is_among l ls ≡ true)
unfolding get_elem? is_among
get_elem?-some [] i h = absurd (omega arith)
get_elem?-some (l ∷ ls) zero h = (l, refl, rw (==-same l) refl)
get_elem?-some (l ∷ ls) (suc i) h =
    let (k, e, among) = get_elem?-some ls i (omega arith) in (k, e, rw among (or-true (l == k)))

is_among-append : (l : ℕ) (ls : List ℕ) → is_among l (ls ++ l ∷ []) ≡ true
unfolding is_among
is_among-append l [] = rw (==-same l) refl
is_among-append l (k ∷ ks) = rw (is_among-append l ks) (or-true (k == l))

listens-found :
    (port : Port) (ports : ℕ → Port) (p : Raw)
    → PortsOk ports
    → ports p.dest_port ≡ port
    → 1 ≤ length (listeners port)
    → (l : ℕ) × (listener_lookup ports p ≡ some l) × (is_among l (listeners port) ≡ true)
unfolding listener_lookup is_among
listens-found unused ports p fine e h = absurd (omega arith)
listens-found (listen l) ports p fine e h = (l, rw (listener_lookup, e) refl, rw (==-same l) refl)
listens-found (multi ls) ports p fine e h =
    let (l, there, among) =
      get_elem?-some ls
        (hash_64_to_32 (p.ip_src * 2 ^ 32 + p.src_port * 2 ^ 16 + p.dest_port) % length ls)
        (mod-lt _ h) in
    (l, rw (listener_lookup, e) there, among)
listens-found (Ports.conn c) ports p fine e h = absurd (omega arith)

-- What tcp_listen leaves, with the listener `id`: every packet for the port finds one of the port's
-- listeners, the new one is among them, and other ports are as they were; where it fails, nothing
-- changes.
abbrev pub Listens : State → ℕ → ℕ → Option (Bool × State) → Type 0
Listens s port id none = ⊥
Listens s port id (some (true, t)) =
    PortsOk t.ports
    × (is_among id (listeners (t.ports port)) ≡ true)
    × ((p : Raw)
        → p.dest_port ≡ port
        → (l : ℕ) × (listener_lookup t.ports p ≡ some l)
          × (is_among l (listeners (t.ports port)) ≡ true))
    × ((q : ℕ) → q ≢ port → t.ports q ≡ s.ports q)
Listens s port id (some (false, t)) = t ≡ s

-- Where tcp_listen puts a port for the listener.
new_port-Listens :
    (s : State) (port id : ℕ) (new : Port)
    → PortsOk s.ports
    → ((ls : List ℕ) → new ≡ multi ls → (1 ≤ length ls) × (length ls ≤ 32))
    → is_among id (listeners new) ≡ true
    → 1 ≤ length (listeners new)
    → Listens s port id (some (true, record s { ports = update s.ports port new }))
new_port-Listens s port id new fine bound among size =
    let there : update s.ports port new port ≡ new = rw (==-same port) refl in
    let fine' : PortsOk (update s.ports port new) = λ p ls e. elim (Bool-cases (p == port)) [
      | inl same ↦ bound ls (rw same at e)
      | inr apart ↦ fine p ls (rw apart at e)
    ] in
    (
      fine',
      rw there among,
      (λ p e. rw there (listens-found new (update s.ports port new) p fine' (rw e there) size)),
      (λ q apart. ground arith),
    )

multi_bound :
    (ls ks : List ℕ)
    → multi ls ≡ multi ks
    → 1 ≤ length ls
    → length ls ≤ 32
    → (1 ≤ length ks) × (length ks ≤ 32)
multi_bound ls ks e low high =
    let same : ls ≡ ks = cc in subst (λ x. (1 ≤ length x) × (length x ≤ 32)) same (low, high)

listen-single :
    (port : Port) (s : State) (p : ℕ) (alloc_ok : Bool) (id : ℕ)
    → s.ports p ≡ port
    → PortsOk s.ports
    → Listens s p id (tcp_listen p false alloc_ok id s)
unfolding tcp_listen is_among
listen-single unused s p true id e fine = rw e (
    new_port-Listens s p id (listen id) fine (λ ls f. absurd cc) (rw (==-same id) refl)
      (omega arith))
listen-single unused s p false id e fine = rw e refl
listen-single (listen l) s p alloc_ok id e fine = rw e refl
listen-single (multi ls) s p alloc_ok id e fine = rw e refl
listen-single (Ports.conn c) s p alloc_ok id e fine = rw e refl

listen-multi :
    (port : Port) (s : State) (p : ℕ) (alloc_ok : Bool) (id : ℕ)
    → s.ports p ≡ port
    → PortsOk s.ports
    → Listens s p id (tcp_listen p true alloc_ok id s)
unfolding tcp_listen is_among
listen-multi unused s p true id e fine = rw e (
    new_port-Listens s p id (multi (id ∷ [])) fine
      (λ ls f. multi_bound (id ∷ []) ls f (omega arith) (omega arith)) (rw (==-same id) refl)
      (omega arith))
listen-multi unused s p false id e fine = rw e refl
listen-multi (listen l) s p alloc_ok id e fine = rw e refl
listen-multi (multi ls) s p false id e fine = rw (e, or-true (length ls == 32)) refl
listen-multi (multi ls) s p true id e fine = elim (Bool-cases (length ls == 32)) [
  | inl full ↦ rw (e, full) refl
  | inr room ↦
      let bound = fine p ls e in
      let size = length-append ls (id ∷ []) in
      rw (e, room)
        (new_port-Listens s p id (multi (ls ++ id ∷ [])) fine
          (λ ks f. multi_bound (ls ++ id ∷ []) ks f (omega arith) (ground arith))
          (is_among-append id ls) (omega arith))
]
listen-multi (Ports.conn c) s p alloc_ok id e fine = rw e refl

-- tcp_listen keeps the port table such that a port of several listeners has between 1 and 32. Where it
-- succeeds, every packet for the port finds one of the port's listeners, the new one is among them,
-- and other ports are as they were; where it fails, it changes nothing.
pub tcp_listen-Listens :
    (s : State) (p : ℕ) (reuseport alloc_ok : Bool) (id : ℕ)
    → PortsOk s.ports
    → Listens s p id (tcp_listen p reuseport alloc_ok id s)
tcp_listen-Listens s p false alloc_ok id fine = listen-single (s.ports p) s p alloc_ok id refl fine
tcp_listen-Listens s p true alloc_ok id fine = listen-multi (s.ports p) s p alloc_ok id refl fine

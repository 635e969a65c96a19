-- ===== src/Conn/Backlog.antt =====
-- The ring of SYNs of a listener of tas_nic/slow/tcp.c is a queue: listener_packet adds at its end, and
-- listener_accept takes from its front.
use tas_smartnic.Prelude.{
  none, ltb, u16, some, Option, leb_false→lt, inr, inl, Bool-cases, true, ◌==◌, ◌||◌, leb, ◌∷◌,
  add32, false, [], if◌then◌else◌, ℕ, zero, suc, Bool, ◌%◌, ◌-◌, ◌+◌, List, length, ◌++◌, arith,
  refl, ◌≡◌, ◌<◌, ◌≤◌, ◌^◌,
}
use tas_smartnic.Conn.State.{State, Config, Raw, update}
use tas_smartnic.Conn.Listener.{
  Slot, Listener, same_tuple, is_waiting, free_slot, slot_done, is_syn, listener_packet, store,
  send_reset,
}
use native.Mathlib.Nat.{mod_self, mod-eq_of_lt}

-- The index after `x` of a ring.
abbrev pub wrap : ℕ → ℕ → ℕ
wrap len x = if leb len x then x - len else x

-- The `n` slots of a ring from `bp` on.
unfoldable pub ring : (ℕ → Slot) → (len n bp : ℕ) → List Slot
ring slots len zero bp = []
ring slots len (suc n) bp = slots bp ∷ ring slots len n (wrap len (bp + 1))

-- The queue of SYNs of a listener, the oldest first.
abbrev pub contents : Listener → List Slot
contents l = ring l.slots l.backlog_len l.backlog_used l.backlog_pos

-- A listener's ring with room for a SYN at least.
abbrev pub IsRing : Listener → Type 0
IsRing l =
    (l.backlog_pos < l.backlog_len) × (l.backlog_used ≤ l.backlog_len) × (l.backlog_len < 2 ^ 31)

unfoldable pub any_same : Raw → List Slot → Bool
any_same p [] = false
any_same p (slot ∷ q) = same_tuple p slot.pkt || any_same p q

-- What a queue of at most `cap` SYNs does with another one.
abbrev pub offer : ℕ → Slot → List Slot → List Slot
offer cap slot q = if any_same slot.pkt q then q else if cap == length q then q else q ++ slot ∷ []

ring-length : (slots : ℕ → Slot) (len n bp : ℕ) → length (ring slots len n bp) ≡ n
unfolding ring
ring-length slots len zero bp = refl
ring-length slots len (suc n) bp = rw (ring-length slots len n (wrap len (bp + 1))) (omega arith)

next-wrap : (bp len : ℕ) → bp < len → len < 2 ^ 31 → add32 bp 1 % len ≡ wrap len (bp + 1)
next-wrap bp len b l =
    let whole : add32 bp 1 ≡ bp + 1 = ground arith in
    elim (Bool-cases (leb len (bp + 1))) [
      | inl ends ↦
          let here : bp + 1 ≡ len = ground arith in
          let start : len - len ≡ 0 = omega arith in rw (whole, ends, here, start) (mod_self len)
      | inr more ↦ rw (whole, more) (mod-eq_of_lt (leb_false→lt _ _ more))
    ]

ring-head :
    (slots : ℕ → Slot) (len n m bp q : ℕ)
    → n ≡ suc m
    → q ≡ wrap len (bp + 1)
    → ring slots len n bp ≡ slots bp ∷ ring slots len m q
unfolding ring
ring-head slots len n m bp q e f = rw (e, f) refl

is_waiting-any_same :
    (p : Raw) (slots : ℕ → Slot) (len n bp : ℕ)
    → bp < len
    → len < 2 ^ 31
    → is_waiting p slots len n bp ≡ any_same p (ring slots len n bp)
unfolding is_waiting any_same ring
is_waiting-any_same p slots len zero bp b l = refl
is_waiting-any_same p slots len (suc n) bp b l =
    rw
      (next-wrap bp len b l, is_waiting-any_same p slots len n (wrap len (bp + 1)) (ground arith) l)
      refl

ring-snoc :
    (slots : ℕ → Slot) (x : Slot) (len n bp k : ℕ)
    → bp < len
    → n < len
    → k ≡ wrap len (bp + n)
    → ring (update slots k x) len (suc n) bp ≡ ring slots len n bp ++ x ∷ []
unfolding ring
ring-snoc slots x len zero bp k b m e = let here : (bp == k) ≡ true = ground arith in rw here refl
ring-snoc slots x len (suc n) bp k b m e =
    let apart : (bp == k) ≡ false = ground arith in
    let same : k ≡ wrap len (wrap len (bp + 1) + n) = ground arith in
    rw (apart, ring-snoc slots x len n (wrap len (bp + 1)) k (ground arith) (omega arith) same) refl

module _ (config : Config) (hash : (l_ip r_ip l_po r_po : ℕ) → ℕ) (fuel : ℕ) where
  abbrev stored : Listener → Slot → Listener
  stored l slot = store config hash fuel l slot

  contents-store :
      (l : Listener) (slot : Slot)
      → IsRing l
      → l.backlog_used < l.backlog_len
      → contents (stored l slot) ≡ contents l ++ slot ∷ []
  contents-store l slot (pos, used, small) room =
      let k : free_slot l ≡ wrap l.backlog_len (l.backlog_pos + l.backlog_used) = ground arith in
      let e : l.backlog_used + 1 ≡ suc l.backlog_used = omega arith in
      rw e
        (ring-snoc l.slots slot l.backlog_len l.backlog_used l.backlog_pos (free_slot l) pos room k)

  pub contents-slot_done :
      (l : Listener)
      → IsRing l
      → 0 < l.backlog_used
      → (IsRing (slot_done l)) × (contents l ≡ l.slots l.backlog_pos ∷ contents (slot_done l))
  unfolding slot_done
  contents-slot_done l (pos, used, small) some_used =
      let e : l.backlog_used ≡ suc (l.backlog_used - 1) = omega arith in
      let next : add32 l.backlog_pos 1 ≡ l.backlog_pos + 1 = ground arith in
      (
        (ground arith, ground arith, small),
        ring-head l.slots l.backlog_len _ _ l.backlog_pos _ e (ground arith),
      )

  -- What listener_packet leaves of the listener's queue, where no accept waits.
  abbrev pub Queued : Listener → Slot → Option (Listener × State) → Type 0
  Queued l slot none = ⊥
  Queued l slot (some (l', s')) =
      (IsRing l')
      × (l'.wait_conns ≡ [])
      × (contents l' ≡ (
          if is_syn slot.pkt.flags
          then if leb slot.len 126 then offer l.backlog_len slot (contents l) else contents l
          else contents l))

  -- With no accept waiting, listener_packet does with the ring what a bounded queue does: it adds a SYN
  -- of at most 126 bytes at the end, unless one with the same addresses and ports waits already or
  -- the queue is full, and leaves the queue as it is for any other packet.
  pub listener_packet-Queued :
      (l : Listener) (p : Raw) (ts : Option ℕ) (fn_core flow_group : ℕ) (add_ok : Bool)
      (flow_id : ℕ) (s : State)
      → IsRing l
      → l.wait_conns ≡ []
      → Queued l
          (record { pkt = p; len = u16 (14 + p.ip_len); core = fn_core; fg = flow_group })
          (listener_packet config hash fuel l p ts fn_core flow_group add_ok flow_id s)
  unfolding listener_packet send_reset
  listener_packet-Queued l p ts fn_core flow_group add_ok flow_id s (pos, used, small) idle =
      let slot : Slot = record {
        pkt = p;
        len = u16 (14 + p.ip_len);
        core = fn_core;
        fg = flow_group;
      } in
      let same =
        is_waiting-any_same p l.slots l.backlog_len l.backlog_used l.backlog_pos pos small in
      let count = ring-length l.slots l.backlog_len l.backlog_used l.backlog_pos in
      elim (Bool-cases (is_syn p.flags)) [
        | inr other ↦ rw (other, other) ((pos, used, small), idle, refl)
        | inl syn ↦ elim (Bool-cases (ltb 126 (u16 (14 + p.ip_len)))) [
          | inl long ↦
              let e : leb (u16 (14 + p.ip_len)) 126 ≡ false = ground arith in
              rw (syn, long, syn, e) ((pos, used, small), idle, refl)
          | inr short ↦
              let e : leb (u16 (14 + p.ip_len)) 126 ≡ true = ground arith in
              elim (Bool-cases (any_same p (contents l))) [
                | inl twice ↦
                    rw (syn, short, same, twice, syn, e, twice) ((pos, used, small), idle, refl)
                | inr new ↦ elim (Bool-cases (l.backlog_len == l.backlog_used)) [
                  | inl full ↦
                      rw (syn, short, same, new, full, syn, e, new, count, full)
                        ((pos, used, small), idle, refl)
                  | inr room ↦
                      rw (syn, short, same, new, room, idle, syn, e, new, count, room)
                        (
                          (pos, ground arith, small),
                          idle,
                          contents-store l slot (pos, used, small) (ground arith),
                        )
                ]
              ]
        ]
      ]

-- ===== src/Resolve/Waiting.antt =====
-- The connections that wait for an address in tas_nic/slow/arp.c: none is forgotten and none is told
-- twice, and an answer is kept.
use tas_smartnic.Prelude.{
  ==-same, ◌&&◌, length, ◌*◌, u32, ◌≤◌, leb, ltb, Option-cases, ◌<◌, inr, inl, ◌==◌, Bool-cases,
  if◌then◌else◌, ℕ, refl, Bool, true, false, List, [], ◌∷◌, ◌++◌, Option, none, some, ◌≡◌, ◌+◌,
  arith,
}
use tas_smartnic.Timeout.Clock.{middle}
use tas_smartnic.Conn.Opening.{Resolved, failed, pending, now}
use tas_smartnic.Resolve.Arp.{
  ArpEntry, Call, State, Config, find, change, remove, for_ip, is_entry, notify, arp_request,
  arp_replied, arp_timeout, completed, request_tx, response_tx, timeout_arm, timeout_disarm,
}

-- How often a completion is in a list.
unfoldable pub count : ℕ → List ℕ → ℕ
count comp [] = 0
count comp (c ∷ cs) = let rest = count comp cs in if c == comp then rest + 1 else rest

-- How often it waits at an entry of the table.
unfoldable pub waiting : ℕ → List ArpEntry → ℕ
waiting comp [] = 0
waiting comp (e ∷ es) = count comp e.compl + waiting comp es

-- How often it was queued.
unfoldable pub told : ℕ → List Call → ℕ
told comp [] = 0
told comp (request_tx ip ∷ cs) = told comp cs
told comp (response_tx mac ip ∷ cs) = told comp cs
told comp (timeout_arm entry us ∷ cs) = told comp cs
told comp (timeout_disarm entry ∷ cs) = told comp cs
told comp (completed c mac ∷ cs) = let rest = told comp cs in if c == comp then rest + 1 else rest

-- How often it was queued with this address.
unfoldable pub answered : (comp mac : ℕ) → List Call → ℕ
answered comp mac [] = 0
answered comp mac (request_tx ip ∷ cs) = answered comp mac cs
answered comp mac (response_tx m ip ∷ cs) = answered comp mac cs
answered comp mac (timeout_arm entry us ∷ cs) = answered comp mac cs
answered comp mac (timeout_disarm entry ∷ cs) = answered comp mac cs
answered comp mac (completed c none ∷ cs) = answered comp mac cs
answered comp mac (completed c (some m) ∷ cs) =
    let rest = answered comp mac cs in if c == comp && m == mac then rest + 1 else rest

-- The times a completion waits or was queued.
abbrev pub in_care : ℕ → State → ℕ
in_care comp s = waiting comp s.arp_table + told comp s.calls

told-append : (comp : ℕ) (cs ds : List Call) → told comp (cs ++ ds) ≡ told comp cs + told comp ds
unfolding told
told-append comp [] ds = omega arith
told-append comp (request_tx ip ∷ cs) ds = told-append comp cs ds
told-append comp (response_tx mac ip ∷ cs) ds = told-append comp cs ds
told-append comp (timeout_arm entry us ∷ cs) ds = told-append comp cs ds
told-append comp (timeout_disarm entry ∷ cs) ds = told-append comp cs ds
told-append comp (completed c mac ∷ cs) ds = let h = told-append comp cs ds in ground arith

told-notify : (comp : ℕ) (mac : Option ℕ) (cs : List ℕ) → told comp (notify mac cs) ≡ count comp cs
unfolding told notify count
told-notify comp mac [] = refl
told-notify comp mac (c ∷ cs) = rw (told-notify comp mac cs) refl

answered-append :
    (comp mac : ℕ) (cs ds : List Call)
    → answered comp mac (cs ++ ds) ≡ answered comp mac cs + answered comp mac ds
unfolding answered
answered-append comp mac [] ds = omega arith
answered-append comp mac (request_tx ip ∷ cs) ds = answered-append comp mac cs ds
answered-append comp mac (response_tx m ip ∷ cs) ds = answered-append comp mac cs ds
answered-append comp mac (timeout_arm entry us ∷ cs) ds = answered-append comp mac cs ds
answered-append comp mac (timeout_disarm entry ∷ cs) ds = answered-append comp mac cs ds
answered-append comp mac (completed c none ∷ cs) ds = answered-append comp mac cs ds
answered-append comp mac (completed c (some m) ∷ cs) ds =
    let h = answered-append comp mac cs ds in ground arith

answered-notify :
    (comp mac : ℕ) (cs : List ℕ) → answered comp mac (notify (some mac) cs) ≡ count comp cs
unfolding answered notify count
answered-notify comp mac [] = refl
answered-notify comp mac (c ∷ cs) =
    let h = answered-notify comp mac cs in
    let same : (mac == mac) ≡ true = ==-same mac in ground arith

-- Changing the entry that a lookup finds moves its waiting connections only.
waiting-change :
    (comp : ℕ) (test : ArpEntry → Bool) (f : ArpEntry → ArpEntry) (e : ArpEntry)
    (es : List ArpEntry)
    → find test es ≡ some e
    → waiting comp (change test f es) + count comp e.compl
      ≡ waiting comp es + count comp (f e).compl
unfolding waiting find change
waiting-change comp test f e [] h = cc
waiting-change comp test f e (d ∷ es) h = elim (Bool-cases (test d)) [
  | inl here ↦ let same : d ≡ e = cc in rw (here, same) (omega arith)
  | inr later ↦
      let rest = waiting-change comp test f e es (rw later at h) in rw later (omega (arith, rest))
]

waiting-remove :
    (comp : ℕ) (test : ArpEntry → Bool) (e : ArpEntry) (es : List ArpEntry)
    → find test es ≡ some e
    → waiting comp (remove test es) + count comp e.compl ≡ waiting comp es
unfolding waiting find remove
waiting-remove comp test e [] h = cc
waiting-remove comp test e (d ∷ es) h = elim (Bool-cases (test d)) [
  | inl here ↦ let same : d ≡ e = cc in rw (here, same) (omega arith)
  | inr later ↦
      let rest = waiting-remove comp test e es (rw later at h) in rw later (omega (arith, rest))
]

find-change :
    (ip : ℕ) (f : ArpEntry → ArpEntry) (e : ArpEntry) (es : List ArpEntry)
    → ((d : ArpEntry) → (f d).ip ≡ d.ip)
    → find (for_ip ip) es ≡ some e
    → find (for_ip ip) (change (for_ip ip) f es) ≡ some (f e)
unfolding find change
find-change ip f e [] keeps h = cc
find-change ip f e (d ∷ es) keeps h = elim (Bool-cases (d.ip == ip)) [
  | inl here ↦
      let same : d ≡ e = cc in
      let still : ((f d).ip == ip) ≡ true = rw (keeps d) here in rw (here, still, same) refl
  | inr later ↦ rw (later, later) (find-change ip f e es keeps (rw later at h))
]

change-length :
    (test : ArpEntry → Bool) (f : ArpEntry → ArpEntry) (es : List ArpEntry)
    → length (change test f es) ≡ length es
unfolding change
change-length test f [] = refl
change-length test f (e ∷ es) = elim (Bool-cases (test e)) [
  | inl here ↦ rw here refl
  | inr later ↦ rw (later, change-length test f es) refl
]

module _ (config : Config) where
  -- What arp_request does for the waiting completions.
  abbrev pub Asks : (comp : ℕ) → State → Option (Resolved × State) → Type 0
  Asks comp s none = ⊥
  Asks comp s (some (now mac, t)) = t ≡ s
  Asks comp s (some (failed, t)) = t ≡ s
  Asks comp s (some (pending, t)) =
      (other : ℕ) → in_care other t ≡ in_care other s + count other (comp ∷ [])

  -- With a first timeout that fits the timeout manager arp_request ends. An address that is known changes
  -- nothing, nor does a failure; with the answer that it is pending the completion waits once more, and
  -- the others as often as before.
  pub arp_request-Asks :
      (comp ip : ℕ) (malloc : Option ℕ) (s : State)
      → config.arp_to < middle
      → Asks comp s (arp_request config comp ip malloc s)
  unfolding arp_request waiting told count
  arp_request-Asks comp ip malloc s fits = elim (Option-cases (find (for_ip ip) s.arp_table)) [
    | inr (ae, e) ↦ elim (Bool-cases ae.is_pending) [
      | inr known ↦ rw (arp_request, e, known) refl
      | inl waits ↦
          rw (arp_request, e, waits)
            (λ other.
              let moved =
                waiting-change other (for_ip ip) (λ e. record e { compl = comp ∷ e.compl }) ae
                  s.arp_table e in
              ground arith)
    ]
    | inl unknown ↦ elim (Option-cases malloc) [
      | inl full ↦ rw (arp_request, unknown, full) refl
      | inr (id, m) ↦
          let short : ltb config.arp_to middle ≡ true = ground arith in
          rw (arp_request, unknown, m, short)
            (λ other.
              let said =
                told-append other s.calls (request_tx ip ∷ timeout_arm id config.arp_to ∷ []) in
              ground arith)
    ]
  ]

  replied_care :
      (comp spa sha : ℕ) (s : State) (ae : ArpEntry)
      → find (for_ip spa) s.arp_table ≡ some ae
      → in_care comp (arp_replied config spa sha s) ≡ in_care comp s
  unfolding arp_replied told count
  replied_care comp spa sha s ae e =
      let moved =
        waiting-change comp (for_ip spa)
          (λ d. record d { mac = sha; is_pending = false; compl = [] }) ae s.arp_table e in
      let all = told-notify comp (some sha) ae.compl in
      elim (Bool-cases ae.is_pending) [
        | inl waits ↦
            rw (arp_replied, e, waits)
              (let said = told-append comp s.calls (timeout_disarm ae.id ∷ []) in
                let more =
                  told-append comp (s.calls ++ timeout_disarm ae.id ∷ [])
                    (notify (some sha) ae.compl) in
                omega (arith, moved, all, said, more))
        | inr known ↦
            rw (arp_replied, e, known)
              (let more = told-append comp s.calls (notify (some sha) ae.compl) in
                omega (arith, moved, all, more))
      ]

  replied_answers :
      (comp spa sha : ℕ) (s : State) (ae : ArpEntry)
      → find (for_ip spa) s.arp_table ≡ some ae
      → answered comp sha (arp_replied config spa sha s).calls
        ≡ answered comp sha s.calls + count comp ae.compl
  unfolding arp_replied answered
  replied_answers comp spa sha s ae e =
      let all = answered-notify comp sha ae.compl in
      elim (Bool-cases ae.is_pending) [
        | inl waits ↦
            rw (arp_replied, e, waits)
              (let said = answered-append comp sha s.calls (timeout_disarm ae.id ∷ []) in
                let more =
                  answered-append comp sha (s.calls ++ timeout_disarm ae.id ∷ [])
                    (notify (some sha) ae.compl) in
                omega (arith, all, said, more))
        | inr known ↦
            rw (arp_replied, e, known)
              (let more = answered-append comp sha s.calls (notify (some sha) ae.compl) in
                omega (arith, all, more))
      ]

  replied_waiting :
      (comp spa sha : ℕ) (s : State) (ae : ArpEntry)
      → find (for_ip spa) s.arp_table ≡ some ae
      → waiting comp (arp_replied config spa sha s).arp_table + count comp ae.compl
        ≡ waiting comp s.arp_table
  unfolding arp_replied count
  replied_waiting comp spa sha s ae e =
      let moved =
        waiting-change comp (for_ip spa)
          (λ d. record d { mac = sha; is_pending = false; compl = [] }) ae s.arp_table e in
      rw (arp_replied, e) (omega (arith, moved))

  known_now :
      (comp ip : ℕ) (malloc : Option ℕ) (t : State) (e : ArpEntry)
      → find (for_ip ip) t.arp_table ≡ some e
      → e.is_pending ≡ false
      → arp_request config comp ip malloc t ≡ some (now e.mac, t)
  unfolding arp_request
  known_now comp ip malloc t e found ready = rw (arp_request, found, ready) refl

  -- A reply for an entry of the table: every completion that waited there is queued with the address of
  -- the reply, once for each time it waited, and waits there no more; completions at other entries wait
  -- as before, and none is queued otherwise. From then on every request for the address is answered
  -- with it at once.
  pub arp_replied_lem :
      (spa sha : ℕ) (s : State) (ae : ArpEntry)
      → find (for_ip spa) s.arp_table ≡ some ae
      → ((comp : ℕ)
          → (answered comp sha (arp_replied config spa sha s).calls
              ≡ answered comp sha s.calls + count comp ae.compl)
            × (waiting comp (arp_replied config spa sha s).arp_table + count comp ae.compl
                ≡ waiting comp s.arp_table)
            × (in_care comp (arp_replied config spa sha s) ≡ in_care comp s))
        × ((comp : ℕ) (malloc : Option ℕ)
            → arp_request config comp spa malloc (arp_replied config spa sha s)
              ≡ some (now sha, arp_replied config spa sha s))
  unfolding arp_replied arp_request
  arp_replied_lem spa sha s ae e = (
    (λ comp. (
      replied_answers comp spa sha s ae e,
      replied_waiting comp spa sha s ae e,
      replied_care comp spa sha s ae e,
    )),
    (λ comp malloc.
        known_now comp spa malloc (arp_replied config spa sha s)
          (record ae { mac = sha; is_pending = false; compl = [] })
          (rw (arp_replied, e)
            (find-change spa (λ d. record d { mac = sha; is_pending = false; compl = [] }) ae
              s.arp_table (λ d. refl) e))
          refl),
  )

  -- What arp_timeout leaves: the entry asks again or is gone, and no completion is forgotten.
  abbrev pub Tells : ArpEntry → State → Option State → Type 0
  Tells ae s none = ⊥
  Tells ae s (some t) =
      ((comp : ℕ) → in_care comp t ≡ in_care comp s)
      × (if leb config.arp_to_max (u32 (ae.timeout * 2))
          then t.arp_table ≡ remove (is_entry ae.id) s.arp_table
          else (length t.arp_table ≡ length s.arp_table))

  -- The timeout of an entry that waits is handled to its end, where the longest timeout fits the timeout
  -- manager: the entry is removed once twice its timeout reaches the limit, and kept otherwise; either
  -- way every completion of the table still waits or is queued, as often as before.
  pub arp_timeout-Tells :
      (s : State) (ae : ArpEntry)
      → find (is_entry ae.id) s.arp_table ≡ some ae
      → ae.is_pending ≡ true
      → config.arp_to_max ≤ middle
      → Tells ae s (arp_timeout config ae.id s)
  unfolding arp_timeout told
  arp_timeout-Tells s ae e waits fits =
      elim (Bool-cases (leb config.arp_to_max (u32 (ae.timeout * 2)))) [
        | inl over ↦
            rw (arp_timeout, e, waits, over, over)
              (
                (λ comp.
                    let moved = waiting-remove comp (is_entry ae.id) ae s.arp_table e in
                    let said = told-append comp s.calls (notify none ae.compl) in
                    let all = told-notify comp none ae.compl in omega (arith, moved, said, all)),
                refl,
              )
        | inr more ↦
            let short : ltb (u32 (ae.timeout * 2)) middle ≡ true = ground arith in
            rw (arp_timeout, e, waits, more, short, more)
              (
                (λ comp.
                    let moved =
                      waiting-change comp (is_entry ae.id)
                        (λ d. record d { timeout = u32 (ae.timeout * 2) }) ae s.arp_table e in
                    let said =
                      told-append comp s.calls
                        (request_tx ae.ip ∷ timeout_arm ae.id (u32 (ae.timeout * 2)) ∷ []) in
                    omega (arith, moved, said)),
                change-length (is_entry ae.id) (λ d. record d { timeout = u32 (ae.timeout * 2) })
                    s.arp_table,
              )
      ]

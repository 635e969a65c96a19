-- ===== src/Resolve/Arp.antt =====
-- tas_nic/slow/arp.c. The doubly linked table is a list, its newest entry first; an entry and a
-- completion are named by their addresses. A write to a notification descriptor is left out.
use tas_smartnic.Prelude.{
  ◌*◌, u32, leb, ltb, ◌||◌, not, ◌==◌, if◌then◌else◌, ℕ, Bool, true, false, List, [], ◌∷◌, ◌++◌,
  Option, none, some,
}
use tas_smartnic.Timeout.Clock.{middle}
use tas_smartnic.Conn.Opening.{Resolved, failed, pending, now}

-- struct arp_entry; `is_pending` is a status that is not 0.
pub record ArpEntry : Type 0 where
  pub id : ℕ
  pub is_pending : Bool
  pub ip : ℕ
  pub mac : ℕ
  pub compl : List ℕ
  pub timeout : ℕ

-- Calls of other parts. A completion is queued with the address, or as a failure.
pub data Call : Type 0 where
  request_tx : (ip : ℕ) → Call
  response_tx : (mac ip : ℕ) → Call
  timeout_arm : (entry us : ℕ) → Call
  timeout_disarm : (entry : ℕ) → Call
  completed : (comp : ℕ) → (mac : Option ℕ) → Call

pub record State : Type 0 where
  pub arp_table : List ArpEntry
  pub calls : List Call

-- What arp.c reads of `config`.
pub record Config : Type 0 where
  pub ip : ℕ
  pub nic_ip : ℕ
  pub arp_to : ℕ
  pub arp_to_max : ℕ

-- ae_lookup, for a test of the entry
unfoldable pub find : (ArpEntry → Bool) → List ArpEntry → Option ArpEntry
find test [] = none
find test (e ∷ es) = let rest = find test es in if test e then some e else rest

-- The table with that entry changed.
unfoldable pub change : (ArpEntry → Bool) → (ArpEntry → ArpEntry) → List ArpEntry → List ArpEntry
change test f [] = []
change test f (e ∷ es) = let rest = change test f es in if test e then f e ∷ es else e ∷ rest

-- The table without it.
unfoldable pub remove : (ArpEntry → Bool) → List ArpEntry → List ArpEntry
remove test [] = []
remove test (e ∷ es) = let rest = remove test es in if test e then es else e ∷ rest

abbrev pub for_ip : ℕ → ArpEntry → Bool
for_ip ip e = e.ip == ip

abbrev pub is_entry : ℕ → ArpEntry → Bool
is_entry id e = e.id == id

-- The loop that notifies the waiting connections.
unfoldable pub notify : Option ℕ → List ℕ → List Call
notify mac [] = []
notify mac (comp ∷ comps) = completed comp mac ∷ notify mac comps

-- arp_init
unfoldable pub arp_init : (ip eth_addr id : ℕ) → State
arp_init ip eth_addr id = record {
  arp_table =
      record { id = id; is_pending = false; ip = ip; mac = eth_addr; compl = []; timeout = 0 } ∷ [];
  calls = [];
}

module _ (config : Config) where
  -- arp_request. `malloc` is the new entry's address, if there is memory; `none` is the abort of
  -- util_timeout_arm.
  unfoldable pub arp_request :
      (comp ip : ℕ) → (malloc : Option ℕ) → State → Option (Resolved × State)
  arp_request comp ip malloc s = elim (find (for_ip ip) s.arp_table) [
    | some ae ↦
        if not ae.is_pending
        then some (now ae.mac, s)
        else some (
          pending,
          record s {
            arp_table = change (for_ip ip) (λ e. record e { compl = comp ∷ e.compl }) s.arp_table;
          },
        )
    | none ↦ elim malloc [
      | none ↦ some (failed, s)
      | some id ↦
          let ae : ArpEntry = record {
            id = id;
            is_pending = true;
            ip = ip;
            mac = 0;
            compl = comp ∷ [];
            timeout = config.arp_to;
          } in
          if not (ltb config.arp_to middle)
          then none
          else some (
            pending,
            record {
              arp_table = ae ∷ s.arp_table;
              calls = s.calls ++ request_tx ip ∷ timeout_arm id config.arp_to ∷ [];
            },
          )
    ]
  ]

  -- arp_packet for a request, from `spa` and `sha`, for `tpa`
  unfoldable pub arp_asked : (spa sha tpa : ℕ) → State → State
  arp_asked spa sha tpa s =
      if tpa == config.ip || tpa == config.nic_ip
      then record s { calls = s.calls ++ response_tx sha spa ∷ [] }
      else s

  -- arp_packet for a reply: `spa` has the address `sha`
  unfoldable pub arp_replied : (spa sha : ℕ) → State → State
  arp_replied spa sha s = elim (find (for_ip spa) s.arp_table) [
    | none ↦ s
    | some ae ↦ record {
      arp_table =
          change (for_ip spa) (λ e. record e { mac = sha; is_pending = false; compl = [] })
            s.arp_table;
      calls =
          (if ae.is_pending then s.calls ++ timeout_disarm ae.id ∷ [] else s.calls)
          ++ notify (some sha) ae.compl;
    }
  ]

  -- arp_packet, by the operation of a packet with well-formed fields
  unfoldable pub arp_packet : (well_formed : Bool) → (oper spa sha tpa : ℕ) → State → State
  unfolding arp_asked arp_replied
  arp_packet well_formed oper spa sha tpa s =
      if not well_formed
      then s
      else if oper == 1
      then arp_asked spa sha tpa s
      else if oper == 2
      then arp_replied spa sha s
      else s

  -- arp_timeout of an entry; `none` is an abort.
  unfoldable pub arp_timeout : (id : ℕ) → State → Option State
  arp_timeout id s = elim (find (is_entry id) s.arp_table) [
    | none ↦ none
    | some ae ↦
        if not ae.is_pending
        then none
        else if leb config.arp_to_max (u32 (ae.timeout * 2))
        then some (record {
          arp_table = remove (is_entry id) s.arp_table;
          calls = s.calls ++ notify none ae.compl;
        })
        else if not (ltb (u32 (ae.timeout * 2)) middle)
        then none
        else some (record {
          arp_table =
              change (is_entry id) (λ e. record e { timeout = u32 (ae.timeout * 2) }) s.arp_table;
          calls = s.calls ++ request_tx ae.ip ∷ timeout_arm id (u32 (ae.timeout * 2)) ∷ [];
        })
  ]

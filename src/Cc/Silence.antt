-- ===== src/Cc/Silence.antt =====
-- When issue_retransmits (tas_nic/slow/cc.c) asks for a retransmission: over the rounds of a connection.
use tas_smartnic.Prelude.{
  ℕ, suc, ◌+◌, ◌^◌, ◌≤◌, ◌<◌, ◌≡◌, refl, ◌⊎◌, inl, inr, ◌&&◌, Bool, true, false, List, [], ◌∷◌,
  arith, ◌==◌, add32, sub32, mul32, Bool-cases,
}
use tas_smartnic.Cc.State.{Config, Stats, Conn}
use tas_smartnic.Cc.Dctcp.{rtt_or_init}
use tas_smartnic.Cc.Control.{silent, overdue, pending}

-- What a round saw of a connection, and when; lists of rounds have the latest first.
pub record Round : Type 0 where
  pub stats : Stats
  pub at : ℕ

-- The latest `n` rounds were silent, the first of them at the time `since`.
pub data Silence (config : Config) : List Round → ℕ → ℕ → Type 0 where
  first :
      {r : Round} {h : List Round} → silent config r.stats ≡ true → Silence config (r ∷ h) 1 r.at
  more :
      {r : Round} {h : List Round} {n since : ℕ}
      → silent config r.stats ≡ true
      → Silence config h n since
      → Silence config (r ∷ h) (suc n) since

-- A connection after some rounds. What happens between two rounds leaves the two fields alone that
-- count silent rounds.
pub data Rounds (config : Config) : Conn → List Round → Type 0 where
  start : {c : Conn} → c.cnt_tx_pending ≡ 0 → Rounds config c []
  round :
      {c : Conn} {h : List Round} (d : Conn)
      → Rounds config c h
      → d.cnt_tx_pending ≡ c.cnt_tx_pending
      → d.ts_tx_pending ≡ c.ts_tx_pending
      → (r : Round) (ok : Bool) → Rounds config (pending config d r.stats r.at ok) (r ∷ h)

module _ (config : Config) where
  -- The counter is 0, or the length of the silence that began at `ts_tx_pending`.
  Counted : (cnt ts : ℕ) → List Round → Type 0
  Counted cnt ts h = (cnt < 2 ^ 32) × ((cnt ≡ 0) ⊎ Silence config h cnt ts)

  -- One more silent round.
  Counted-on :
      (cnt ts : ℕ) (h : List Round) (r : Round)
      → silent config r.stats ≡ true
      → (cnt == 0) ≡ false
      → Counted cnt ts h
      → Counted (add32 cnt 1) ts (r ∷ h)
  unfolding Counted
  Counted-on cnt ts h r quiet some_count (small, inl none_yet) = absurd (ground arith)
  Counted-on cnt ts h r quiet some_count (small, inr silence) =
      elim (Bool-cases (cnt + 1 == 2 ^ 32)) [
        | inl full ↦ (omega arith, inl (ground arith))
        | inr room ↦
            let next : add32 cnt 1 ≡ suc cnt = ground arith in
            rw next (ground arith, inr (more quiet silence))
      ]

  pending-Counted :
      (d : Conn) (h : List Round) (r : Round) (ok : Bool)
      → Counted d.cnt_tx_pending d.ts_tx_pending h
      → let e = pending config d r.stats r.at ok in Counted e.cnt_tx_pending e.ts_tx_pending (r ∷ h)
  unfolding Counted pending
  pending-Counted d h r ok before = elim (Bool-cases (silent config r.stats)) [
    | inr loud ↦ rw (pending, loud) (omega arith, inl refl)
    | inl quiet ↦ elim (Bool-cases (d.cnt_tx_pending == 0)) [
      | inl begin ↦ rw (pending, quiet, begin) (omega arith, inr (first quiet))
      | inr on ↦ elim (Bool-cases (overdue config d r.stats r.at && ok)) [
        | inl sent ↦ rw (pending, quiet, on, sent) (omega arith, inl refl)
        | inr waits ↦
            rw (pending, quiet, on, waits)
              (Counted-on d.cnt_tx_pending d.ts_tx_pending h r quiet on before)
      ]
    ]
  ]

  Rounds-Counted :
      {c : Conn} {h : List Round} → Rounds config c h → Counted c.cnt_tx_pending c.ts_tx_pending h
  unfolding Counted
  Rounds-Counted (start zero_count) = (omega arith, inl zero_count)
  Rounds-Counted (round {h = h} d before cnt ts r ok) =
      pending-Counted d h r ok (rw (cnt, ts) (Rounds-Counted before))

  -- A retransmission is asked for only in a silent round, after at least one, and all but one of the
  -- configured number, silent rounds without a break, the first of them two round-trip times ago or
  -- more.
  pub overdue-Silence :
      {c : Conn} {h : List Round} (stats : Stats) (cur_ts : ℕ)
      → Rounds config c h
      → overdue config c stats cur_ts ≡ true
      → (silent config stats ≡ true)
        × (n : ℕ) × Silence config h n c.ts_tx_pending
        × (0 < n)
        × (config.cc_rexmit_ints ≤ n + 1)
        × (mul32 2 (rtt_or_init config stats) ≤ sub32 cur_ts c.ts_tx_pending)
  unfolding Counted overdue
  overdue-Silence {c} {h} stats cur_ts rounds late =
      let quiet : silent config stats ≡ true = ground arith in
      let enough : config.cc_rexmit_ints ≤ c.cnt_tx_pending + 1 = ground arith in
      let waited : mul32 2 (rtt_or_init config stats) ≤ sub32 cur_ts c.ts_tx_pending =
        ground arith in
      let some_count : 0 < c.cnt_tx_pending = ground arith in
      elim (Rounds-Counted rounds).1 [
        | inl none_yet ↦ absurd (omega arith)
        | inr silence ↦ (quiet, c.cnt_tx_pending, silence, some_count, enough, waited)
      ]

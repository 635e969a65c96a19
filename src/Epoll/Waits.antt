-- ===== src/Epoll/Waits.antt =====
-- tas_epoll_wait (lib/sockets/epoll.c): what a poll of sockets and Linux answers, and what a wrong
-- count of the sockets makes of it.
use tas_smartnic.Prelude.{
  ==-same, inr, inl, ℕ, ◌-◌, ◌≤◌, ◌<◌, ◌≡◌, refl, ◌∙◌, subst, Bool, true, false, Option, none, some,
  Option-cases, List, [], ◌∷◌, ◌++◌, arith, ◌==◌, ltb, Bool-cases, length, length-append, sub32,
}
use tas_smartnic.Epoll.State.{State, is_ready}
use tas_smartnic.Epoll.Control.{
  ctl_del, Request, enoent, find_es, count_tas, epoll_del, tas_epoll_ctl,
}
use tas_smartnic.Epoll.Waiting.{Report, ep_poll_tas, linux_first, wait_poll, epoll_wait}
use tas_smartnic.Epoll.Invariant.{Inv}
use tas_smartnic.Epoll.Polled.{ready_reports, poll_active_lem}
use tas_smartnic.Epoll.Binding.{counters-InvBut}

length-ready_reports :
    (s : State) (es : List ℕ) (room : ℕ) → length (ready_reports s es room) ≤ room
unfolding ready_reports
length-ready_reports s [] room = omega arith
length-ready_reports s (e ∷ es) room = elim (Bool-cases (room == 0)) [
  | inl none_left ↦ rw none_left (omega arith)
  | inr free ↦
      let some_left : 0 < room = ground arith in
      elim (Bool-cases (is_ready s e)) [
        | inl it ↦ rw (free, it) (omega (arith, length-ready_reports s es (room - 1), some_left))
        | inr rests ↦ rw (free, rests) (length-ready_reports s es room)
      ]
]

module _ (sockctx_poll : State → ℕ → State) (linux : ℕ → Option (List Report))
    (sockctx_poll-Inv : (s : State) (n : ℕ) → Inv s → Inv (sockctx_poll s n))
    (linux-few : (n : ℕ) (ls : List Report) → linux n ≡ some ls → length ls ≤ n) where
  -- The outcome of a poll that may report `n` events.
  abbrev Polled : ℕ → Option (State × List Report) → Type 0
  Polled n answer =
      (t : State) × (rs : List Report) × (answer ≡ some (t, rs)) × (length rs ≤ n) × Inv t

  abbrev Waited : ℕ → Option (State × Option (List Report)) → Type 0
  Waited n answer =
      (t : State) × (res : Option (List Report)) × (answer ≡ some (t, res))
      × ((rs : List Report) → res ≡ some rs → length rs ≤ n)
      × Inv t

  ep_poll_tas-Polled :
      (s : State) (ep n : ℕ) → Inv s → Polled n (ep_poll_tas sockctx_poll linux s ep n)
  unfolding ep_poll_tas
  ep_poll_tas-Polled s ep n inv =
      let t = sockctx_poll s n in
      let (u, done, inv_u) = poll_active_lem t ep n (sockctx_poll-Inv s n inv) in
      (
        u,
        ready_reports t (t.epoll ep).active n,
        done,
        length-ready_reports t (t.epoll ep).active n,
        inv_u,
      )

  linux_first-Inv :
      (s : State) (ep : ℕ) (b : Bool) → Inv s → Inv (linux_first sockctx_poll linux s ep b)
  linux_first-Inv s ep b inv =
      counters-InvBut s ep (s.epoll ep).num_tas (s.epoll ep).num_linux b inv

  few_of : (n : ℕ) (ls rs : List Report) → length ls ≤ n → some ls ≡ some rs → length rs ≤ n
  few_of n ls rs few e = let is : ls ≡ rs = cc e in subst (λ l. length l ≤ n) is few

  few_sum :
      (n : ℕ) (ls rs both : List Report)
      → length ls ≤ n
      → length rs ≤ n - length ls
      → some (ls ++ rs) ≡ some both
      → length both ≤ n
  few_sum n ls rs both few rest e =
      few_of n (ls ++ rs) both (omega (arith, length-append ls rs, few, rest)) e

  tas_alone :
      (s : State) (ep n : ℕ)
      → Inv s
      → ((s.epoll ep).num_linux == 0) ≡ true
      → Waited n (wait_poll sockctx_poll linux s ep n)
  unfolding wait_poll
  tas_alone s ep n inv alone =
      let (t, rs, done, few, inv_t) = ep_poll_tas-Polled s ep n inv in
      (t, some rs, rw (alone, done) refl, (λ all e. few_of n rs all few e), inv_t)

  linux_answered :
      (s : State) (ep n : ℕ) (answer : Option (List Report))
      → Inv s
      → ((s.epoll ep).num_linux == 0) ≡ false
      → (s.epoll ep).linux_next ≡ true
      → linux n ≡ answer
      → Waited n (wait_poll sockctx_poll linux s ep n)
  unfolding wait_poll
  linux_answered s ep n none inv both first said = (
    linux_first sockctx_poll linux s ep false,
    none,
    rw (both, first, said) refl,
    (λ rs e. absurd cc),
    linux_first-Inv s ep false inv,
  )
  linux_answered s ep n (some ls) inv both first said =
      let few : length ls ≤ n = linux-few n ls said in
      elim (Bool-cases (ltb (length ls) n)) [
        | inl fewer ↦
            let (t, rs, done, rest, inv_t) = ep_poll_tas-Polled s ep (n - length ls) inv in
            (
              linux_first sockctx_poll linux t ep false,
              some (ls ++ rs),
              rw (both, first, said, fewer, done) refl,
              (λ all e. few_sum n ls rs all few rest e),
              linux_first-Inv t ep false inv_t,
            )
        | inr full ↦ (
          linux_first sockctx_poll linux s ep false,
          some ls,
          rw (both, first, said, full) refl,
          (λ rs e. few_of n ls rs few e),
          linux_first-Inv s ep false inv,
        )
      ]

  tas_answered :
      (s t : State) (ep n : ℕ) (rs : List Report) (answer : Option (List Report))
      → ((s.epoll ep).num_linux == 0) ≡ false
      → (s.epoll ep).linux_next ≡ false
      → ep_poll_tas sockctx_poll linux s ep n ≡ some (t, rs)
      → length rs ≤ n
      → Inv t
      → linux (n - length rs) ≡ answer
      → Waited n (wait_poll sockctx_poll linux s ep n)
  unfolding wait_poll
  tas_answered s t ep n rs answer both first done few inv said =
      elim (Bool-cases (ltb (length rs) n)) [
        | inr full ↦ (
          linux_first sockctx_poll linux t ep true,
          some rs,
          rw (both, first, done, full) refl,
          (λ all e. few_of n rs all few e),
          linux_first-Inv t ep true inv,
        )
        | inl fewer ↦ elim (Option-cases answer) [
          | inl nothing ↦
              let heard : linux (n - length rs) ≡ none = said ∙ nothing in
              (
                linux_first sockctx_poll linux t ep true,
                some rs,
                rw (both, first, done, fewer, heard) refl,
                (λ all e. few_of n rs all few e),
                linux_first-Inv t ep true inv,
              )
          | inr (ls, is) ↦
              let heard : linux (n - length rs) ≡ some ls = said ∙ is in
              let rest : length ls ≤ n - length rs = linux-few (n - length rs) ls heard in
              (
                linux_first sockctx_poll linux t ep true,
                some (rs ++ ls),
                rw (both, first, done, fewer, heard) refl,
                (λ all e. few_sum n rs ls all few rest e),
                linux_first-Inv t ep true inv,
              )
        ]
      ]

  -- A poll of tas_epoll_wait, whichever of sockets and Linux come first: no assertion fails, no more
  -- events are reported than asked for, and the lists of bindings stay in order, where the socket
  -- layer's poll keeps them in order and Linux reports no more than it is asked for.
  pub wait_poll-few :
      (s : State) (ep maxevents : ℕ)
      → Inv s
      → (t : State) × (res : Option (List Report)) × (wait_poll sockctx_poll linux s ep maxevents
          ≡ some (t, res))
        × ((rs : List Report) → res ≡ some rs → length rs ≤ maxevents)
        × Inv t
  wait_poll-few s ep n inv = elim (Bool-cases ((s.epoll ep).num_linux == 0)) [
    | inl alone ↦ tas_alone s ep n inv alone
    | inr both ↦ elim (Bool-cases (s.epoll ep).linux_next) [
      | inl first ↦ linux_answered s ep n (linux n) inv both first refl
      | inr second ↦
          let (t, rs, done, few, inv_t) = ep_poll_tas-Polled s ep n inv in
          tas_answered s t ep n rs (linux (n - length rs)) both second done few inv_t refl
    ]
  ]

-- EPOLL_CTL_DEL of a socket that is not in the epoll, where the epoll has one socket: the answer is
-- ENOENT and the socket stays in the epoll, but num_tas is 0, so that from then on tas_epoll_wait asks
-- Linux alone and reports no event of the socket.
pub failed_del_silences :
    (sockctx_poll : State → ℕ → State) (linux : ℕ → Option (List Report)) (s : State)
    (ep k maxevents : ℕ) (r : Request) (fresh : Option ℕ)
    → find_es s ep (s.socket k).eps ≡ none
    → (s.epoll ep).num_tas ≡ 1
    → 0 < maxevents
    → (t : State) × (tas_epoll_ctl s ep ctl_del k r fresh ≡ some (t, enoent))
      × ((t.epoll ep).active ≡ (s.epoll ep).active)
      × ((t.epoll ep).inactive ≡ (s.epoll ep).inactive)
      × (epoll_wait sockctx_poll linux t ep maxevents ≡ some (t, linux maxevents))
unfolding tas_epoll_ctl epoll_del epoll_wait
failed_del_silences sockctx_poll linux s ep k maxevents r fresh missing one asked =
    let t = count_tas s ep (sub32 (s.epoll ep).num_tas 1) in
    let some_asked : (maxevents == 0) ≡ false = ground arith in
    let zero_left : ((t.epoll ep).num_tas == 0) ≡ true = left s ep one in
    (t, rw missing refl, kept_active s ep _, kept_inactive s ep _, rw (some_asked, zero_left) refl)
  where
    left :
        (s : State) (ep : ℕ)
        → (s.epoll ep).num_tas ≡ 1
        → (((count_tas s ep (sub32 (s.epoll ep).num_tas 1)).epoll ep).num_tas == 0) ≡ true
    left s ep one = rw (==-same ep, one) refl

    kept_active :
        (s : State) (ep n : ℕ) → ((count_tas s ep n).epoll ep).active ≡ (s.epoll ep).active
    kept_active s ep n = rw (==-same ep) refl

    kept_inactive :
        (s : State) (ep n : ℕ) → ((count_tas s ep n).epoll ep).inactive ≡ (s.epoll ep).inactive
    kept_inactive s ep n = rw (==-same ep) refl

-- ===== src/Epoll/Tests.antt =====
-- The theorems on lib/sockets/epoll.c at concrete sockets, and runs of its code.
use tas_smartnic.Prelude.{
  subst, ℕ, zero, suc, ◌≤◌, ◌≡◌, refl, inl, true, false, Option, none, some, List, [], ◌∷◌, arith,
  Listed, Distinct, Apart, length,
}
use tas_smartnic.Epoll.State.{
  epollin, epollout, epollerr, epollhup, epollrdhup, Events, EpollSocket, State, is_ready, remove,
  es_remove_inactive, es_add_active, es_add_inactive, es_activate,
}
use tas_smartnic.Epoll.Control.{
  created, sockinit, ctl_add, ctl_del, Request, success, enoent, find_es, bind, epoll_add,
  tas_epoll_ctl, epoll_set, activate_each,
}
use tas_smartnic.Epoll.Waiting.{Report, report, poll_active, wait_poll, epoll_wait}
use tas_smartnic.Epoll.Invariant.{Inv}
use tas_smartnic.Epoll.Polled.{ready_reports, poll_active_lem}
use tas_smartnic.Epoll.Controlled.{Unused, Room}
use tas_smartnic.Epoll.Reaching.{
  told, controlled, Runs, started, later, Runs-Inv, Reported, pending-Reported,
}
use tas_smartnic.Epoll.Waits.{wait_poll-few, failed_del_silences}

abbrev nowhere : EpollSocket
nowhere = record { ep = 0; s = 0; user = 0; mask = λ v. false; active = false }

-- Epolls without bindings.
abbrev empty : State
empty = record { es = λ e. nowhere; epoll = λ p. created; socket = λ k. sockinit }

empty-Inv : Inv empty
unfolding Distinct Listed
empty-Inv = record {
  once_inactive = λ p. tt;
  once_active = λ p. tt;
  once_eps = λ k. tt;
  idle = λ p e l. absurd l;
  busy = λ p e l. absurd l;
  waits = λ p e l. absurd l;
  bound = λ k e l. absurd l;
  count = λ p. refl;
  few = λ p. omega arith;
}

abbrev only_in : Events
only_in epollin = true
only_in epollout = false
only_in epollerr = false
only_in epollhup = false
only_in epollrdhup = false

abbrev request : Request
request = record { events = only_in; other = false; user = 99 }

-- Binding 1 of socket 5 to epoll 0, and then data for the socket.
abbrev bound : State
bound = (epoll_add empty 0 5 none request (some 1)).0

abbrev signalled : State
signalled = epoll_set bound 5 only_in

adds : tas_epoll_ctl empty 0 ctl_add 5 request (some 1) ≡ some (bound, success)
unfolding tas_epoll_ctl find_es
adds = refl

unused : Unused empty (some 1)
unfolding Apart
unused e i h = tt

room : Room empty 0
room = omega arith

run : Runs empty signalled
run =
    later (later started (controlled 0 ctl_add 5 request (some 1) success unused room adds))
      (told 5 only_in refl)

signalled-Inv : Inv signalled
signalled-Inv = Runs-Inv run empty-Inv

Runs-Inv_example : Inv signalled
Runs-Inv_example = Runs-Inv run empty-Inv

listed : Listed 1 (signalled.socket 5).eps
unfolding Listed epoll_set activate_each epoll_add bind es_add_inactive es_activate
    es_remove_inactive es_add_active remove
listed = inl refl

ready : is_ready signalled 1 ≡ true
unfolding epoll_set activate_each epoll_add bind es_add_inactive es_activate es_remove_inactive
    es_add_active remove
ready = refl

one_active : (signalled.epoll (signalled.es 1).ep).active ≡ 1 ∷ []
unfolding epoll_set activate_each epoll_add bind es_add_inactive es_activate es_remove_inactive
    es_add_active remove
one_active = refl

fits : length (signalled.epoll (signalled.es 1).ep).active ≤ 4
fits = rw one_active (omega arith)

pending-Reported_example :
    (u : State) × (rs : List Report) × (poll_active
        (signalled.epoll (signalled.es 1).ep).num_active
        signalled
        (signalled.es 1).ep
        4
      ≡ some (u, rs))
    × Reported (report signalled 1) rs
pending-Reported_example = pending-Reported 5 1 4 run empty-Inv listed ready fits

poll_active_lem_example :
    (u : State) × (poll_active (signalled.epoll 0).num_active signalled 0 4
      ≡ some (u, ready_reports signalled (signalled.epoll 0).active 4))
    × Inv u
poll_active_lem_example = poll_active_lem signalled 0 4 signalled-Inv

-- Sockets on which nothing comes in, and a Linux with one event.
abbrev quiet : State → ℕ → State
quiet s n = s

abbrev one_event : ℕ → Option (List Report)
one_event zero = some []
one_event (suc n) = some (record { events = only_in; user = 7 } ∷ [])

one_event-few : (n : ℕ) (ls : List Report) → one_event n ≡ some ls → length ls ≤ n
one_event-few zero ls e = let is : [] ≡ ls = cc e in subst (λ l. length l ≤ 0) is (omega arith)
one_event-few (suc n) ls e =
    let is : record { events = only_in; user = 7 } ∷ [] ≡ ls = cc e in
    subst (λ l. length l ≤ suc n) is (omega arith)

wait_poll-few_example :
    (t : State) × (res : Option (List Report)) × (wait_poll quiet one_event signalled 0 4
      ≡ some (t, res))
    × ((rs : List Report) → res ≡ some rs → length rs ≤ 4)
    × Inv t
wait_poll-few_example =
    wait_poll-few quiet one_event (λ s n inv. inv) one_event-few signalled 0 4 signalled-Inv

missing : find_es signalled 0 (signalled.socket 6).eps ≡ none
unfolding find_es epoll_set activate_each epoll_add bind es_add_inactive es_activate
    es_remove_inactive es_add_active remove
missing = refl

counted : (signalled.epoll 0).num_tas ≡ 1
unfolding epoll_set activate_each epoll_add bind es_add_inactive es_activate es_remove_inactive
    es_add_active remove
counted = refl

failed_del_silences_example :
    (t : State) × (tas_epoll_ctl signalled 0 ctl_del 6 request none ≡ some (t, enoent))
    × ((t.epoll 0).active ≡ (signalled.epoll 0).active)
    × ((t.epoll 0).inactive ≡ (signalled.epoll 0).inactive)
    × (epoll_wait quiet one_event t 0 4 ≡ some (t, one_event 4))
failed_del_silences_example =
    failed_del_silences quiet one_event signalled 0 6 4 request none missing counted (omega arith)

-- ===== src/Epoll/Waiting.antt =====
-- ep_poll_tas and the polls of tas_epoll_wait (lib/sockets/epoll.c). What flextcp_sockctx_poll_n does to
-- the sockets and what Linux answers are parameters; that the thread blocks between two polls is not
-- modelled.
use tas_smartnic.Prelude.{
  ℕ, zero, suc, ◌-◌, Bool, true, false, ◌&&◌, Option, none, some, List, [], ◌∷◌, ◌++◌, ◌==◌, ltb,
  if◌then◌else◌, length,
}
use tas_smartnic.Epoll.State.{
  Events, EpollSocket, Socket, State, with_epoll, is_ready, es_deactivate, es_active_pushback,
}

-- struct epoll_event, as it is reported.
pub record Report : Type 0 where
  pub events : Events
  pub user : ℕ

abbrev pub report_of : Socket → EpollSocket → Report
report_of k e = record { events = λ v. k.ep_events v && e.mask v; user = e.user }

abbrev pub report : State → ℕ → Report
report s e = report_of (s.socket (s.es e).s) (s.es e)

-- The loop of ep_poll_tas, for `i` more bindings and `room` more reports.
unfoldable pub poll_active : (i : ℕ) → State → (ep room : ℕ) → Option (State × List Report)
unfolding es_deactivate es_active_pushback
poll_active zero s ep room = some (s, [])
poll_active (suc i) s ep room = if room == 0 then some (s, []) else elim (s.epoll ep).active [
  | [] ↦ some (s, [])
  | e ∷ rest ↦
      if is_ready s e
      then elim (es_active_pushback s e) [
        | none ↦ none
        | some t ↦ elim (poll_active i t ep (room - 1)) [
          | none ↦ none
          | some (u, rs) ↦ some (u, report s e ∷ rs)
        ]
      ]
      else elim (es_deactivate s e) [ none ↦ none | some t ↦ poll_active i t ep room ]
]

module _ (sockctx_poll : State → ℕ → State) (linux : ℕ → Option (List Report)) where
  -- ep_poll_tas
  unfoldable pub ep_poll_tas : State → (ep maxevents : ℕ) → Option (State × List Report)
  unfolding poll_active
  ep_poll_tas s ep maxevents =
      let t = sockctx_poll s maxevents in poll_active (t.epoll ep).num_active t ep maxevents

  abbrev pub linux_first : State → ℕ → Bool → State
  linux_first s ep b = with_epoll s ep (record (s.epoll ep) { linux_next = b })

  -- A poll of tas_epoll_wait. In the result, `none` is -1.
  unfoldable pub wait_poll : State → (ep maxevents : ℕ) → Option (State × Option (List Report))
  unfolding ep_poll_tas
  wait_poll s ep maxevents =
      if (s.epoll ep).num_linux == 0
      then elim (ep_poll_tas s ep maxevents) [ none ↦ none | some (t, rs) ↦ some (t, some rs) ]
      else if (s.epoll ep).linux_next
      then elim (linux maxevents) [
        | none ↦ some (linux_first s ep false, none)
        | some ls ↦
            if ltb (length ls) maxevents
            then elim (ep_poll_tas s ep (maxevents - length ls)) [
              | none ↦ none
              | some (t, rs) ↦ some (linux_first t ep false, some (ls ++ rs))
            ]
            else some (linux_first s ep false, some ls)
      ]
      else elim (ep_poll_tas s ep maxevents) [
        | none ↦ none
        | some (t, rs) ↦
            if ltb (length rs) maxevents
            then elim (linux (maxevents - length rs)) [
              | none ↦ some (linux_first t ep true, some rs)
              | some ls ↦ some (linux_first t ep true, some (rs ++ ls))
            ]
            else some (linux_first t ep true, some rs)
      ]

  -- tas_epoll_wait, up to its first poll; without sockets of TAS Linux answers alone.
  unfoldable pub epoll_wait : State → (ep maxevents : ℕ) → Option (State × Option (List Report))
  unfolding wait_poll
  epoll_wait s ep maxevents =
      if maxevents == 0
      then some (s, none)
      else if (s.epoll ep).num_tas == 0
      then some (s, linux maxevents)
      else wait_poll s ep maxevents

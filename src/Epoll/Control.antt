-- ===== src/Epoll/Control.antt =====
-- tas_epoll_ctl of lib/sockets/epoll.c, and what the socket layer tells it of a socket's events. The
-- answers of Linux and of calloc are arguments.
use tas_smartnic.Prelude.{
  ℕ, ◌-◌, Bool, false, ◌&&◌, ◌||◌, not, Option, none, some, List, [], ◌∷◌, ◌==◌, if◌then◌else◌,
  add32, sub32,
}
use tas_smartnic.Epoll.State.{
  Events, meets, is_err, EpollSocket, Epoll, Socket, State, with_es, with_epoll, with_socket,
  is_ready, es_add_inactive, es_activate, es_remove_ep, es_remove_sock,
}

-- tas_epoll_create1: the new epoll, with the memory that calloc cleared.
abbrev pub created : Epoll
created = record {
  inactive = [];
  active = [];
  num_linux = 0;
  num_tas = 0;
  num_active = 0;
  linux_next = false;
}

-- flextcp_epoll_sockinit
abbrev pub sockinit : Socket
sockinit = record { ep_events = λ v. false; eps = [] }

pub data Op : Type 0 where
  ctl_add ctl_mod ctl_del ctl_other : Op

-- struct epoll_event, after EPOLLET was masked; `other` says whether it has any bit that is not known.
pub record Request : Type 0 where
  pub events : Events
  pub other : Bool
  pub user : ℕ

-- 0 or an errno.
pub data Result : Type 0 where
  success eexist enomem enoent einval linux_error : Result

-- The binding of a socket to an epoll, if there is one.
unfoldable pub find_es : State → (ep : ℕ) → List ℕ → Option ℕ
find_es s ep [] = none
find_es s ep (e ∷ es) = if (s.es e).ep == ep then some e else find_es s ep es

abbrev pub count_tas : State → (ep n : ℕ) → State
count_tas s ep n = with_epoll s ep (record (s.epoll ep) { num_tas = n })

abbrev pub mask_of : Request → Events
mask_of r v = r.events v || is_err v

-- The new binding `e`, on the lists of its socket and its epoll.
unfoldable pub bind : State → (e ep k : ℕ) → Request → State
unfolding es_add_inactive
bind s e ep k r =
    let x : EpollSocket = record {
      ep = ep;
      s = k;
      user = r.user;
      mask = mask_of r;
      active = false;
    } in
    let t = with_es s e x in
    let u = with_socket t k (record (t.socket k) { eps = e ∷ (t.socket k).eps }) in
    es_add_inactive u e

-- EPOLL_CTL_ADD, with the answer of calloc
unfoldable pub epoll_add :
    State → (ep k : ℕ) → Option ℕ → Request → (fresh : Option ℕ) → State × Result
unfolding bind es_activate
epoll_add s ep k (some e) r fresh = (count_tas s ep (add32 (s.epoll ep).num_tas 1), eexist)
epoll_add s ep k none r none = (count_tas s ep (add32 (s.epoll ep).num_tas 1), enomem)
epoll_add s ep k none r (some e) =
    let t : State = bind (count_tas s ep (add32 (s.epoll ep).num_tas 1)) e ep k r in
    (if is_ready t e then es_activate t e else t, success)

-- EPOLL_CTL_MOD
unfoldable pub epoll_mod : State → Option ℕ → Request → State × Result
unfolding es_activate
epoll_mod s none r = (s, enoent)
epoll_mod s (some e) r =
    let t : State = with_es s e (record (s.es e) { mask = mask_of r }) in
    (if is_ready t e then es_activate t e else t, success)

-- EPOLL_CTL_DEL
unfoldable pub epoll_del : State → (ep : ℕ) → Option ℕ → Option (State × Result)
unfolding es_remove_sock es_remove_ep
epoll_del s ep none = some (count_tas s ep (sub32 (s.epoll ep).num_tas 1), enoent)
epoll_del s ep (some e) =
    elim (es_remove_ep (es_remove_sock (count_tas s ep (sub32 (s.epoll ep).num_tas 1)) e) e) [
      | none ↦ none
      | some t ↦ some (t, success)
    ]

-- tas_epoll_ctl of a socket of TAS.
unfoldable pub tas_epoll_ctl :
    State → (ep : ℕ) → Op → (k : ℕ) → Request → (fresh : Option ℕ) → Option (State × Result)
unfolding epoll_add epoll_mod epoll_del find_es
tas_epoll_ctl s ep ctl_add k r fresh =
    if r.other
    then some (s, einval)
    else some (epoll_add s ep k (find_es s ep (s.socket k).eps) r fresh)
tas_epoll_ctl s ep ctl_mod k r fresh =
    if r.other then some (s, einval) else some (epoll_mod s (find_es s ep (s.socket k).eps) r)
tas_epoll_ctl s ep ctl_del k r fresh = epoll_del s ep (find_es s ep (s.socket k).eps)
tas_epoll_ctl s ep ctl_other k r fresh = some (s, einval)

-- tas_epoll_ctl of a file descriptor of Linux, whose answer is `ok`.
unfoldable pub linux_ctl : State → (ep : ℕ) → Op → (ok : Bool) → Option (State × Result)
linux_ctl s ep op ok =
    let q : Epoll = s.epoll ep in
    if not ok then some (s, linux_error) else elim op [
      | ctl_add ↦ some (with_epoll s ep (record q { num_linux = add32 q.num_linux 1 }), success)
      | ctl_del ↦
          if q.num_linux == 0
          then none
          else some (with_epoll s ep (record q { num_linux = q.num_linux - 1 }), success)
      | ctl_mod ↦ some (s, success)
      | ctl_other ↦ some (s, success)
    ]

-- The loop of flextcp_epoll_set over the bindings of a socket.
unfoldable pub activate_each : Events → List ℕ → State → State
unfolding es_activate
activate_each newevs [] s = s
activate_each newevs (e ∷ es) s =
    activate_each newevs es (if meets newevs (s.es e).mask then es_activate s e else s)

-- flextcp_epoll_set and flextcp_epoll_clear
unfoldable pub epoll_set : State → (k : ℕ) → Events → State
unfolding activate_each
epoll_set s k evts =
    let x : Socket = s.socket k in
    let newevs : Events = λ v. not (x.ep_events v) && evts v in
    if not (meets newevs newevs)
    then s
    else activate_each newevs x.eps
        (with_socket s k (record x { ep_events = λ v. x.ep_events v || evts v }))

unfoldable pub epoll_clear : State → (k : ℕ) → Events → State
epoll_clear s k evts =
    let x : Socket = s.socket k in
    with_socket s k (record x { ep_events = λ v. x.ep_events v && not (evts v) })

-- flextcp_epoll_sockclose: each binding goes off both its lists.
unfoldable pub unbind_each : List ℕ → State → Option State
unfolding es_remove_sock es_remove_ep
unbind_each [] s = some s
unbind_each (e ∷ es) s = elim (es_remove_ep (es_remove_sock s e) e) [
  | none ↦ none
  | some t ↦ unbind_each es t
]

unfoldable pub sockclose : State → (k : ℕ) → Option State
unfolding unbind_each
sockclose s k = unbind_each (s.socket k).eps s

-- flextcp_epoll_destroy, up to the release of the epoll's memory.
unfoldable pub epoll_destroy : State → (ep : ℕ) → Option State
unfolding unbind_each
epoll_destroy s ep = elim (unbind_each (s.epoll ep).active s) [
  | none ↦ none
  | some t ↦ unbind_each (t.epoll ep).inactive t
]

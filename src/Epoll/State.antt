-- ===== src/Epoll/State.antt =====
-- The state of lib/sockets/epoll.c, and the moves between the two lists of an epoll. The doubly linked
-- lists are lists of names: `epoll_socket`s, sockets and epolls are named by numbers. Locks and
-- reference counts are left out; `none` is a failed assertion.
use tas_smartnic.Prelude.{
  ℕ, ◌-◌, Bool, true, false, ◌&&◌, ◌||◌, not, Option, none, some, List, [], ◌∷◌, ◌++◌, ◌==◌,
  if◌then◌else◌, add32,
}

-- The events that epoll_ctl accepts.
pub data Event : Type 0 where
  epollin epollout epollerr epollhup epollrdhup : Event

-- A mask of events, with its bits and its difference from 0.
abbrev pub Events : Type 0
Events = Event → Bool

abbrev pub meets : Events → Events → Bool
meets a b =
    (a epollin && b epollin)
    || (a epollout && b epollout)
    || (a epollerr && b epollerr)
    || (a epollhup && b epollhup)
    || (a epollrdhup && b epollrdhup)

abbrev pub is_err : Event → Bool
is_err epollerr = true
is_err epollin = false
is_err epollout = false
is_err epollhup = false
is_err epollrdhup = false

-- struct epoll_socket
pub record EpollSocket : Type 0 where
  pub ep : ℕ
  pub s : ℕ
  pub user : ℕ
  pub mask : Events
  pub active : Bool

-- struct epoll
pub record Epoll : Type 0 where
  pub inactive : List ℕ
  pub active : List ℕ
  pub num_linux : ℕ
  pub num_tas : ℕ
  pub num_active : ℕ
  pub linux_next : Bool

-- The fields of struct socket that epoll.c uses.
pub record Socket : Type 0 where
  pub ep_events : Events
  pub eps : List ℕ

pub record State : Type 0 where
  pub es : ℕ → EpollSocket
  pub epoll : ℕ → Epoll
  pub socket : ℕ → Socket

abbrev pub put {ℓ} : {A : Type ℓ} → (ℕ → A) → ℕ → A → ℕ → A
put f k a i = if i == k then a else f i

abbrev pub with_es : State → ℕ → EpollSocket → State
with_es s e x = record s { es = put s.es e x }

abbrev pub with_epoll : State → ℕ → Epoll → State
with_epoll s p x = record s { epoll = put s.epoll p x }

abbrev pub with_socket : State → ℕ → Socket → State
with_socket s k x = record s { socket = put s.socket k x }

-- A list without one of its elements.
unfoldable pub remove : ℕ → List ℕ → List ℕ
remove e [] = []
remove e (x ∷ xs) = if x == e then xs else x ∷ remove e xs

-- The unmasked events that are pending.
abbrev pub is_ready : State → ℕ → Bool
is_ready s e = meets (s.socket (s.es e).s).ep_events (s.es e).mask

-- es_remove_inactive and es_add_inactive
unfoldable pub es_remove_inactive : State → ℕ → State
es_remove_inactive s e =
    let p = (s.es e).ep in
    with_epoll s p (record (s.epoll p) { inactive = remove e (s.epoll p).inactive })

unfoldable pub es_add_inactive : State → ℕ → State
es_add_inactive s e =
    let p = (s.es e).ep in
    with_epoll s p (record (s.epoll p) { inactive = e ∷ (s.epoll p).inactive })

-- es_remove_active and es_add_active
unfoldable pub es_remove_active : State → ℕ → Option State
es_remove_active s e =
    let p = (s.es e).ep in
    let q : Epoll = s.epoll p in
    if not (s.es e).active || q.num_active == 0
    then none
    else some
        (with_epoll s p (record q { active = remove e q.active; num_active = q.num_active - 1 }))

unfoldable pub es_add_active : State → ℕ → State
es_add_active s e =
    let p = (s.es e).ep in
    let q : Epoll = s.epoll p in
    with_epoll s p (record q { active = q.active ++ e ∷ []; num_active = add32 q.num_active 1 })

abbrev pub set_active : State → ℕ → Bool → State
set_active s e b = with_es s e (record (s.es e) { active = b })

-- es_activate
unfoldable pub es_activate : State → ℕ → State
unfolding es_remove_inactive es_add_active
es_activate s e =
    if (s.es e).active then s else es_add_active (set_active (es_remove_inactive s e) e true) e

-- es_deactivate
unfoldable pub es_deactivate : State → ℕ → Option State
unfolding es_remove_active es_add_inactive
es_deactivate s e = if not (s.es e).active then some s else elim (es_remove_active s e) [
  | none ↦ none
  | some t ↦ some (es_add_inactive (set_active t e false) e)
]

-- es_active_pushback
unfoldable pub es_active_pushback : State → ℕ → Option State
unfolding es_remove_active es_add_active
es_active_pushback s e = elim (es_remove_active s e) [
  | none ↦ none
  | some t ↦ some (es_add_active t e)
]

-- es_remove_ep
unfoldable pub es_remove_ep : State → ℕ → Option State
unfolding es_remove_active es_remove_inactive
es_remove_ep s e = if (s.es e).active then es_remove_active s e else some (es_remove_inactive s e)

-- es_remove_sock
unfoldable pub es_remove_sock : State → ℕ → State
unfolding remove
es_remove_sock s e =
    let k = (s.es e).s in with_socket s k (record (s.socket k) { eps = remove e (s.socket k).eps })

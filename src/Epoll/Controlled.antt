-- ===== src/Epoll/Controlled.antt =====
-- tas_epoll_ctl (lib/sockets/epoll.c), for every operation.
use tas_smartnic.Prelude.{
  ℕ, ◌+◌, ◌-◌, ◌^◌, ◌<◌, ◌≡◌, refl, sym, subst, Bool, true, false, Option, none, some, ◌==◌,
  if◌then◌else◌, Listed, Apart, length, add32, sub32,
}
use tas_smartnic.Epoll.State.{Epoll, State, with_epoll}
use tas_smartnic.Epoll.Control.{
  Op, ctl_add, ctl_mod, ctl_del, ctl_other, Request, Result, success, enoent, einval, find_es,
  epoll_add, epoll_mod, epoll_del, tas_epoll_ctl, linux_ctl,
}
use tas_smartnic.Epoll.Invariant.{Inv}
use tas_smartnic.Epoll.Binding.{find_es-some, count_tas-InvBut, counters-InvBut, epoll_mod-Inv}
use tas_smartnic.Epoll.Adding.{epoll_add-Inv}
use tas_smartnic.Epoll.Closing.{epoll_del-Inv}

-- calloc answers with a binding that no socket knows.
abbrev pub Unused : State → Option ℕ → Type 0
Unused s fresh = (e i : ℕ) → fresh ≡ some e → Apart e (s.socket i).eps

-- There is room for another binding in the counter of the epoll.
abbrev pub Room : State → ℕ → Type 0
Room s ep = length (s.epoll ep).active + length (s.epoll ep).inactive + 1 < 2 ^ 32

-- What a call of tas_epoll_ctl may come to.
abbrev Settled : Option (State × Result) → Type 0
Settled answer = (t : State) × (res : Result) × (answer ≡ some (t, res)) × Inv t

either-Settled :
    (b : Bool) (x y : Option (State × Result))
    → Settled x
    → Settled y
    → Settled (if b then x else y)
either-Settled true x y sx sy = sx
either-Settled false x y sx sy = sy

add-Settled :
    (s : State) (ep k : ℕ) (found : Option ℕ) (r : Request) (fresh : Option ℕ)
    → Inv s
    → Unused s fresh
    → Room s ep
    → Settled (some (epoll_add s ep k found r fresh))
unfolding epoll_add
add-Settled s ep k (some e) r fresh inv unused room =
    (_, _, refl, count_tas-InvBut s ep (add32 (s.epoll ep).num_tas 1) inv)
add-Settled s ep k none r none inv unused room =
    (_, _, refl, count_tas-InvBut s ep (add32 (s.epoll ep).num_tas 1) inv)
add-Settled s ep k none r (some e) inv unused room = (
  (epoll_add s ep k none r (some e)).0,
  success,
  refl,
  epoll_add-Inv s e ep k r inv (λ i. unused e i refl) room,
)

-- The binding that was found is one of the socket.
found_known :
    (s : State) (ep k e : ℕ)
    → Inv s
    → find_es s ep (s.socket k).eps ≡ some e
    → Listed e (s.socket (s.es e).s).eps
found_known s ep k e inv found =
    let (listed, owner) = find_es-some s ep (s.socket k).eps e found in
    subst (λ n. Listed e (s.socket n).eps) (sym (inv.bound k e listed).0) listed

mod-Settled :
    (s : State) (found : Option ℕ) (r : Request)
    → Inv s
    → ((e : ℕ) → found ≡ some e → Listed e (s.socket (s.es e).s).eps)
    → Settled (some (epoll_mod s found r))
unfolding epoll_mod
mod-Settled s none r inv known = (s, enoent, refl, inv)
mod-Settled s (some e) r inv known =
    ((epoll_mod s (some e) r).0, success, refl, epoll_mod-Inv s e r inv (known e refl))

del-Settled :
    (s : State) (ep : ℕ) (found : Option ℕ)
    → Inv s
    → ((e : ℕ) → found ≡ some e → Listed e (s.socket (s.es e).s).eps)
    → Settled (epoll_del s ep found)
unfolding epoll_del
del-Settled s ep none inv known =
    (_, _, refl, count_tas-InvBut s ep (sub32 (s.epoll ep).num_tas 1) inv)
del-Settled s ep (some e) inv known =
    let (t, gone, inv_t) = epoll_del-Inv s ep e inv (known e refl) in (t, success, gone, inv_t)

-- tas_epoll_ctl, for every operation: no assertion fails, and the invariant is kept.
pub tas_epoll_ctl-Inv :
    (s : State) (ep : ℕ) (op : Op) (k : ℕ) (r : Request) (fresh : Option ℕ)
    → Inv s
    → Unused s fresh
    → Room s ep
    → (t : State) × (res : Result) × (tas_epoll_ctl s ep op k r fresh ≡ some (t, res)) × Inv t
unfolding tas_epoll_ctl
tas_epoll_ctl-Inv s ep ctl_add k r fresh inv unused room =
    let found = find_es s ep (s.socket k).eps in
    either-Settled r.other (some (s, einval)) (some (epoll_add s ep k found r fresh))
      (s, einval, refl, inv) (add-Settled s ep k found r fresh inv unused room)
tas_epoll_ctl-Inv s ep ctl_mod k r fresh inv unused room =
    let found = find_es s ep (s.socket k).eps in
    either-Settled r.other (some (s, einval)) (some (epoll_mod s found r)) (s, einval, refl, inv)
      (mod-Settled s found r inv (λ e h. found_known s ep k e inv h))
tas_epoll_ctl-Inv s ep ctl_del k r fresh inv unused room =
    del-Settled s ep (find_es s ep (s.socket k).eps) inv (λ e h. found_known s ep k e inv h)
tas_epoll_ctl-Inv s ep ctl_other k r fresh inv unused room = (s, einval, refl, inv)

unless-Inv :
    (b : Bool) (u t : State) (res : Result)
    → if◌then◌else◌ {A = Option (State × Result)} b none (some (u, success)) ≡ some (t, res)
    → Inv u
    → Inv t
unless-Inv true u t res e inv = absurd cc
unless-Inv false u t res e inv = let is : u ≡ t = cc e in subst Inv is inv

-- tas_epoll_ctl of a file descriptor of Linux.
pub linux_ctl-Inv :
    (s t : State) (ep : ℕ) (op : Op) (ok : Bool) (res : Result)
    → linux_ctl s ep op ok ≡ some (t, res)
    → Inv s
    → Inv t
unfolding linux_ctl
linux_ctl-Inv s t ep op false res e inv = let is : s ≡ t = cc e in subst Inv is inv
linux_ctl-Inv s t ep ctl_add true res e inv =
    let q : Epoll = s.epoll ep in
    let is : with_epoll s ep (record q { num_linux = add32 q.num_linux 1 }) ≡ t = cc e in
    subst Inv is (counters-InvBut s ep q.num_tas (add32 q.num_linux 1) q.linux_next inv)
linux_ctl-Inv s t ep ctl_del true res e inv =
    let q : Epoll = s.epoll ep in
    let gone : State = with_epoll s ep (record q { num_linux = q.num_linux - 1 }) in
    let kept : Inv gone = counters-InvBut s ep q.num_tas (q.num_linux - 1) q.linux_next inv in
    unless-Inv (q.num_linux == 0) gone t res e kept
linux_ctl-Inv s t ep ctl_mod true res e inv = let is : s ≡ t = cc e in subst Inv is inv
linux_ctl-Inv s t ep ctl_other true res e inv = let is : s ≡ t = cc e in subst Inv is inv

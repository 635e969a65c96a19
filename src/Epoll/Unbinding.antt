-- ===== src/Epoll/Unbinding.antt =====
-- es_remove_sock and es_remove_ep of a binding (lib/sockets/epoll.c): the lists that they leave.
use tas_smartnic.Prelude.{
  ℕ, ◌-◌, ◌<◌, ◌≡◌, refl, ap, ◌∙◌, true, false, Option, some, List, ◌∷◌, arith, ◌==◌, if◌then◌else◌,
  ==-same,
}
use tas_smartnic.Epoll.State.{
  State, remove, es_remove_active, es_remove_inactive, es_remove_ep, es_remove_sock,
}
use tas_smartnic.Epoll.Control.{unbind_each}
use tas_smartnic.Epoll.Polled.{remove_head}
use tas_smartnic.Epoll.Deactivation.{without, es_remove_active-some}

remove_busy : (s : State) (e : ℕ) → (s.es e).active ≡ true → es_remove_ep s e ≡ es_remove_active s e
unfolding es_remove_ep
remove_busy s e on = rw on refl

-- A list that loses its first element, where `f` are the lists before.
pub head_lost :
    (f : ℕ → List ℕ) (now : List ℕ) (e k m : ℕ) (es : List ℕ)
    → m ≡ k
    → f k ≡ e ∷ es
    → now ≡ (if k == m then remove e (f m) else f k)
    → now ≡ es
head_lost f now e k m es same lists is =
    let test : (k == m) ≡ true = rw (same, ==-same k) refl in
    let off : remove e (f m) ≡ es = rw same (ap (remove e) lists ∙ remove_head e es) in
    is ∙ ap (λ b. if b then remove e (f m) else f k) test ∙ off

pub unbind_more :
    (s t : State) (e : ℕ) (es : List ℕ) (u : Option State)
    → es_remove_ep (es_remove_sock s e) e ≡ some t
    → unbind_each es t ≡ u
    → unbind_each (e ∷ es) s ≡ u
unfolding unbind_each
unbind_more s t e es u gone rest = rw (unbind_each, gone) rest

-- es_remove_sock and es_remove_ep of an inactive binding.
module _ (s : State) (e : ℕ) where
  abbrev pub off_socket : State
  off_socket = es_remove_sock s e

  pub idle_gone :
      (s.es e).active ≡ false → es_remove_ep off_socket e ≡ some (es_remove_inactive off_socket e)
  unfolding es_remove_ep es_remove_sock
  idle_gone off = rw (es_remove_ep, off) refl

  pub idle_eps :
      (k : ℕ)
      → ((es_remove_inactive off_socket e).socket k).eps
        ≡ (if k == (s.es e).s then remove e (s.socket (s.es e).s).eps else (s.socket k).eps)
  unfolding es_remove_inactive es_remove_sock
  idle_eps k = ground arith

  pub idle_inactive :
      (q : ℕ)
      → ((es_remove_inactive off_socket e).epoll q).inactive ≡ (
          if q == (s.es e).ep
          then remove e (s.epoll (s.es e).ep).inactive
          else (s.epoll q).inactive)
  unfolding es_remove_inactive es_remove_sock
  idle_inactive q = ground arith

  pub idle_active :
      (q : ℕ)
      → ((es_remove_inactive off_socket e).epoll q).active
        ≡ (if q == (s.es e).ep then (s.epoll (s.es e).ep).active else (s.epoll q).active)
  unfolding es_remove_inactive es_remove_sock
  idle_active q = ground arith

  pub idle_count :
      (q : ℕ)
      → ((es_remove_inactive off_socket e).epoll q).num_active
        ≡ (if q == (s.es e).ep then (s.epoll (s.es e).ep).num_active else (s.epoll q).num_active)
  unfolding es_remove_inactive es_remove_sock
  idle_count q = ground arith

  pub idle_events :
      (k : ℕ) → ((es_remove_inactive off_socket e).socket k).ep_events ≡ (s.socket k).ep_events
  unfolding es_remove_inactive es_remove_sock
  idle_events k = ground arith

  pub idle_es : (i : ℕ) → (es_remove_inactive off_socket e).es i ≡ s.es i
  unfolding es_remove_inactive es_remove_sock
  idle_es i = refl

  pub busy_gone :
      (s.es e).active ≡ true
      → 0 < (s.epoll (s.es e).ep).num_active
      → es_remove_ep off_socket e ≡ some (without off_socket e)
  unfolding es_remove_ep es_remove_sock
  busy_gone on pos =
      let there : es_remove_active off_socket e ≡ some (without off_socket e) =
        es_remove_active-some off_socket e on pos in
      remove_busy off_socket e on ∙ there

  pub busy_eps :
      (k : ℕ)
      → ((without off_socket e).socket k).eps
        ≡ (if k == (s.es e).s then remove e (s.socket (s.es e).s).eps else (s.socket k).eps)
  unfolding es_remove_sock
  busy_eps k = ground arith

  pub busy_inactive :
      (q : ℕ)
      → ((without off_socket e).epoll q).inactive
        ≡ (if q == (s.es e).ep then (s.epoll (s.es e).ep).inactive else (s.epoll q).inactive)
  unfolding es_remove_sock
  busy_inactive q = ground arith

  pub busy_active :
      (q : ℕ)
      → ((without off_socket e).epoll q).active
        ≡ (if q == (s.es e).ep then remove e (s.epoll (s.es e).ep).active else (s.epoll q).active)
  unfolding es_remove_sock
  busy_active q = ground arith

  pub busy_count :
      (q : ℕ)
      → ((without off_socket e).epoll q).num_active ≡ (
          if q == (s.es e).ep then (s.epoll (s.es e).ep).num_active - 1 else (s.epoll q).num_active)
  unfolding es_remove_sock
  busy_count q = ground arith

  pub busy_events : (k : ℕ) → ((without off_socket e).socket k).ep_events ≡ (s.socket k).ep_events
  unfolding es_remove_sock
  busy_events k = ground arith

  pub busy_es : (i : ℕ) → (without off_socket e).es i ≡ s.es i
  unfolding es_remove_sock
  busy_es i = refl

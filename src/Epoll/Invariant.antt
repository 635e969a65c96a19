-- ===== src/Epoll/Invariant.antt =====
-- What holds of the lists of lib/sockets/epoll.c between its operations, and inside them.
use tas_smartnic.Prelude.{
  ℕ, ◌+◌, ◌^◌, ◌<◌, ◌≡◌, ◌⊎◌, Bool, true, false, length, if◌then◌else◌, Distinct, Listed,
}
use tas_smartnic.Epoll.State.{State, is_ready}

-- A binding stands in one of the lists of an epoll: the flag is right, and its socket knows it.
pub record Stands (s : State) (b : Bool) (p e : ℕ) : Type 0 where
  pub flag : (s.es e).active ≡ b
  pub owner : (s.es e).ep ≡ p
  pub known : Listed e (s.socket (s.es e).s).eps

-- A binding that its socket knows stands in the list that its flag says.
abbrev pub Placed : State → ℕ → Type 0
Placed s e =
    Listed e
      (if (s.es e).active then (s.epoll (s.es e).ep).active else (s.epoll (s.es e).ep).inactive)

-- The invariant, but for bindings that may be ready and inactive, which `Todo` says.
pub record InvBut (Todo : ℕ → Type 0) (s : State) : Type 0 where
  pub once_inactive : (p : ℕ) → Distinct (s.epoll p).inactive
  pub once_active : (p : ℕ) → Distinct (s.epoll p).active
  pub once_eps : (k : ℕ) → Distinct (s.socket k).eps
  pub idle : (p e : ℕ) → Listed e (s.epoll p).inactive → Stands s false p e
  pub busy : (p e : ℕ) → Listed e (s.epoll p).active → Stands s true p e
  pub waits : (p e : ℕ) → Listed e (s.epoll p).inactive → (is_ready s e ≡ false) ⊎ Todo e
  pub bound : (k e : ℕ) → Listed e (s.socket k).eps → ((s.es e).s ≡ k) × Placed s e
  pub count : (p : ℕ) → (s.epoll p).num_active ≡ length (s.epoll p).active
  pub few : (p : ℕ) → length (s.epoll p).active + length (s.epoll p).inactive < 2 ^ 32

-- No binding with an unmasked event pending is inactive, and all lists are in order.
abbrev pub Inv : State → Type 0
Inv s = InvBut (λ e. ⊥) s

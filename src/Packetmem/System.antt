-- ===== src/Packetmem/System.antt =====
-- A history of calls of the allocator: who holds which addresses. Handles come from
-- packetmem_alloc, and are freed at most once.
use tas_smartnic.Prelude.{
  ◌≤◌, ap, subst, ℕ, ◌+◌, ◌^◌, ◌<◌, ◌≡◌, Bool, true, some, List, [], ◌∷◌, ltb, if◌then◌else◌, arith,
  All, ◌++◌,
}
use tas_smartnic.Packetmem.Freelist.{Handle, packetmem_init, packetmem_alloc, packetmem_free}
use tas_smartnic.Packetmem.Cover.{
  covers, cover, Within, Allocated, alloc-Allocated, cover-free, free-Within,
}

-- The free list, and the handles that callers hold.
pub record State : Type 0 where
  pub free : List Handle
  pub held : List Handle

-- A successful packetmem_alloc, and packetmem_free of a held handle; what fails changes nothing.
pub data Step : State → State → Type 0 where
  alloc :
      {s : State} {h : Handle} {rest : List Handle} (ok : Bool) (n : ℕ)
      → packetmem_alloc ok n s.free ≡ some (h, rest)
      → Step s (record { free = rest; held = h ∷ s.held })
  free :
      {s : State} (before after : List Handle) (h : Handle)
      → s.held ≡ before ++ (h ∷ after)
      → Step s (record { free = packetmem_free h s.free; held = before ++ after })

pub data Reach (size : ℕ) : State → Type 0 where
  init :
      {fl : List Handle}
      → packetmem_init true size ≡ some fl
      → Reach size (record { free = fl; held = [] })
  next : {s t : State} → Reach size s → Step s t → Reach size t

-- Each address below the size of the memory is free once or held once, and no other is either.
pub record Inv (size a : ℕ) (s : State) : Type 0 where
  pub free_in : All (Within size) s.free
  pub held_in : All (Within size) s.held
  pub once : cover a s.free + cover a s.held ≡ (if ltb a size then 1 else 0)

cover-append : (a : ℕ) (xs ys : List Handle) → cover a (xs ++ ys) ≡ cover a xs + cover a ys
cover-append a [] ys = omega arith
cover-append a (x ∷ xs) ys = omega (arith, cover-append a xs ys)

All-middle :
    (size : ℕ) (xs : List Handle) (h : Handle) (ys : List Handle)
    → All (Within size) (xs ++ (h ∷ ys))
    → Within size h
All-middle size [] h ys v = v.0
All-middle size (x ∷ xs) h ys v = All-middle size xs h ys v.1

All-without :
    (size : ℕ) (xs : List Handle) (h : Handle) (ys : List Handle)
    → All (Within size) (xs ++ (h ∷ ys))
    → All (Within size) (xs ++ ys)
All-without size [] h ys v = v.1
All-without size (x ∷ xs) h ys v = (v.0, All-without size xs h ys v.1)

module _ (size : ℕ) (small : size < 2 ^ 64) (a : ℕ) where
  Step-Inv : {s t : State} → Step s t → Inv size a s → Inv size a t
  Step-Inv {s} (alloc {h} {rest} ok n e) v =
      let got : Allocated a size small n s.free (some (h, rest)) =
        subst (Allocated a size small n s.free) e
          (alloc-Allocated a size small ok n s.free v.free_in) in
      record { free_in = got.2; held_in = (got.1, v.held_in); once = omega (arith, got.3, v.once) }
  Step-Inv {s} (free before after h e) v =
      let parts : All (Within size) (before ++ (h ∷ after)) =
        subst (All (Within size)) e v.held_in in
      let h_in : Within size h = All-middle size before h after parts in
      record {
        free_in = free-Within a size small h s.free h_in v.free_in;
        held_in = All-without size before h after parts;
        once = omega (
          arith,
          cover-free a size small h s.free h_in v.free_in,
          ap (cover a) e,
          cover-append a before (h ∷ after),
          cover-append a before after,
          v.once,
        );
      }

  -- The invariant holds in every reachable state.
  pub Reach-Inv : {s : State} → Reach size s → Inv size a s
  unfolding packetmem_init
  Reach-Inv (init e) = ground arith
  Reach-Inv (next r st) = Step-Inv st (Reach-Inv r)

  -- Two blocks held at the same time have no address in common, and none with the free list.
  pub held_disjoint :
      {s : State} (front mid back : List Handle) (h k : Handle)
      → Reach size s
      → s.held ≡ front ++ (h ∷ (mid ++ (k ∷ back)))
      → covers a h + covers a k + cover a s.free ≤ 1
  held_disjoint {s} front mid back h k r e = ground (
    arith,
    (Reach-Inv r).once,
    ap (cover a) e,
    cover-append a front (h ∷ (mid ++ (k ∷ back))),
    cover-append a mid (k ∷ back),
  )

  -- Nothing leaks: once every block was freed, each address of the memory is free again, once.
  pub all_returned :
      {s : State} → Reach size s → s.held ≡ [] → cover a s.free ≡ (if ltb a size then 1 else 0)
  all_returned {s} r e = omega (arith, (Reach-Inv r).once, ap (cover a) e)

-- ===== src/Packetmem/Fit.antt =====
-- When packetmem_alloc fails, which handle it takes, and what packetmem_free fails to merge.
use tas_smartnic.Prelude.{
  subst, lt→ltb, inr, inl, Option-cases, ◌++◌, ◌↔◌, ℕ, ◌+◌, ◌^◌, ◌≤◌, ◌<◌, ◌≡◌, ◌≢◌, refl, Bool,
  true, Option, none, some, List, [], ◌∷◌, arith, All,
}
use tas_smartnic.Packetmem.Freelist.{
  Handle, split_handle, keep_front, packetmem_alloc, merge_next, packetmem_free,
}

-- Every block is too short.
abbrev pub Shorter : ℕ → Handle → Type 0
Shorter n h = h.len < n

-- With memory for the handle, packetmem_alloc fails just when no free block is long enough.
pub alloc_fails_iff :
    (n : ℕ) (hs : List Handle) → (packetmem_alloc true n hs ≡ none) ↔ All (Shorter n) hs
unfolding packetmem_alloc split_handle
alloc_fails_iff n [] = (λ _. tt, λ _. refl)
alloc_fails_iff n (p ∷ r) = elim (Option-cases (packetmem_alloc true n r)) [
  | inl e ↦ (λ h. (ground arith, (alloc_fails_iff n r).0 e), λ w. ground arith)
  | inr (x, e) ↦ (λ h. absurd (fits x e h), λ w. absurd (taken x e ((alloc_fails_iff n r).1 w.1)))
]
  where
    fits :
        (x : Handle × List Handle)
        → packetmem_alloc true n r ≡ some x
        → packetmem_alloc true n (p ∷ r) ≢ none
    fits (h, rest) e = ground arith

    taken :
        (x : Handle × List Handle)
        → packetmem_alloc true n r ≡ some x
        → packetmem_alloc true n r ≢ none
    taken x e f = cc

-- The allocated block starts at `p`, and has the length that was asked for.
abbrev TakesFrom : Handle → ℕ → Option (Handle × List Handle) → Type 0
TakesFrom p n none = Unit
TakesFrom p n (some (h, rest)) = (h.base ≡ p.base) × (h.len ≡ n)

keep_front-TakesFrom :
    (p q : Handle) (n : ℕ) (o : Option (Handle × List Handle))
    → TakesFrom p n o
    → TakesFrom p n (keep_front q o)
keep_front-TakesFrom p q n none t = tt
keep_front-TakesFrom p q n (some (h, rest)) t = t

takes_first :
    (ok : Bool) (n : ℕ) (front : List Handle) (p : Handle) (back : List Handle)
    → All (Shorter n) front
    → n ≤ p.len
    → TakesFrom p n (packetmem_alloc ok n (front ++ (p ∷ back)))
unfolding packetmem_alloc split_handle
takes_first ok n [] p back w le = ground arith
takes_first ok n (q ∷ front) p back w le =
    rw (lt→ltb _ _ w.0) (keep_front-TakesFrom p q n _ (takes_first ok n front p back w.1 le))

-- First fit: blocks that are too short are passed over, and the first that is long enough is used,
-- from its start.
pub alloc_first_fit :
    (ok : Bool) (n : ℕ) (front : List Handle) (p : Handle) (back : List Handle)
    → All (Shorter n) front
    → n ≤ p.len
    → {h : Handle} {rest : List Handle}
    → packetmem_alloc ok n (front ++ (p ∷ back)) ≡ some (h, rest)
    → (h.base ≡ p.base) × (h.len ≡ n)
alloc_first_fit ok n front p back w le e =
    subst (TakesFrom p n) e (takes_first ok n front p back w le)

-- packetmem_free compares the handle with the successor of the block it stands at, so a block that
-- belongs behind a sole free block goes in front of it, and the two are not merged: the memory is
-- contiguous and free, and cannot be allocated in one piece.
pub free_leaves_gap :
    (p h : Handle)
    → 0 < p.len
    → 0 < h.len
    → p.base + p.len ≡ h.base
    → h.base + h.len < 2 ^ 64
    → (packetmem_free h (p ∷ []) ≡ h ∷ p ∷ [])
      × (packetmem_alloc true (p.len + h.len) (packetmem_free h (p ∷ [])) ≡ none)
unfolding packetmem_free merge_next packetmem_alloc
free_leaves_gap p h a b c d = ground arith

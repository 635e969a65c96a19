-- ===== src/Packetmem/Cover.antt =====
-- Which addresses a list of handles covers, and how often: an allocation takes exactly the addresses
-- that it returns off the free list, and a free puts exactly those back.
use tas_smartnic.Prelude.{
  none, ltb_false→le, inr, inl, Bool-cases, Bool, some, Option, ℕ, ◌+◌, ◌^◌, ◌≤◌, ◌<◌, ◌≡◌, refl,
  List, [], ◌∷◌, ltb, leb, ◌&&◌, if◌then◌else◌, add64, All, arith,
}
use tas_smartnic.Packetmem.Freelist.{
  keep_front, packetmem_alloc, split_handle, Handle, merge_next, merge_items, free_after,
  packetmem_free,
}

-- 1 if the handle's block holds address `a`, else 0.
abbrev pub covers : ℕ → Handle → ℕ
covers a h = if leb h.base a && ltb a (h.base + h.len) then 1 else 0

-- How many blocks of the list hold address `a`.
abbrev pub cover : ℕ → List Handle → ℕ
cover a [] = 0
cover a (h ∷ hs) = covers a h + cover a hs

-- The block lies below `size`.
abbrev pub Within : ℕ → Handle → Type 0
Within size h = h.base + h.len ≤ size

module _ (a size : ℕ) (small : size < 2 ^ 64) where
  cover-merge_next :
      (h : Handle) (hs : List Handle)
      → Within size h
      → All (Within size) hs
      → cover a (merge_next h hs) ≡ covers a h + cover a hs
  unfolding merge_next
  cover-merge_next h [] v w = refl
  cover-merge_next h (n ∷ r) v w = ground arith

  merge_next-Within :
      (h : Handle) (hs : List Handle)
      → Within size h
      → All (Within size) hs
      → All (Within size) (merge_next h hs)
  unfolding merge_next
  merge_next-Within h [] v w = (v, w)
  merge_next-Within h (n ∷ r) v w = ground arith

  cover-merge_items :
      (p h : Handle) (hs : List Handle)
      → Within size p
      → Within size h
      → All (Within size) hs
      → cover a (merge_items p h hs) ≡ covers a p + covers a h + cover a hs
  unfolding merge_items
  cover-merge_items p h hs u v w =
      ground (
        arith,
        cover-merge_next h hs v w,
        cover-merge_next (record p { len = add64 p.len h.len }) hs,
      )

  merge_items-Within :
      (p h : Handle) (hs : List Handle)
      → Within size p
      → Within size h
      → All (Within size) hs
      → All (Within size) (merge_items p h hs)
  unfolding merge_items
  merge_items-Within p h hs u v w = ground (
    arith,
    merge_next-Within h hs v w,
    merge_next-Within (record p { len = add64 p.len h.len }) hs,
  )

  cover-free_after :
      (h p : Handle) (hs : List Handle)
      → Within size h
      → Within size p
      → All (Within size) hs
      → cover a (free_after h p hs) ≡ covers a h + covers a p + cover a hs
  unfolding free_after
  cover-free_after h p [] v u w = omega (arith, cover-merge_items p h [] u v w)
  cover-free_after h p (q ∷ []) v u w = omega (arith, cover-merge_items p h (q ∷ []) u v w)
  cover-free_after h p (q ∷ n ∷ r) v u w =
      ground
        (arith, cover-merge_items p h (q ∷ n ∷ r) u v w, cover-free_after h q (n ∷ r) v w.0 w.1)

  free_after-Within :
      (h p : Handle) (hs : List Handle)
      → Within size h
      → Within size p
      → All (Within size) hs
      → All (Within size) (free_after h p hs)
  unfolding free_after
  free_after-Within h p [] v u w = merge_items-Within p h [] u v w
  free_after-Within h p (q ∷ []) v u w = merge_items-Within p h (q ∷ []) u v w
  free_after-Within h p (q ∷ n ∷ r) v u w =
      ground
        (arith, merge_items-Within p h (q ∷ n ∷ r) u v w, free_after-Within h q (n ∷ r) v w.0 w.1)

  -- packetmem_free adds exactly the handle's addresses to the free list.
  pub cover-free :
      (h : Handle) (hs : List Handle)
      → Within size h
      → All (Within size) hs
      → cover a (packetmem_free h hs) ≡ covers a h + cover a hs
  unfolding packetmem_free
  cover-free h [] v w = cover-merge_next h [] v w
  cover-free h (p ∷ []) v w = cover-merge_next h (p ∷ []) v w
  cover-free h (p ∷ n ∷ r) v w =
      ground (arith, cover-merge_next h (p ∷ n ∷ r) v w, cover-free_after h p (n ∷ r) v w.0 w.1)

  pub free-Within :
      (h : Handle) (hs : List Handle)
      → Within size h
      → All (Within size) hs
      → All (Within size) (packetmem_free h hs)
  unfolding packetmem_free
  free-Within h [] v w = merge_next-Within h [] v w
  free-Within h (p ∷ []) v w = merge_next-Within h (p ∷ []) v w
  free-Within h (p ∷ n ∷ r) v w =
      ground (arith, merge_next-Within h (p ∷ n ∷ r) v w, free_after-Within h p (n ∷ r) v w.0 w.1)

  -- What a successful allocation gives: the length that was asked for, within the memory, and just
  -- those addresses leave the free list.
  abbrev pub Allocated : ℕ → List Handle → Option (Handle × List Handle) → Type 0
  Allocated n hs none = Unit
  Allocated n hs (some (h, rest)) =
      (h.len ≡ n)
      × Within size h
      × All (Within size) rest
      × (cover a hs ≡ covers a h + cover a rest)

  split_handle-Allocated :
      (ok : Bool) (n : ℕ) (p : Handle) (r : List Handle)
      → n ≤ p.len
      → Within size p
      → All (Within size) r
      → Allocated n (p ∷ r) (split_handle ok n p r)
  unfolding split_handle
  split_handle-Allocated ok n p r le v w = ground arith

  keep_front-Allocated :
      (n : ℕ) (p : Handle) (r : List Handle) (o : Option (Handle × List Handle))
      → Within size p
      → Allocated n r o
      → Allocated n (p ∷ r) (keep_front p o)
  keep_front-Allocated n p r none v w = tt
  keep_front-Allocated n p r (some (h, rest)) v w = (w.0, w.1, (v, w.2), omega arith)

  pub alloc-Allocated :
      (ok : Bool) (n : ℕ) (hs : List Handle)
      → All (Within size) hs
      → Allocated n hs (packetmem_alloc ok n hs)
  unfolding packetmem_alloc
  alloc-Allocated ok n [] v = tt
  alloc-Allocated ok n (p ∷ r) v = elim (Bool-cases (ltb p.len n)) [
    | inl short ↦ rw short (keep_front-Allocated n p r _ v.0 (alloc-Allocated ok n r v.1))
    | inr fits ↦ rw fits (split_handle-Allocated ok n p r (ltb_false→le _ _ fits) v.0 v.1)
  ]

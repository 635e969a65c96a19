-- ===== src/Packetmem/Freelist.antt =====
-- The free list of packetmem.c and its operations. A handle's `next` pointer is its place in the
-- list; `malloc_ok` says whether malloc gives memory for a new handle. An address is below 2^64.
use tas_smartnic.Prelude.{
  ℕ, Bool, Option, none, some, List, [], ◌∷◌, ltb, ◌==◌, if◌then◌else◌, add64, sub64,
}

-- struct packetmem_handle
pub record Handle : Type 0 where
  pub base : ℕ
  pub len : ℕ

-- packetmem_init, with tas_info->dma_mem_size; `none` is -1.
unfoldable pub packetmem_init : Bool → ℕ → Option (List Handle)
packetmem_init malloc_ok dma_mem_size =
    if malloc_ok then some (record { base = 0; len = dma_mem_size } ∷ []) else none

-- packetmem_alloc at the first handle that is large enough: the whole of it, or its front.
unfoldable pub split_handle : Bool → ℕ → Handle → List Handle → Option (Handle × List Handle)
split_handle malloc_ok length ph rest =
    if ph.len == length
    then some (ph, rest)
    else if malloc_ok
    then some (
      record { base = ph.base; len = length },
      record { base = add64 (ph.base) length; len = sub64 (ph.len) length } ∷ rest,
    )
    else none

abbrev pub keep_front : Handle → Option (Handle × List Handle) → Option (Handle × List Handle)
keep_front ph none = none
keep_front ph (some (h, rest)) = some (h, ph ∷ rest)

-- packetmem_alloc: the new handle and the free list behind it; `none` is -1.
unfoldable pub packetmem_alloc : Bool → ℕ → List Handle → Option (Handle × List Handle)
packetmem_alloc malloc_ok length [] = none
packetmem_alloc malloc_ok length (ph ∷ rest) =
    let later = keep_front ph (packetmem_alloc malloc_ok length rest) in
    if ltb (ph.len) length then later else split_handle malloc_ok length ph rest

-- merge_items, the part that merges with the successor.
unfoldable pub merge_next : Handle → List Handle → List Handle
merge_next ph [] = ph ∷ []
merge_next ph (next ∷ rest) =
    if add64 (ph.base) (ph.len) == next.base
    then record ph { len = add64 (ph.len) (next.len) } ∷ rest
    else ph ∷ next ∷ rest

-- merge_items with a predecessor.
unfoldable pub merge_items : Handle → Handle → List Handle → List Handle
merge_items prev ph rest =
    if add64 (prev.base) (prev.len) == ph.base
    then merge_next (record prev { len = add64 (prev.len) (ph.len) }) rest
    else prev ∷ merge_next ph rest

-- The loop of packetmem_free once there is a predecessor: the handle goes in front of `ph`, the first
-- one that is last or whose successor has a base that is no smaller.
unfoldable pub free_after : Handle → Handle → List Handle → List Handle
free_after handle prev [] = merge_items prev handle []
free_after handle prev (ph ∷ []) = merge_items prev handle (ph ∷ [])
free_after handle prev (ph ∷ next ∷ rest) =
    let later = prev ∷ free_after handle ph (next ∷ rest) in
    if ltb (next.base) (handle.base) then later else merge_items prev handle (ph ∷ next ∷ rest)

-- packetmem_free
unfoldable pub packetmem_free : Handle → List Handle → List Handle
packetmem_free handle [] = merge_next handle []
packetmem_free handle (ph ∷ []) = merge_next handle (ph ∷ [])
packetmem_free handle (ph ∷ next ∷ rest) =
    if ltb (next.base) (handle.base)
    then free_after handle ph (next ∷ rest)
    else merge_next handle (ph ∷ next ∷ rest)

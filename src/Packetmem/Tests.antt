-- ===== src/Packetmem/Tests.antt =====
-- Runs of the allocator, and its theorems at a small memory.
use tas_smartnic.Prelude.{ℕ, ◌+◌, ◌≤◌, ◌≡◌, refl, true, [], ◌∷◌, arith}
use tas_smartnic.Packetmem.Freelist.{
  Handle, packetmem_init, split_handle, packetmem_alloc, merge_next, packetmem_free,
}
use tas_smartnic.Packetmem.Cover.{cover, covers}
use tas_smartnic.Packetmem.System.{
  alloc, free, Reach, init, next, Inv, Reach-Inv, held_disjoint, all_returned,
}

abbrev block : ℕ → ℕ → Handle
block base len = record { base = base; len = len }

start : Reach 100 (record { free = block 0 100 ∷ []; held = [] })
unfolding packetmem_init
start = init refl

one_held : Reach 100 (record { free = block 30 70 ∷ []; held = block 0 30 ∷ [] })
unfolding packetmem_alloc split_handle
one_held = next start (alloc true 30 refl)

two_held : Reach 100 (record { free = block 50 50 ∷ []; held = block 30 20 ∷ block 0 30 ∷ [] })
unfolding packetmem_alloc split_handle
two_held = next one_held (alloc true 20 refl)

all_free : Reach 100 (record { free = block 0 100 ∷ []; held = [] })
unfolding packetmem_free merge_next
all_free = next one_held (free [] [] (block 0 30) refl)

Reach-Inv_example :
    Inv 100 35 (record { free = block 50 50 ∷ []; held = block 30 20 ∷ block 0 30 ∷ [] })
Reach-Inv_example = Reach-Inv 100 (omega arith) 35 two_held

held_disjoint_example : covers 35 (block 30 20) + covers 35 (block 0 30) + 0 ≤ 1
held_disjoint_example =
    held_disjoint 100 (omega arith) 35 [] [] [] (block 30 20) (block 0 30) two_held refl

all_returned_example : cover 35 (block 0 100 ∷ []) ≡ 1
all_returned_example = all_returned 100 (omega arith) 35 all_free refl

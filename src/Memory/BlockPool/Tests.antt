-- ===== src/Memory/BlockPool/Tests.antt =====
-- A pool of three blocks through concrete calls.
use bare_metal_rtos.Base.{arith, ℕ, ◌≡◌, refl, true, false, some, Option, [], ◌∷◌, erase, counting}
use bare_metal_rtos.Base.Int.{pos}
use bare_metal_rtos.Memory.BlockPool.{
  BlockPool, init, build_free_list, link_blocks, align_block_size, alloc_loop, free,
}
use bare_metal_rtos.Memory.BlockPool.Ownership.{
  popped-IsValid, IsValid, free-IsValid, alloc_loop-Gives, Gives,
}
use bare_metal_rtos.Memory.BlockPool.Building.{init-IsValid}

abbrev three : BlockPool
three = record {
  storage = 4096;
  free_list = 4096 ∷ 4108 ∷ 4120 ∷ [];
  cv = [];
  block_size = 12;
  capacity = 3;
  used_count = 0;
}

-- Blocks of 10 bytes take 12.
init-three : init 3 10 4096 48 ≡ some three
unfolding init build_free_list link_blocks align_block_size
init-three = refl

three-IsValid : IsValid three []
unfolding align_block_size
three-IsValid = init-IsValid 3 10 4096 48 three init-three (omega arith)

alloc_loop-Gives_example : Gives three [] (alloc_loop 1 (pos 0) false three)
alloc_loop-Gives_example = alloc_loop-Gives 1 (pos 0) three [] three-IsValid

-- After the first block has been given.
abbrev two : BlockPool
two = record three { free_list = 4108 ∷ 4120 ∷ []; used_count = 1 }

two-IsValid : IsValid two (4096 ∷ [])
two-IsValid = popped-IsValid 1 (pos 0) three [] three-IsValid 4096 (4108 ∷ 4120 ∷ []) refl

free-IsValid_example :
    (w : Option ℕ) × (p' : BlockPool) × (free true 4096 two ≡ some (true, w, p'))
    × (p'.free_list ≡ 4096 ∷ two.free_list)
    × IsValid p' (erase 4096 (4096 ∷ []))
free-IsValid_example = free-IsValid true 4096 two (4096 ∷ []) two-IsValid (omega counting)

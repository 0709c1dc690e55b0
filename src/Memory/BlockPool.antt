-- ===== src/Memory/BlockPool.antt =====
-- stk::memory::BlockMemoryPool of stk/include/memory/stk_memory_blockpool.h with storage that the caller
-- supplies. A block is its address; the free list, linked through the first words of the free blocks, is the
-- sequence of these. Words and pointers have 32 bits, so BLOCK_ALIGN is 4. `is_debug` tells a build with
-- _DEBUG, which looks for a double free. TimedAlloc() is split where it suspends: `alloc_loop` goes from the
-- test of its loop on, at the call and whenever Free() has woken the task. `none` is a failed STK_ASSERT.
pub mod Ownership
pub mod Building
pub mod Tests
use bare_metal_rtos.Base.{
  ℕ, zero, suc, ◌+◌, ◌-◌, ◌*◌, ◌%◌, ◌^◌, ◌≡◌, Bool, true, false, not, ◌&&◌, ◌||◌, Option, none,
  some, List, [], ◌∷◌, ◌==◌, ltb, leb, if◌then◌else◌, count, bit_and,
}
use bare_metal_rtos.Base.Bits.{bit_not}
use bare_metal_rtos.Base.Int.{ℤ}
use bare_metal_rtos.Sync.WaitList.{Waiter, eq_ℤ, no_wait}
use bare_metal_rtos.Sync.Semaphore.{Outcome, acquired, refused, blocks, u16}
use bare_metal_rtos.Sync.ConditionVariable.{wait, notify_one}

pub record BlockPool : Type 0 where
  pub storage : ℕ
  pub free_list : List ℕ
  pub cv : List Waiter
  pub block_size : ℕ
  pub capacity : ℕ
  pub used_count : ℕ

abbrev pub block_align : ℕ
block_align = 4

pub align_block_size : ℕ → ℕ
align_block_size raw_size =
    let rounded = bit_and (raw_size + (block_align - 1)) (bit_not 32 (block_align - 1)) in
    if ltb rounded block_align then block_align else rounded

-- The rounds of the loop of BuildFreeList() for the `n` first blocks, from the last of them down.
pub link_blocks : ℕ → ℕ → ℕ → List ℕ → List ℕ
link_blocks storage block_size zero free = free
link_blocks storage block_size (suc i) free =
    link_blocks storage block_size i ((storage + i * block_size) ∷ free)

pub build_free_list : BlockPool → Option BlockPool
unfolding link_blocks
build_free_list p =
    if p.storage % block_align == 0
    then some
        (record p { free_list = link_blocks p.storage p.block_size p.capacity []; used_count = 0 })
    else none

-- The storage is not null and is large enough.
pub init : ℕ → ℕ → ℕ → ℕ → Option BlockPool
init capacity raw_block_size storage storage_size =
    let block_size = align_block_size raw_block_size in
    if ltb 0 capacity
      && leb capacity 65534
      && ltb 0 raw_block_size
      && not (storage == 0)
      && leb (capacity * block_size) storage_size
    then build_free_list (record {
      storage = storage;
      free_list = [];
      cv = [];
      block_size = block_size;
      capacity = capacity;
      used_count = 0;
    })
    else none

-- The head of the free list, which the caller has found not to be null.
pub pop_free_list : BlockPool → Option (ℕ × BlockPool)
pop_free_list p =
    if ltb p.used_count p.capacity
    then (elim p.free_list [
      | [] ↦ none
      | b ∷ rest ↦ some (b, record p { free_list = rest; used_count = u16 (p.used_count + 1) })
    ])
    else none

-- The block, if one is given, and whether the task waits for one.
pub data Allocated : Type 0 where
  gives : ℕ → Allocated
  gives_null waits : Allocated

pub alloc_loop : ℕ → ℤ → Bool → BlockPool → Option (Allocated × BlockPool)
unfolding pop_free_list
alloc_loop tid timeout_ticks in_isr p = elim p.free_list [
  | [] ↦ elim (wait tid timeout_ticks in_isr p.cv) [
    | none ↦ none
    | some (acquired, ws) ↦ none
    | some (refused, ws) ↦ some (gives_null, p)
    | some (blocks, ws) ↦ some (waits, record p { cv = ws })
  ]
  | b ∷ rest ↦ elim (pop_free_list p) [ none ↦ none | some (b', p') ↦ some (gives b', p') ]
]

pub timed_alloc : ℕ → ℤ → Bool → BlockPool → Option (Allocated × BlockPool)
unfolding alloc_loop
timed_alloc tid timeout_ticks in_isr p =
    if not in_isr || eq_ℤ timeout_ticks no_wait then alloc_loop tid timeout_ticks in_isr p else none

-- What is returned, the task that is woken, and the pool after it.
pub free : Bool → ℕ → BlockPool → Option (Bool × Option ℕ × BlockPool)
free is_debug ptr p =
    if ptr == 0
    then some (false, none, p)
    else (if ltb ptr p.storage || leb ((p.storage + p.capacity * p.block_size) % 2 ^ 32) ptr
        then none
        else (if not ((ptr - p.storage) % p.block_size == 0)
            then none
            else (if p.used_count == 0
                then none
                else (if is_debug && not (count ptr p.free_list == 0)
                    then none
                    else (let (woken, left) = notify_one p.cv in
                        some (
                          true,
                          woken,
                          record p {
                            free_list = ptr ∷ p.free_list;
                            used_count = u16 (p.used_count + 2 ^ 16 - 1);
                            cv = left;
                          },
                        ))))))

-- ===== src/Memory/BlockPool/Ownership.antt =====
-- Every block of the pool is free or held by one task, whatever the tasks do with the blocks they hold.
use bare_metal_rtos.Base.{
  Bool-cases, ℕ, ◌+◌, ◌-◌, ◌*◌, ◌%◌, ◌^◌, ◌≡◌, ◌≢◌, ◌≤◌, ◌<◌, refl, arith, ap, Bool, true, false,
  Option, some, List, [], ◌∷◌, ◌⊎◌, inl, inr, count, erase, counting, length, count-erase_cases,
}
use native.Mathlib.Nat.{mod-eq_of_lt}
use bare_metal_rtos.Base.Int.{ℤ}
use bare_metal_rtos.Sync.ConditionVariable.{wait, notify_one}
use bare_metal_rtos.Sync.Semaphore.{u16}
use bare_metal_rtos.Sync.WaitList.{setup_wait, Waiter}
use bare_metal_rtos.Sync.ConditionVariable.{wait}
use bare_metal_rtos.Memory.BlockPool.{
  no_wait, eq_ℤ, BlockPool, Allocated, gives, gives_null, waits, alloc_loop, pop_free_list, free,
}

-- The start of a block of the pool.
pub record IsBlock (p : BlockPool) (u : ℕ) : Type 0 where
  pub real : u ≢ 0
  pub from : p.storage ≤ u
  pub to : u < p.storage + p.capacity * p.block_size
  pub aligned : (u - p.storage) % p.block_size ≡ 0

-- The pool with the blocks that tasks hold.
pub record IsValid (p : BlockPool) (held : List ℕ) : Type 0 where
  -- no block is in two places
  pub once : (u : ℕ) → count u p.free_list + count u held ≤ 1
  pub blocks : (u : ℕ) → 0 < count u p.free_list + count u held → IsBlock p u
  -- no block is lost
  pub total : length p.free_list + length held ≡ p.capacity
  pub used : p.used_count ≡ length held
  pub limit : p.capacity ≤ 65534
  -- the storage ends within the address space
  pub fits : p.storage + p.capacity * p.block_size < 2 ^ 32

length-erase : (t : ℕ) (xs : List ℕ) → 0 < count t xs → length (erase t xs) + 1 ≡ length xs
unfolding erase count
length-erase t [] h = absurd (omega arith)
length-erase t (x ∷ xs) h = ground (arith, length-erase t xs)

IsBlock-same :
    (p p' : BlockPool) (u : ℕ)
    → p'.storage ≡ p.storage
    → p'.capacity ≡ p.capacity
    → p'.block_size ≡ p.block_size
    → IsBlock p u
    → IsBlock p' u
IsBlock-same p p' u e f g b = record {
  real = b.real;
  from = rw e b.from;
  to = rw (e, f, g) b.to;
  aligned = rw (e, g) b.aligned;
}

-- The pool after the block has been put on the free list.
abbrev pub freed : ℕ → BlockPool → BlockPool
freed t p = record p {
  free_list = t ∷ p.free_list;
  used_count = u16 (p.used_count + 2 ^ 16 - 1);
  cv = (notify_one p.cv).1;
}

abbrev pub popped : List ℕ → BlockPool → BlockPool
popped rest p = record p { free_list = rest; used_count = u16 (p.used_count + 1) }

-- In a valid pool Free() of a block that a task holds succeeds, in debug and in release builds, and gives back
-- exactly that block.
pub free-IsValid :
    (is_debug : Bool) (t : ℕ) (p : BlockPool) (held : List ℕ)
    → IsValid p held
    → 0 < count t held
    → (w : Option ℕ) × (p' : BlockPool) × (free is_debug t p ≡ some (true, w, p'))
      × (p'.free_list ≡ t ∷ p.free_list)
      × IsValid p' (erase t held)
unfolding free
free-IsValid is_debug t p held v h =
    let b = v.blocks t (omega arith) in
    let absent : count t p.free_list ≡ 0 = omega (arith, v.once t) in
    let shorter = length-erase t held h in
    (
      (notify_one p.cv).0,
      freed t p,
      rw (mod-eq_of_lt v.fits) (ground (arith, b.real, b.from, b.to, b.aligned, v.used)),
      refl,
      record {
        once = λ u. omega (counting, v.once u, count-erase_cases t u held h);
        blocks = λ u k.
            IsBlock-same p _ u refl refl refl
              (v.blocks u (omega (counting, k, count-erase_cases t u held h)));
        total = omega (arith, v.total, shorter);
        used = omega (arith, v.used, v.total, v.limit, shorter);
        limit = v.limit;
        fits = v.fits;
      },
    )

-- What an allocation of a task that may wait gives.
pub data Gives (p : BlockPool) (held : List ℕ) (o : Option (Allocated × BlockPool)) : Type 0 where
  block :
      (b : ℕ) (p' : BlockPool)
      → o ≡ some (gives b, p')
      → p.free_list ≡ b ∷ p'.free_list
      → IsValid p' (b ∷ held)
      → Gives p held o
  nothing :
      (a : Allocated) (p' : BlockPool)
      → o ≡ some (a, p')
      → (a ≡ gives_null) ⊎ (a ≡ waits)
      → p.free_list ≡ []
      → length held ≡ p.capacity
      → IsValid p' held
      → Gives p held o

module _ (tid : ℕ) (timeout : ℤ) (p : BlockPool) (held : List ℕ) (v : IsValid p held) where
  pub popped-IsValid :
      (b : ℕ) (rest : List ℕ) → p.free_list ≡ b ∷ rest → IsValid (popped rest p) (b ∷ held)
  popped-IsValid b rest e = record {
    once = λ u. omega (counting, v.once u, ap (count u) e);
    blocks = λ u k.
        IsBlock-same p (popped rest p) u refl refl refl
          (v.blocks u (omega (counting, k, ap (count u) e)));
    total = omega (arith, v.total, ap length e);
    used = omega (arith, v.used, v.total, v.limit, ap length e);
    limit = v.limit;
    fits = v.fits;
  }

  pop_gives :
      (b : ℕ) (rest : List ℕ)
      → p.free_list ≡ b ∷ rest
      → alloc_loop tid timeout false p ≡ some (gives b, popped rest p)
  unfolding alloc_loop pop_free_list
  pop_gives b rest e = ground (arith, v.used, v.total, ap length e)

  rewaited : (ws : List Waiter) → IsValid (record p { cv = ws }) held
  rewaited ws = record {
    once = v.once;
    blocks = λ u k. IsBlock-same p (record p { cv = ws }) u refl refl refl (v.blocks u k);
    total = v.total;
    used = v.used;
    limit = v.limit;
    fits = v.fits;
  }

  wait_gives :
      p.free_list ≡ []
      → (alloc_loop tid timeout false p ≡ some (gives_null, p))
        ⊎ ((ws : List Waiter) × (alloc_loop tid timeout false p
              ≡ some (waits, record p { cv = ws })))
  unfolding alloc_loop wait
  wait_gives e = elim (Bool-cases (eq_ℤ timeout no_wait)) [
    | inl k ↦ inl (ground arith)
    | inr k ↦ inr (setup_wait tid timeout p.cv, ground arith)
  ]

  -- In a valid pool the loop of TimedAlloc(), called by a task, never fails an assertion. Where a block is free
  -- it gives the first one of the free list, which no task held; else every block is held, and it gives null
  -- or waits. The pool stays valid.
  pub alloc_loop-Gives : Gives p held (alloc_loop tid timeout false p)
  alloc_loop-Gives = go p.free_list refl
    where
      go : (fs : List ℕ) → p.free_list ≡ fs → Gives p held (alloc_loop tid timeout false p)
      go (b ∷ rest) e =
          Gives.block b (popped rest p) (pop_gives b rest e) e (popped-IsValid b rest e)
      go [] e =
          let all_held : length held ≡ p.capacity = omega (arith, v.total, ap length e) in
          elim (wait_gives e) [
            | inl k ↦ Gives.nothing gives_null p k (inl refl) e all_held v
            | inr (ws, k) ↦
                Gives.nothing waits (record p { cv = ws }) k (inr refl) e all_held (rewaited ws)
          ]

-- ===== src/Memory/BlockPool/Building.antt =====
-- A new pool: every block is free, and no two are the same.
use bare_metal_rtos.Base.{
  ℕ, zero, suc, ◌+◌, ◌-◌, ◌*◌, ◌%◌, ◌^◌, ◌≡◌, ◌≢◌, ◌≤◌, ◌<◌, arith, ap, ◌∙◌, subst, some, List, [],
  ◌∷◌, count, counting, length, ℕ_discrete, same-ne,
}
use native.Mathlib.Nat.{mul-mod_left}
use bare_metal_rtos.Memory.BlockPool.{
  BlockPool, init, link_blocks, build_free_list, align_block_size,
}
use bare_metal_rtos.Memory.BlockPool.Ownership.{IsValid}

-- The blocks linked so far are those from the one with the index `i` on.
record Linked (storage size capacity i : ℕ) (free : List ℕ) : Type 0 where
  once : (u : ℕ) → count u free ≤ 1
  from : (u : ℕ) → 0 < count u free → storage + i * size ≤ u
  to : (u : ℕ) → 0 < count u free → u < storage + capacity * size
  aligned : (u : ℕ) → 0 < count u free → (u - storage) % size ≡ 0
  long : length free + i ≡ capacity

link-Linked :
    (storage size capacity i : ℕ) (free : List ℕ)
    → 0 < size
    → suc i * size ≤ capacity * size
    → Linked storage size capacity (suc i) free
    → Linked storage size capacity i ((storage + i * size) ∷ free)
link-Linked storage size capacity i free p l k =
    let next : suc i * size ≡ i * size + size = omega arith in
    let fresh : count (storage + i * size) free ≡ 0 = ground (arith, k.from (storage + i * size)) in
    record {
      once = λ u. elim (ℕ_discrete (storage + i * size) u) [
        | yes e ↦ subst (λ j. count j ((storage + i * size) ∷ free) ≤ 1) e (omega (counting, fresh))
        | no n ↦ omega (counting, same-ne n, k.once u)
      ];
      from = λ u h. elim (ℕ_discrete (storage + i * size) u) [
        | yes e ↦ omega arith
        | no n ↦ omega (arith, k.from u (omega (counting, same-ne n, h)))
      ];
      to = λ u h. elim (ℕ_discrete (storage + i * size) u) [
        | yes e ↦ omega arith
        | no n ↦ k.to u (omega (counting, same-ne n, h))
      ];
      aligned = λ u h. elim (ℕ_discrete (storage + i * size) u) [
        | yes e ↦
            let offset : u - storage ≡ i * size = omega arith in
            ap (λ j. j % size) offset ∙ mul-mod_left i size
        | no n ↦ k.aligned u (omega (counting, same-ne n, h))
      ];
      long = omega (arith, k.long);
    }

link_blocks-Linked :
    (storage size capacity i : ℕ) (free : List ℕ)
    → 0 < size
    → i * size ≤ capacity * size
    → Linked storage size capacity i free
    → Linked storage size capacity 0 (link_blocks storage size i free)
unfolding link_blocks
link_blocks-Linked storage size capacity zero free p l k = k
link_blocks-Linked storage size capacity (suc i) free p l k =
    link_blocks-Linked storage size capacity i ((storage + i * size) ∷ free) p (omega arith)
      (link-Linked storage size capacity i free p l k)

none-Linked : (storage size capacity : ℕ) → Linked storage size capacity capacity []
none-Linked storage size capacity = record {
  once = λ u. omega counting;
  from = λ u h. absurd (omega counting);
  to = λ u h. absurd (omega counting);
  aligned = λ u h. absurd (omega counting);
  long = omega arith;
}

init_inv :
    (capacity raw storage storage_size : ℕ) (p : BlockPool)
    → init capacity raw storage storage_size ≡ some p
    → (0 < capacity)
      × (capacity ≤ 65534)
      × (storage ≢ 0)
      × (p.storage ≡ storage)
      × (p.capacity ≡ capacity)
      × (p.block_size ≡ align_block_size raw)
      × (p.used_count ≡ 0)
      × (p.free_list ≡ link_blocks storage (align_block_size raw) capacity [])
unfolding init build_free_list
init_inv capacity raw storage storage_size p h = ground arith

positive_size : (raw : ℕ) → 0 < align_block_size raw
unfolding align_block_size
positive_size raw = ground arith

-- A constructor whose assertions hold gives a valid pool of which no task holds a block, if the blocks end within the
-- address space.
pub init-IsValid :
    (capacity raw storage storage_size : ℕ) (p : BlockPool)
    → init capacity raw storage storage_size ≡ some p
    → storage + capacity * align_block_size raw < 2 ^ 32
    → IsValid p []
init-IsValid capacity raw storage storage_size p h f =
    let (c, limit, real, es, ec, eb, eu, ef) = init_inv capacity raw storage storage_size p h in
    let size = align_block_size raw in
    let k : Linked storage size capacity 0 p.free_list = rw ef (
      link_blocks-Linked storage size capacity capacity [] (positive_size raw) (omega arith)
        (none-Linked storage size capacity)) in
    record {
      once = λ u. omega (counting, k.once u);
      blocks = λ u l.
          let in_list : 0 < count u p.free_list = omega (counting, l) in
          record {
            real = λ z. real (omega (arith, k.from u in_list));
            from = omega (arith, k.from u in_list);
            to = rw (es, ec, eb) (k.to u in_list);
            aligned = rw (es, eb) (k.aligned u in_list);
          };
      total = omega (arith, k.long);
      used = eu;
      limit = omega arith;
      fits = rw (es, ec, eb) f;
    }

-- ===== src/Sync/Pipe/Tests.antt =====
-- The theorems on the pipe at concrete inputs: four slots, one element in the last, so that what follows goes round.
use bare_metal_rtos.Sync.Pipe.Bulk.{write_each}
use bare_metal_rtos.Sync.Pipe.Transfers.{write_part-contents, drain_locked-write_part}
use bare_metal_rtos.Sync.Pipe.Stream.{contents, IsValid}
use bare_metal_rtos.Base.{min, take, ◌++◌, inr, ◌≡◌, arith, ◌*◌, ℕ, [], ◌∷◌, refl}
use bare_metal_rtos.Sync.Pipe.{copy_out, copy_in, write_part, drain_locked, Pipe}

abbrev at_end : Pipe ℕ
at_end = record {
  buffer = λ i. i * 10;
  capacity = 4;
  count = 1;
  head = 0;
  tail = 3;
  cv_not_empty = [];
  cv_not_full = [];
}

at_end-IsValid : IsValid at_end
at_end-IsValid = record {
  in_head = omega arith;
  in_tail = omega arith;
  in_count = omega arith;
  ends = inr (omega arith);
  limit = omega arith;
}

write_part-contents_example :
    IsValid (write_part (7 ∷ 8 ∷ []) at_end).pipe
    × (contents (write_part (7 ∷ 8 ∷ []) at_end).pipe
        ≡ contents at_end ++ take (min 2 3) (7 ∷ 8 ∷ []))
    × ((write_part (7 ∷ 8 ∷ []) at_end).pipe
        ≡ record (write_each (take (min 2 3) (7 ∷ 8 ∷ [])) at_end) {
          cv_not_empty = (write_part (7 ∷ 8 ∷ []) at_end).pipe.cv_not_empty;
        })
write_part-contents_example = write_part-contents (7 ∷ 8 ∷ []) at_end at_end-IsValid

drain_locked-write_part_example :
    (drain_locked 3 (write_part (7 ∷ 8 ∷ []) at_end).pipe).elements ≡ contents at_end ++ 7 ∷ 8 ∷ []
drain_locked-write_part_example =
    drain_locked-write_part (7 ∷ 8 ∷ []) at_end at_end-IsValid (omega arith)

three_out : (drain_locked 3 (write_part (7 ∷ 8 ∷ []) at_end).pipe).elements ≡ 30 ∷ 7 ∷ 8 ∷ []
unfolding drain_locked write_part copy_in copy_out
three_out = refl

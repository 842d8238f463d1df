-- ===== src/IdAllocator/Tests.antt =====
-- The allocator on examples.
use asynclear.Prelude.{refl, [], ◌∷◌, arith}
use asynclear.IdAllocator.{RecycleAllocator, alloc}
use asynclear.IdAllocator.Ownership.{IsValid, AllocOutcome, alloc_lem}

-- Ids 1 to 4 are out, and 2 has come back.
abbrev used : RecycleAllocator
used = record { current = 5; recycled = 2 ∷ [] }

used-IsValid : IsValid used
used-IsValid = (omega arith, refl, tt)

alloc_lem_example : AllocOutcome used (alloc used)
alloc_lem_example = alloc_lem used used-IsValid

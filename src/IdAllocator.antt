-- ===== src/IdAllocator.antt =====
-- `RecycleAllocator` of crates/utils/idallocator/src/lib.rs, which hands out pids and tids.
pub mod Ownership
mod Tests
use asynclear.Prelude.{
  ℕ, ◌+◌, ◌-◌, ◌^◌, Bool, not, List, [], ◌∷◌, ltb, contains, KResult, ok, ◌>>=◌, ◌>>◌, assert,
}

-- `recycled` is a `Vec` used as a stack; the head of the list is its end.
pub record RecycleAllocator : Type 0 where
  pub current : ℕ
  pub recycled : List ℕ

pub begin_with : ℕ → RecycleAllocator
begin_with begin = record { current = begin; recycled = [] }

pub new : RecycleAllocator
unfolding begin_with
new = begin_with 0

-- `self.current += 1` is checked for overflow.
unfoldable pub alloc : RecycleAllocator → KResult (ℕ × RecycleAllocator)
alloc a = elim a.recycled [
  | id ∷ rest ↦ ok (id, record a { recycled = rest })
  | [] ↦ do
    assert (ltb (a.current + 1) (2 ^ 64))
    ok (a.current + 1 - 1, record a { current = a.current + 1 })
]

unfoldable pub dealloc : RecycleAllocator → ℕ → KResult RecycleAllocator
dealloc a id = do
  assert (ltb id a.current)
  assert (not (contains a.recycled id))
  ok (record a { recycled = id ∷ a.recycled })

pub release : RecycleAllocator → RecycleAllocator
release a = record a { recycled = [] }

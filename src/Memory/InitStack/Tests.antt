-- ===== src/Memory/InitStack/Tests.antt =====
-- A stack of one page with one argument, and a push at the bottom of a page.
use asynclear.Prelude.{
  err, panic, ◌≤◌, ℕ, ◌+◌, ◌*◌, ◌/◌, ◌<◌, ◌≡◌, refl, [], ◌∷◌, none, some, ok, KResult, arith,
}
use asynclear.BTreeMap
use asynclear.Memory.Address.{VirtPageNum, PhysPageNum, indexes}
use asynclear.Memory.InitStack.{
  allocate_in_area, StackInitCtx, init_stack_impl, push_usize, le_bytes,
}
use asynclear.Memory.InitStack.View.{Holds}
use asynclear.Memory.Pte
use asynclear.Memory.Pte.{rwu_permission, flags_from_permission}
use asynclear.Memory.PageTable.{World, PageTable}
use asynclear.Memory.PageTable
use asynclear.Memory.VmArea.{VmArea, lazy}
use asynclear.Memory.VmArea
use asynclear.Memory.InitStack.Supply.{Gives, frames_given}
use asynclear.Memory.InitStack.Given.{init_stack_impl_given}
use asynclear.Memory.InitStack.Layout.{Layout}
use asynclear.Memory.InitStack.Crossing.{push_usize-leaves_frame}

-- Frames 100 above their pages, counted as they are asked for.
abbrev ensure : VirtPageNum → ℕ → KResult (PhysPageNum × ℕ)
ensure vpn used = ok (vpn + 100, used + 1)

-- The area of a stack of pages 8 and 9 in a fresh address space, whose root table is frame 1.
abbrev fresh : VmArea × World × PageTable
fresh = (
  VmArea.new 8 10 rwu_permission lazy,
  record { frames = λ p i. Pte.empty; supply = 2 ∷ 3 ∷ 4 ∷ 5 ∷ 6 ∷ [] },
  record { root_frame = 1; table_frames = [] },
)

abbrev or_fresh : KResult (PhysPageNum × (VmArea × World × PageTable)) → VmArea × World × PageTable
or_fresh (ok r) = r.1
or_fresh (err e) = fresh
or_fresh panic = fresh

-- Page 9 is given frame 2, its tables frames 3 and 4, and page 8 frame 5.
fresh-Gives : Gives allocate_in_area 10 (2 ∷ 5 ∷ []) fresh
unfolding VmArea.ensure_allocated VmArea.new PageTable.map PageTable.alloc_frame
    PageTable.find_pte_create PageTable.descend indexes Pte.empty Pte.ppn Pte.flags Pte.new
    Pte.is_valid flags_from_permission BTreeMap.get BTreeMap.insert
fresh-Gives =
    let after_one = or_fresh (allocate_in_area 9 fresh) in
    (after_one, refl, (or_fresh (allocate_in_area 8 after_one), refl, tt))

abbrev empty_stack : StackInitCtx (VmArea × World × PageTable)
empty_stack = record { user_sp = 40960; page = none; area = fresh; memory = λ p. 0 }

two_frames : 2 ≤ 10
two_frames = omega arith

-- The argument `ls` and the environment `A=12345`, whose 7 bytes with the null byte make 8.
init_stack_impl_given_example :
    (ctx' : StackInitCtx (VmArea × World × PageTable)) × (init_stack_impl allocate_in_area 5 6
        ((108 ∷ 115 ∷ []) ∷ [])
        ((65 ∷ 61 ∷ 49 ∷ 50 ∷ 51 ∷ 52 ∷ 53 ∷ []) ∷ [])
        ((6, 4096) ∷ [])
        empty_stack
      ≡ ok ((ctx'.user_sp, ctx'.user_sp + 8), ctx'))
    × Layout allocate_in_area 8 10
        (frames_given allocate_in_area 10 (2 ∷ 5 ∷ []) two_frames (refl, (refl, tt)))
        ((108 ∷ 115 ∷ []) ∷ [])
        ((65 ∷ 61 ∷ 49 ∷ 50 ∷ 51 ∷ 52 ∷ 53 ∷ []) ∷ [])
        ((6, 4096) ∷ [])
        5
        6
        ctx'
init_stack_impl_given_example =
    init_stack_impl_given allocate_in_area 10 (2 ∷ 5 ∷ []) two_frames (refl, (refl, tt)) 5 6
      ((108 ∷ 115 ∷ []) ∷ []) ((65 ∷ 61 ∷ 49 ∷ 50 ∷ 51 ∷ 52 ∷ 53 ∷ []) ∷ []) ((6, 4096) ∷ [])
      empty_stack refl fresh-Gives (omega arith) (omega arith)

abbrev at_bottom : StackInitCtx ℕ
at_bottom = record { user_sp = 8195; page = some 102; area = 1; memory = λ p. 0 }

push_usize-leaves_frame_example :
    (ctx' : StackInitCtx ℕ) × (push_usize ensure 0 at_bottom ≡ ok ctx')
    × (ctx'.user_sp / 4096 < 2)
    × (ctx'.area ≡ 1)
    × Holds ctx'.memory (102 * 4096 + 4091) (le_bytes 8 0)
    × (103 * 4096 < 102 * 4096 + 4091 + 8)
push_usize-leaves_frame_example =
    push_usize-leaves_frame ensure 0 at_bottom 102 (omega arith) (omega arith) (omega arith) refl

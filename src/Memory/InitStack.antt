-- ===== src/Memory/InitStack.antt =====
-- The first contents of a user stack: `init_stack_impl` of
-- crates/libkernel/src/memory/memory_space/init_stack.rs, and `init_stack` of memory_space/mod.rs.
pub mod View
pub mod Push
pub mod Supply
pub mod Texts
pub mod Layout
pub mod Given
pub mod Crossing
mod Tests
use asynclear.Prelude.{
  ℕ, zero, suc, ◌+◌, ◌-◌, ◌*◌, ◌/◌, ◌%◌, Option, none, some, List, [], ◌∷◌, ◌==◌, length,
  if◌then◌else◌, KResult, ok, ◌>>=◌, unwrap,
}
use asynclear.Config.{page_size}
use asynclear.BTreeMap.{get, insert}
use asynclear.Memory.Address.{
  VirtPageNum, PhysPageNum, PhysAddr, sub, vpn_floor, page_start, page_offset,
}
use asynclear.Memory.PageTable.{PageTable, World}
use asynclear.Memory.VmArea.{VmArea}
use asynclear.Memory.VmArea
use asynclear.Memory.MemorySpace.{MemorySpace}
use asynclear.Process.Stack.{alloc_user_stack}

-- Physical memory is a byte for each address. `area` is what the area of the stack and the frames keep,
-- and `page` the frame of the page that is written to.
pub record StackInitCtx (S : Type 0) : Type 0 where
  pub user_sp : ℕ
  pub page : Option PhysPageNum
  pub area : S
  pub memory : PhysAddr → ℕ

abbrev pub at_random : ℕ
at_random = 25

abbrev pub ptr_size : ℕ
ptr_size = 8

-- The bytes of a number, the lowest first.
abbrev pub le_bytes : ℕ → ℕ → List ℕ
le_bytes zero n = []
le_bytes (suc k) n = (n % 256) ∷ le_bytes k (n / 256)

abbrev pub write_bytes : (PhysAddr → ℕ) → PhysAddr → List ℕ → PhysAddr → ℕ
write_bytes m a [] p = m p
write_bytes m a (b ∷ bs) p = if p == a then b else write_bytes m (a + 1) bs p

-- Writing a `T` at the stack pointer's offset in the frame does not stop at the end of the frame.
unfoldable pub store : {S : Type 0} → List ℕ → StackInitCtx S → KResult (StackInitCtx S)
unfolding page_offset
store bytes ctx = unwrap ctx.page >>= λ frame. ok (record ctx {
  memory = write_bytes ctx.memory (frame * page_size + page_offset ctx.user_sp) bytes;
})

module _ {S : Type 0} (ensure_allocated : VirtPageNum → S → KResult (PhysPageNum × S)) where
  unfoldable pub sp_down : ℕ → StackInitCtx S → KResult (StackInitCtx S)
  unfolding sub vpn_floor
  sp_down len ctx = sub ctx.user_sp len >>= λ sp.
      if (sp + len) % page_size == 0
      then (ensure_allocated (vpn_floor sp) ctx.area >>= λ (frame, area).
          ok (record ctx { user_sp = sp; page = some frame; area = area }))
      else ok (record ctx { user_sp = sp })

  unfoldable pub push_byte : ℕ → StackInitCtx S → KResult (StackInitCtx S)
  push_byte byte ctx = sp_down 1 ctx >>= store (byte ∷ [])

  unfoldable pub push_usize : ℕ → StackInitCtx S → KResult (StackInitCtx S)
  push_usize num ctx = sp_down ptr_size ctx >>= store (le_bytes ptr_size num)

  -- The loops run from the last element to the first.
  unfoldable pub push_bytes : List ℕ → StackInitCtx S → KResult (StackInitCtx S)
  push_bytes [] ctx = ok ctx
  push_bytes (b ∷ bs) ctx = push_bytes bs ctx >>= push_byte b

  unfoldable pub push_ptrs : List ℕ → StackInitCtx S → KResult (StackInitCtx S)
  push_ptrs [] ctx = ok ctx
  push_ptrs (p ∷ ps) ctx = push_ptrs ps ctx >>= push_usize p

  unfoldable pub push_str : List ℕ → StackInitCtx S → KResult (ℕ × StackInitCtx S)
  push_str s ctx = do ctx ← push_byte 0 ctx; ctx ← push_bytes s ctx; ok (ctx.user_sp, ctx)

  unfoldable pub push_strs : List (List ℕ) → StackInitCtx S → KResult (List ℕ × StackInitCtx S)
  push_strs [] ctx = ok ([], ctx)
  push_strs (s ∷ ss) ctx = do
    (p, ctx) ← push_str s ctx
    (ps, ctx) ← push_strs ss ctx
    ok (p ∷ ps, ctx)

  unfoldable pub push_auxv : List (ℕ × ℕ) → StackInitCtx S → KResult (StackInitCtx S)
  push_auxv [] ctx = ok ctx
  push_auxv ((type, value) ∷ rest) ctx = do
    ctx ← push_usize value ctx
    ctx ← push_usize type ctx
    push_auxv rest ctx

  -- The stack pointer is rounded down to a multiple of 8.
  abbrev pub align : StackInitCtx S → StackInitCtx S
  align ctx = record ctx { user_sp = ctx.user_sp - ctx.user_sp % 8 }

  -- A null word and, for 16 random bytes, two readings of the clock.
  unfoldable pub push_random : ℕ → ℕ → StackInitCtx S → KResult (StackInitCtx S)
  push_random time time' ctx = do
    ctx ← push_usize 0 ctx
    ctx ← push_usize time ctx
    push_usize time' ctx

  -- The strings of the environment and of the arguments, and where they begin.
  unfoldable pub push_texts :
      List (List ℕ) → List (List ℕ) → StackInitCtx S → KResult ((List ℕ × List ℕ) × StackInitCtx S)
  push_texts envs args ctx = do
    (envp, ctx) ← push_strs envs ctx
    ctx ← push_usize 0 ctx
    (argv, ctx) ← push_strs args ctx
    ok ((envp, argv), align ctx)

  -- The auxiliary vector and the vectors of pointers.
  unfoldable pub push_vectors :
      ℕ → List ℕ → List ℕ → List (ℕ × ℕ) → StackInitCtx S → KResult (StackInitCtx S)
  push_vectors random_pos envp argv auxv ctx = do
    ctx ← push_usize 0 ctx
    ctx ← push_usize 0 ctx
    ctx ← push_usize at_random ctx
    ctx ← push_usize random_pos ctx
    ctx ← push_auxv auxv ctx
    ctx ← push_usize 0 ctx
    ctx ← push_ptrs envp ctx
    ctx ← push_usize 0 ctx
    push_ptrs argv ctx

  -- `time` and `time'` are the two readings of the clock. The result is `user_sp` and `argv_base`.
  unfoldable pub init_stack_impl :
      ℕ
      → ℕ
      → List (List ℕ)
      → List (List ℕ)
      → List (ℕ × ℕ)
      → StackInitCtx S
      → KResult ((ℕ × ℕ) × StackInitCtx S)
  unfolding push_random push_texts push_vectors
  init_stack_impl time time' args envs auxv ctx = do
    ctx ← push_random time time' ctx
    let random_pos = ctx.user_sp
    ((envp, argv), ctx) ← push_texts envs args ctx
    ctx ← push_vectors random_pos envp argv auxv ctx
    let argv_base = ctx.user_sp
    ctx ← push_usize (length args) ctx
    ok ((ctx.user_sp, argv_base), ctx)

-- The frames of a stack are those of its area.
abbrev pub allocate_in_area :
    VirtPageNum
    → (VmArea × World × PageTable)
    → KResult (PhysPageNum × (VmArea × World × PageTable))
allocate_in_area vpn (area, w, t) =
    VmArea.ensure_allocated area vpn w t >>= λ (frame, area', w', t'). ok (frame, (area', w', t'))

-- Returns the new contents of memory too.
pub init_stack :
    ℕ
    → ℕ
    → ℕ
    → List (List ℕ)
    → List (List ℕ)
    → List (ℕ × ℕ)
    → MemorySpace
    → (PhysAddr → ℕ)
    → KResult ((ℕ × ℕ) × MemorySpace × (PhysAddr → ℕ))
unfolding init_stack_impl
init_stack time time' tid args envs auxv m memory = do
  ((low, high), m) ← alloc_user_stack tid m
  area ← unwrap (get m.user_areas low)
  (r, ctx) ← init_stack_impl allocate_in_area time time' args envs auxv (record {
    user_sp = page_start high;
    page = none;
    area = (area, m.world, m.page_table);
    memory = memory;
  })
  ok (
    r,
    record m {
      world = ctx.area.1;
      page_table = ctx.area.2;
      user_areas = insert m.user_areas low ctx.area.0;
    },
    ctx.memory,
  )

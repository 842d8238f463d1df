-- ===== src/Memory/InitStack/Given.antt =====
-- The stack of a new program on frames that an area is given.
use asynclear.Prelude.{
  ℕ, ◌+◌, ◌-◌, ◌*◌, ◌/◌, ◌%◌, ◌≤◌, ◌≡◌, sym, List, length, drop, KResult, ok, subst, arith,
}
use asynclear.Memory.Address.{VirtPageNum, PhysPageNum}
use asynclear.Memory.InitStack.{StackInitCtx, init_stack_impl}
use asynclear.Memory.InitStack.Push.{IsGood}
use asynclear.Memory.InitStack.Texts.{strs_size}
use asynclear.Memory.InitStack.Supply.{AreDistinct, Gives, frames_given}
use asynclear.Memory.InitStack.Layout.{Layout, stack_size, init_stack_impl_lem}

module _ {S : Type 0} (ensure_allocated : VirtPageNum → S → KResult (PhysPageNum × S)) where
  -- `init_stack_impl` on an empty stack that ends at page `high`. Asking for the pages below `high` in turn
  -- gives the frames of a list, which are different from each other and enough for all that is pushed; and
  -- the strings of the environment take a multiple of 8 bytes with their null bytes. It succeeds, and the
  -- user finds, at the stack pointer, a multiple of 8: the number of arguments, the pointers to them and a
  -- null word, the pointers to the environment and a null word, the auxiliary vector, and after it the
  -- address of the random bytes, 25 (in this order) and two null words; each pointer leads to its string
  -- with a null byte behind; and the address of the random bytes to the two readings of the clock and a
  -- null word.
  pub init_stack_impl_given :
      (high : VirtPageNum) (frames : List PhysPageNum) (enough : length frames ≤ high)
      (d : AreDistinct frames) (time time' : ℕ) (args envs : List (List ℕ)) (auxv : List (ℕ × ℕ))
      (ctx : StackInitCtx S)
      → ctx.user_sp ≡ high * 4096
      → Gives ensure_allocated high frames ctx.area
      → strs_size envs % 8 ≡ 0
      → stack_size args envs auxv ≤ length frames * 4096
      → (ctx' : StackInitCtx S) × (init_stack_impl ensure_allocated time time' args envs auxv ctx
          ≡ ok ((ctx'.user_sp, ctx'.user_sp + 8), ctx'))
        × Layout ensure_allocated
            (high - length frames)
            high
            (frames_given ensure_allocated high frames enough d)
            args
            envs
            auxv
            time
            time'
            ctx'
  init_stack_impl_given high frames enough d time time' args envs auxv ctx sp g e room =
      let at : high ≡ ctx.user_sp / 4096 = omega (arith, sp) in
      let none_used : high - high ≡ 0 = omega arith in
      let all : Gives ensure_allocated high (drop (high - high) frames) ctx.area =
        subst (λ (n : ℕ). Gives ensure_allocated high (drop n frames) ctx.area) (sym none_used) g in
      let good : IsGood ensure_allocated (high - length frames) high
          (frames_given ensure_allocated high frames enough d) ctx =
        record {
          ready =
              subst (λ (n : ℕ). Gives ensure_allocated n (drop (high - n) frames) ctx.area) at all;
          page = λ h. absurd (omega (arith, h, sp));
          top = omega (arith, sp);
        } in
      init_stack_impl_lem ensure_allocated (high - length frames) high
        (frames_given ensure_allocated high frames enough d) time time' args envs auxv ctx good
        (omega (arith, sp)) e (omega (arith, sp, room, enough))

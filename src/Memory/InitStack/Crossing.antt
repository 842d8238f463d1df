-- ===== src/Memory/InitStack/Crossing.antt =====
-- A word that is pushed from an unaligned stack pointer at the bottom of a page.
use asynclear.Prelude.{
  ℕ, ◌+◌, ◌-◌, ◌*◌, ◌/◌, ◌%◌, ◌≤◌, ◌<◌, ◌≡◌, refl, ◌∙◌, List, [], ◌∷◌, some, ◌==◌, leb, true, false,
  KResult, ok, and_mask, arith,
}
use asynclear.Config.{page_size}
use asynclear.Memory.Address.{VirtPageNum, PhysPageNum, PhysAddr, sub, page_offset}
use asynclear.Memory.InitStack.{StackInitCtx, le_bytes, write_bytes, store, sp_down, push_usize}
use asynclear.Memory.InitStack.View.{Holds, Holds-cong}

pub written_at : (m : PhysAddr → ℕ) (p : PhysAddr) (bs : List ℕ) → Holds (write_bytes m p bs) p bs
written_at m p [] = tt
written_at m p (b ∷ bs) =
    let here : (p == p) ≡ true = ground arith in
    (
      rw here refl,
      Holds-cong (write_bytes m (p + 1) bs) (write_bytes m p (b ∷ bs)) (p + 1) bs
          (λ a l. let e : (a == p) ≡ false = ground arith in rw e refl) (written_at m (p + 1) bs),
    )

module _ {S : Type 0} (ensure_allocated : VirtPageNum → S → KResult (PhysPageNum × S)) where
  -- Pushing a word while the stack pointer is 1 to 7 bytes above the start of a page. No frame is had for
  -- the page below; the word is written from the end of the frame of the page above on, and reaches past
  -- the end of that frame.
  pub push_usize-leaves_frame :
      (n : ℕ) (ctx : StackInitCtx S) (frame : PhysPageNum)
      → 0 < ctx.user_sp % 4096
      → ctx.user_sp % 4096 < 8
      → 8 ≤ ctx.user_sp
      → ctx.page ≡ some frame
      → (ctx' : StackInitCtx S) × (push_usize ensure_allocated n ctx ≡ ok ctx')
        × (ctx'.user_sp / 4096 < ctx.user_sp / 4096)
        × (ctx'.area ≡ ctx.area)
        × Holds ctx'.memory (frame * 4096 + (4088 + ctx.user_sp % 4096)) (le_bytes 8 n)
        × ((frame + 1) * 4096 < frame * 4096 + (4088 + ctx.user_sp % 4096) + 8)
  unfolding push_usize sp_down store sub page_offset
  push_usize-leaves_frame n ctx frame h l b e =
      let enough : leb 8 ctx.user_sp ≡ true = ground arith in
      let inside : ((ctx.user_sp - 8 + 8) % page_size == 0) ≡ false = ground arith in
      let o : page_offset (ctx.user_sp - 8) ≡ 4088 + ctx.user_sp % 4096 =
        and_mask 12 (ctx.user_sp - 8) ∙ omega arith in
      (
        record ctx {
          user_sp = ctx.user_sp - 8;
          memory =
              write_bytes ctx.memory (frame * 4096 + (4088 + ctx.user_sp % 4096)) (le_bytes 8 n);
        },
        rw (push_usize, sp_down, enough, inside, store, e, o) refl,
        omega arith,
        refl,
        written_at ctx.memory (frame * 4096 + (4088 + ctx.user_sp % 4096)) (le_bytes 8 n),
        omega arith,
      )

-- ===== src/Signal/Action/Memory.antt =====
-- Actions that are written to user memory and read again.
use asynclear.Prelude.{
  ℕ, zero, suc, ◌+◌, ◌*◌, ◌/◌, ◌<◌, ◌≤◌, ◌≡◌, refl, ◌∙◌, List, [], ◌∷◌, ◌++◌, length, ◌⊎◌, inl, inr,
  arith,
}
use asynclear.Memory.Address.{VirtAddr}
use asynclear.Memory.InitStack.{le_bytes, write_bytes}
use asynclear.Memory.InitStack.View.{Holds, Holds-cong, write_out}
use asynclear.Memory.InitStack.Crossing.{written_at}
use asynclear.Signal.Deliver.{KSignalAction}
use asynclear.Signal.Action.{read_le, read_action, write_action}

-- Reading looks at the bytes of the number only.
read_le-cong :
    (m m' : VirtAddr → ℕ) (k : ℕ) (a : VirtAddr)
    → ((b : VirtAddr) → a ≤ b → b < a + k → m' b ≡ m b)
    → read_le m' k a ≡ read_le m k a
read_le-cong m m' zero a e = refl
read_le-cong m m' (suc k) a e =
    let rest = read_le-cong m m' k (a + 1) (λ b l u. e b (omega arith) (omega (arith, u))) in
    omega (arith, rest, e a (omega arith) (omega arith))

-- How many numbers `k` bytes can tell apart.
abbrev pub space : ℕ → ℕ
space zero = 1
space (suc k) = 256 * space k

-- The bytes of a number give it back.
read_le-Holds :
    (m : VirtAddr → ℕ) (k n : ℕ) (a : VirtAddr)
    → n < space k
    → Holds m a (le_bytes k n)
    → read_le m k a ≡ n
read_le-Holds m zero n a b h = omega arith
read_le-Holds m (suc k) n a b h =
    let high : n / 256 < space k = omega (arith, b) in
    let rest = read_le-Holds m k (n / 256) (a + 1) high h.1 in omega (arith, rest, h.0)

Holds-left :
    (m : VirtAddr → ℕ) (a : VirtAddr) (bs cs : List ℕ) → Holds m a (bs ++ cs) → Holds m a bs
Holds-left m a [] cs h = tt
Holds-left m a (b ∷ bs) cs h = (h.0, Holds-left m (a + 1) bs cs h.1)

Holds-right :
    (m : VirtAddr → ℕ) (a b : VirtAddr) (bs cs : List ℕ)
    → a + length bs ≡ b
    → Holds m a (bs ++ cs)
    → Holds m b cs
Holds-right m a b [] cs e h = let ab : b ≡ a = omega (arith, e) in rw ab h
Holds-right m a b (x ∷ bs) cs e h = Holds-right m (a + 1) b bs cs (omega (arith, e)) h.1

-- The fields of an action fit in memory.
pub record IsStored (act : KSignalAction) : Type 0 where
  pub handler : act.handler < space 8
  pub flags : act.flags < space 4
  pub restorer : act.restorer < space 8
  pub action_mask : act.action_mask < space 8

-- What is written to an address is not seen at bytes outside of the action.
write_action-outside :
    (act : KSignalAction) (m : VirtAddr → ℕ) (a b : VirtAddr)
    → (b < a) ⊎ (a + 32 ≤ b)
    → write_action act m a b ≡ m b
write_action-outside act m a b (inl h) =
    write_out (write_bytes m (a + 16) (le_bytes 8 act.restorer ++ le_bytes 8 act.action_mask)) a
      (le_bytes 8 act.handler ++ le_bytes 4 act.flags) b (inl h)
    ∙ write_out m (a + 16) (le_bytes 8 act.restorer ++ le_bytes 8 act.action_mask) b
        (inl (omega arith))
write_action-outside act m a b (inr h) =
    write_out (write_bytes m (a + 16) (le_bytes 8 act.restorer ++ le_bytes 8 act.action_mask)) a
      (le_bytes 8 act.handler ++ le_bytes 4 act.flags) b (inr (omega arith))
    ∙ write_out m (a + 16) (le_bytes 8 act.restorer ++ le_bytes 8 act.action_mask) b
        (inr (omega arith))

action_path :
    (a b : KSignalAction)
    → a.handler ≡ b.handler
    → a.flags ≡ b.flags
    → a.restorer ≡ b.restorer
    → a.action_mask ≡ b.action_mask
    → a ≡ b
action_path a b h f r k i = record { handler = h i; flags = f i; restorer = r i; action_mask = k i }

pub read_action-write_action_other :
    (act : KSignalAction) (m : VirtAddr → ℕ) (a c : VirtAddr)
    → (c + 32 ≤ a) ⊎ (a + 32 ≤ c)
    → read_action (write_action act m a) c ≡ read_action m c
read_action-write_action_other act m a c d =
    let same : (k o : ℕ)
        → o + k ≤ 32
        → read_le (write_action act m a) k (c + o) ≡ read_le m k (c + o) =
      λ k o h. read_le-cong m (write_action act m a) k (c + o) (λ b l u.
        write_action-outside act m a b
          (elim d [ inl e ↦ inl (omega (arith, e)) | inr e ↦ inr (omega (arith, e)) ])) in
    let first : read_le (write_action act m a) 8 c ≡ read_le m 8 c =
      read_le-cong m (write_action act m a) 8 c (λ b l u.
        write_action-outside act m a b
          (elim d [ inl e ↦ inl (omega (arith, e)) | inr e ↦ inr (omega (arith, e)) ])) in
    action_path (read_action (write_action act m a) c) (read_action m c) first
      (same 4 8 (omega arith)) (same 8 16 (omega arith)) (same 8 24 (omega arith))

pub read_action-write_action :
    (act : KSignalAction) (m : VirtAddr → ℕ) (a : VirtAddr)
    → IsStored act
    → read_action (write_action act m a) a ≡ act
read_action-write_action act m a s =
    let low = le_bytes 8 act.handler ++ le_bytes 4 act.flags in
    let up = le_bytes 8 act.restorer ++ le_bytes 8 act.action_mask in
    let m1 = write_bytes m (a + 16) up in
    let w = write_action act m a in
    let here : Holds w a low = written_at m1 a low in
    let there : Holds w (a + 16) up =
      Holds-cong m1 w (a + 16) up (λ b l. write_out m1 a low b (inr (omega arith)))
        (written_at m (a + 16) up) in
    action_path (read_action w a) act
      (read_le-Holds w 8 act.handler a s.handler
        (Holds-left w a (le_bytes 8 act.handler) (le_bytes 4 act.flags) here))
      (read_le-Holds w 4 act.flags (a + 8) s.flags (
        Holds-right w a (a + 8) (le_bytes 8 act.handler) (le_bytes 4 act.flags) (omega arith) here))
      (read_le-Holds w 8 act.restorer (a + 16) s.restorer
        (Holds-left w (a + 16) (le_bytes 8 act.restorer) (le_bytes 8 act.action_mask) there))
      (read_le-Holds w 8 act.action_mask (a + 24) s.action_mask (
        Holds-right w (a + 16) (a + 24) (le_bytes 8 act.restorer) (le_bytes 8 act.action_mask)
          (omega arith) there))

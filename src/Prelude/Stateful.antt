-- ===== src/Prelude/Stateful.antt =====
-- Operations that change a state and may fail: what was changed before an error stays changed.
use mathlib.Core.Path.{◌≡◌, refl}
use asynclear.Prelude.Results.{Errno, KResult, ok, err, panic}

abbrev pub Action : Type 0 → Type 0 → Type 0
Action S A = S → KResult A × S

-- What follows an operation, given its outcome.
abbrev pub after_call : {S A B : Type 0} → KResult A × S → (A → S → KResult B × S) → KResult B × S
after_call (ok a, s) f = f a s
after_call (err e, s) f = (err e, s)
after_call (panic, s) f = (panic, s)

infixl 5 ◌>>=◌ ◌>>◌
abbrev pub ◌>>=◌ : {S A B : Type 0} → Action S A → (A → Action S B) → Action S B
◌>>=◌ m f s = after_call (m s) f

abbrev pub ◌>>◌ : {S B : Type 0} → Action S (Unit {0}) → Action S B → Action S B
m >> k = m >>= λ _. k

abbrev pub pure : {S A : Type 0} → A → Action S A
pure a s = (ok a, s)

abbrev pub raise : {S A : Type 0} → Errno → Action S A
raise e s = (err e, s)

-- A computation that reads no state.
abbrev pub lift : {S A : Type 0} → KResult A → Action S A
lift r s = (r, s)

pub after_call_cong :
    {S A B : Type 0} (r : KResult A × S) (f g : A → S → KResult B × S)
    → ((a : A) (s : S) → f a s ≡ g a s)
    → after_call r f ≡ after_call r g
after_call_cong (ok a, s) f g h = h a s
after_call_cong (err e, s) f g h = refl
after_call_cong (panic, s) f g h = refl

pub after_call_assoc :
    {S A B C : Type 0} (r : KResult A × S) (f : A → S → KResult B × S) (g : B → S → KResult C × S)
    → after_call (after_call r f) g ≡ after_call r (λ a s. after_call (f a s) g)
after_call_assoc (ok a, s) f g = refl
after_call_assoc (err e, s) f g = refl
after_call_assoc (panic, s) f g = refl

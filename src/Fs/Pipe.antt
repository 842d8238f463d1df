-- ===== src/Fs/Pipe.antt =====
-- `Pipe` of crates/libkernel/src/fs/pipe.rs, with kernel buffers. The bounded channel between its ends
-- belongs to the crate async_channel, and is a parameter.
use asynclear.Prelude.{
  ℕ, zero, suc, ◌+◌, ◌<◌, ◌≤◌, ◌≡◌, refl, min, Option, none, some, List, [], ◌∷◌, ◌++◌, length,
  get_elem?, ◌-◌, Bool, true, false, Bool-cases, inl, inr, take, ltb, if◌then◌else◌, KResult, ok,
  err, ebadf, arith, sym, ◌∙◌, ap, length-append, length-take,
}
use mathlib.Core.List.{append_assoc, append-nil}

abbrev pub pipe_capacity : ℕ
pipe_capacity = 16384

-- `try_send` gives the channel after the byte, or nothing when it fails; `recv` the next byte and the
-- channel after it, or nothing when the channel is empty and its other end closed.
pub record Channel : Type 1 where
  pub Carrier : Type 0
  pub try_send : Carrier → ℕ → Option Carrier
  pub recv : Carrier → Option (ℕ × Carrier)

pub data End : Type 0 where
  read_end write_end : End

-- What a call of `write` comes to: the count that it returns, or a wait in `send` of a byte, with the bytes
-- of the buffer that are sent so far.
pub data Written : Type 0 where
  returns : ℕ → Written
  waits : ℕ → ℕ → Written

module _ (ch : Channel) where
  -- The `for` loop of `write`: whether a byte was refused, `this_n_write`, and the channel. A byte that the
  -- channel refuses is counted, and ends the loop.
  unfoldable pub send_all : ch.Carrier → List ℕ → ℕ → Bool × ℕ × ch.Carrier
  send_all q [] n_write = (false, n_write, q)
  send_all q (byte ∷ rest) n_write = elim (ch.try_send q byte) [
    | none ↦ (true, n_write + 1, q)
    | some q' ↦ send_all q' rest (n_write + 1)
  ]

  -- After the loop: a refused byte ends the call, and so does the end of the buffer; else the next byte is
  -- waited for.
  abbrev pub after_loop : List ℕ → Bool × ℕ × ch.Carrier → Written × ch.Carrier
  after_loop buf (true, n, q) = (returns n, q)
  after_loop buf (false, n, q) = elim (get_elem? buf n) [
    | none ↦ (returns n, q)
    | some last_byte ↦ (waits last_byte n, q)
  ]

  unfoldable pub write : End → ch.Carrier → List ℕ → KResult (Written × ch.Carrier)
  unfolding send_all
  write read_end q buf = err ebadf
  write write_end q buf = ok (after_loop buf (send_all q buf 0))

  -- The loop of `read`, for the bytes that are still to read.
  pub recv_up_to : ch.Carrier → ℕ → List ℕ × ch.Carrier
  recv_up_to q zero = ([], q)
  recv_up_to q (suc len) = elim (ch.recv q) [
    | none ↦ ([], q)
    | some (byte, q') ↦ let (rest, q2) = recv_up_to q' len in (byte ∷ rest, q2)
  ]

  pub read : End → ch.Carrier → ℕ → KResult (List ℕ × ch.Carrier)
  unfolding recv_up_to
  read write_end q len = err ebadf
  read read_end q len = ok (recv_up_to q len)

  -- The documented behaviour of a bounded channel, by the bytes it holds and whether it is closed, as it
  -- is when all receivers are gone: `try_send` fails if the channel is full or closed.
  pub record IsBounded (contents : ch.Carrier → List ℕ) (closed : ch.Carrier → Bool) : Type 0 where
    pub accepts :
        (q : ch.Carrier) (byte : ℕ)
        → closed q ≡ false
        → length (contents q) < pipe_capacity
        → (q' : ch.Carrier) × (ch.try_send q byte ≡ some q')
          × (contents q' ≡ contents q ++ (byte ∷ []))
          × (closed q' ≡ false)
    pub refuses_full :
        (q : ch.Carrier) (byte : ℕ)
        → pipe_capacity ≤ length (contents q)
        → ch.try_send q byte ≡ none
    pub refuses_closed : (q : ch.Carrier) (byte : ℕ) → closed q ≡ true → ch.try_send q byte ≡ none

  -- How many bytes a channel takes: none if it is closed.
  abbrev pub room_of : (ch.Carrier → List ℕ) → (ch.Carrier → Bool) → ch.Carrier → ℕ
  room_of contents closed q = if closed q then 0 else pipe_capacity - length (contents q)

  get_elem?-end : (buf : List ℕ) → get_elem? buf (length buf) ≡ none
  get_elem?-end [] = refl
  get_elem?-end (b ∷ buf) = get_elem?-end buf

  module _ (contents : ch.Carrier → List ℕ) (closed : ch.Carrier → Bool)
      (b : IsBounded contents closed) where
    refused :
        (q : ch.Carrier) (byte : ℕ) → room_of contents closed q ≡ 0 → ch.try_send q byte ≡ none
    refused q byte h = elim (Bool-cases (closed q)) [
      | inl c ↦ b.refuses_closed q byte c
      | inr c ↦ b.refuses_full q byte (omega (arith, rw c at h))
    ]

    -- With room the channel is open, and takes a byte.
    takes :
        (q : ch.Carrier) (byte room : ℕ)
        → room_of contents closed q ≡ suc room
        → (q' : ch.Carrier) × (ch.try_send q byte ≡ some q')
          × (contents q' ≡ contents q ++ (byte ∷ []))
          × (room_of contents closed q' ≡ room)
    takes q byte room h = elim (Bool-cases (closed q)) [
      | inl c ↦ absurd (omega (arith, rw c at h))
      | inr c ↦
          let (q', run, e, opened) = b.accepts q byte c (omega (arith, rw c at h)) in
          (
            q',
            run,
            e,
            rw opened
                (omega (arith, rw c at h, ap length e, length-append (contents q) (byte ∷ []))),
          )
    ]

    -- The bytes that fit are stored in order; a byte that does not fit is counted.
    send_all-eq :
        (q : ch.Carrier) (buf : List ℕ) (n room : ℕ)
        → room_of contents closed q ≡ room
        → ((send_all q buf n).0 ≡ ltb room (length buf))
          × ((send_all q buf n).1 ≡ n + min (length buf) (room + 1))
          × (contents (send_all q buf n).2 ≡ contents q ++ take room buf)
    unfolding send_all
    send_all-eq q [] n zero h = (refl, omega arith, sym (append-nil (contents q)))
    send_all-eq q [] n (suc room) h = (ground arith, omega arith, sym (append-nil (contents q)))
    send_all-eq q (byte ∷ rest) n zero h =
        rw (send_all, refused q byte h) (ground arith, omega arith, sym (append-nil (contents q)))
    send_all-eq q (byte ∷ rest) n (suc room) h =
        let (q', run, e, left) = takes q byte room h in
        let r = send_all-eq q' rest (n + 1) room left in
        rw (send_all, run)
          (
            ground (arith, r.0),
            omega (arith, r.1),
            r.2 ∙ rw e (append_assoc (contents q) (byte ∷ []) (take room rest)),
          )

    after_loop_lem :
        (buf : List ℕ) (refused : Bool) (n room : ℕ) (q : ch.Carrier)
        → refused ≡ ltb room (length buf)
        → n ≡ min (length buf) (room + 1)
        → after_loop buf (refused, n, q)
          ≡ (returns (if ltb room (length buf) then length (take room buf) + 1 else length buf), q)
    after_loop_lem buf true n room q f e =
        let c : (if ltb room (length buf) then length (take room buf) + 1 else length buf) ≡ n =
          ground (arith, e, f, length-take room buf) in
        ap (λ k. (returns k, q)) (sym c)
    after_loop_lem buf false n room q f e =
        let all : n ≡ length buf = ground (arith, e, f) in
        rw (after_loop, all, get_elem?-end buf, ← f) (ap (λ k. (returns k, q)) all)

    -- `write` to a pipe stores as many bytes from the front of the buffer,
    -- in order, behind what the pipe holds, as the pipe has room for; a pipe whose readers are all gone has
    -- room for none. It returns without a wait. The count that it returns is the length of the buffer if
    -- all of it fits, and otherwise one more than the number of bytes stored.
    pub write_lem :
        (q : ch.Carrier) (buf : List ℕ)
        → (q' : ch.Carrier) × (write write_end q buf
            ≡ ok (
              returns (
                  if ltb (room_of contents closed q) (length buf)
                  then length (take (room_of contents closed q) buf) + 1
                  else length buf),
              q',
            ))
          × (contents q' ≡ contents q ++ take (room_of contents closed q) buf)
    unfolding write
    write_lem q buf =
        let r = send_all-eq q buf 0 (room_of contents closed q) refl in
        (
          _,
          ap ok (after_loop_lem buf _ _ (room_of contents closed q) _ r.0 (omega (arith, r.1))),
          r.2,
        )

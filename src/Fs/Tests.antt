-- ===== src/Fs/Tests.antt =====
-- The table of descriptors on examples.
use asynclear.Prelude.{
  refl, ok, List, length, ℕ, ◌+◌, ◌≡◌, [], ◌∷◌, none, some, arith, if◌then◌else◌, ◌==◌, ltb, true,
  false, ◌++◌, Bool, Bool-cases, inl, inr,
}
use asynclear.BTreeMap.{get, IsSorted}
use asynclear.Fs.FdTable.{stream, FileDescriptor, FdTable, add_many}
use asynclear.Fs.Pipe.{Channel, IsBounded, returns, write_end, write, write_lem, pipe_capacity}
use asynclear.Fs.FdTable.Add.{IsLowestFree}
use asynclear.Fs.FdTable.AddMany.{add_pair}

abbrev desc : ℕ → FileDescriptor
desc n = record { file = stream n; flags = 0 }

-- Numbers 0 and 2 are in use.
abbrev table : FdTable
table = record { files = (0, desc 0) ∷ (2, desc 2) ∷ []; rlim_curr = 8 }

table-IsSorted : IsSorted table.files
table-IsSorted = (omega arith, (omega arith, tt))

-- The second number that is chosen is 2, which is in use.
add_pair_example :
    (fd : ℕ) × IsLowestFree 0 table.files fd
    × ((add_many table (desc 7 ∷ desc 8 ∷ [])).0 ≡ some (fd ∷ (fd + 1) ∷ []))
    × ((j : ℕ)
        → get (add_many table (desc 7 ∷ desc 8 ∷ [])).1.files j ≡ (
            if fd + 1 == j
            then some (desc 8)
            else if fd == j
            then some (desc 7)
            else get table.files j))
add_pair_example = add_pair table (desc 7) (desc 8) table-IsSorted (omega arith)

-- A channel that is a list of bytes, with a mark that it is closed.
abbrev fifo : Channel
fifo = record {
  Carrier = Bool × List ℕ;
  try_send = λ (closed, q) byte.
      if closed
      then none
      else if ltb (length q) pipe_capacity
      then some (false, q ++ (byte ∷ []))
      else none;
  recv = λ (closed, q). elim q [ [] ↦ none | byte ∷ rest ↦ some (byte, (closed, rest)) ];
}

fifo-IsBounded : IsBounded fifo (λ q. q.1) (λ q. q.0)
fifo-IsBounded = record {
  accepts = λ q byte c h.
      let e : ltb (length q.1) pipe_capacity ≡ true = ground arith in
      ((false, q.1 ++ (byte ∷ [])), rw (c, e) refl, refl, refl);
  refuses_full = λ q byte h.
      let e : ltb (length q.1) pipe_capacity ≡ false = ground arith in
      elim (Bool-cases q.0) [ inl c ↦ rw c refl | inr c ↦ rw (c, e) refl ];
  refuses_closed = λ q byte c. rw c refl;
}

write_lem_example :
    (q' : Bool × List ℕ) × (write fifo write_end (false, []) (1 ∷ 2 ∷ []) ≡ ok (returns 2, q'))
    × (q'.1 ≡ 1 ∷ 2 ∷ [])
write_lem_example = write_lem fifo (λ q. q.1) (λ q. q.0) fifo-IsBounded (false, []) (1 ∷ 2 ∷ [])

-- ===== src/Fat32/DirEntry/LongName.antt =====
-- A long name is put together from its parts.
use asynclear.Prelude.{
  sym, ℕ, zero, suc, ◌+◌, ◌-◌, ◌*◌, ◌≡◌, refl, Bool, true, false, ◌&&◌, List, [], ◌∷◌, ◌++◌, ◌==◌,
  leb, length, take, drop, replicate, KResult, ok, ◌>>=◌, arith, ap, length-append,
  length-replicate,
}
use mathlib.Core.List.{append-nil}
use asynclear.Fat32.Bytes.{byte_at}
use asynclear.Fat32.DirEntry.{
  DirEntryBuilder, lfn_part, read_lfn_entry, entry_order, is_final_entry, copy_part, resize,
}

-- The entry holds part number `order` of a long name with checksum `sum`; `last` marks the last part,
-- which is read first.
abbrev pub IsPart : List ℕ → ℕ → Bool → ℕ → Type 0
IsPart e order last sum =
    (entry_order e ≡ order)
    × (is_final_entry e ≡ last)
    × (byte_at e 13 ≡ sum)
    × ((byte_at e 12 == 0 && byte_at e 26 == 0 && byte_at e 27 == 0) ≡ true)

-- The entries of the parts from `n` down to 1.
abbrev pub AreParts : ℕ → List (List ℕ) → ℕ → Type 0
AreParts zero [] sum = Unit
AreParts zero (e ∷ es) sum = ⊥
AreParts (suc n) [] sum = ⊥
AreParts (suc n) (e ∷ es) sum = IsPart e (suc n) false sum × AreParts n es sum

-- The entries are read in turn.
abbrev pub read_all : DirEntryBuilder → List (List ℕ) → KResult DirEntryBuilder
read_all b [] = ok b
read_all b (e ∷ es) = read_lfn_entry b e >>= λ b'. read_all b' es

-- The parts in the order of the name, which is the reverse of that on the disk, before `rest`.
abbrev pub joined : List (List ℕ) → List ℕ → List ℕ
joined [] rest = rest
joined (e ∷ es) rest = joined es (lfn_part e ++ rest)

take-replicate : (n k : ℕ) (rest : List ℕ) → take n (replicate (n + k) 0 ++ rest) ≡ replicate n 0
take-replicate zero k rest = refl
take-replicate (suc n) k rest =
    let e : suc n + k ≡ suc (n + k) = omega arith in
    rw e (ap (λ (l : List ℕ). 0 ∷ l) (take-replicate n k rest))

drop-replicate : (n : ℕ) (rest : List ℕ) → drop n (replicate n 0 ++ rest) ≡ rest
drop-replicate zero rest = refl
drop-replicate (suc n) rest = drop-replicate n rest

copy_part_lem :
    (n : ℕ) (part rest : List ℕ)
    → copy_part (replicate (n + 13) 0 ++ rest) n part ≡ ok (replicate n 0 ++ (part ++ rest))
copy_part_lem n part rest =
    let fits : leb (n + 13) (length (replicate (n + 13) 0 ++ rest)) ≡ true =
      ground
        (arith, length-append (replicate (n + 13) 0) rest, length-replicate {A = ℕ} (n + 13) 0) in
    rw (fits, take-replicate n 13 rest, drop-replicate (n + 13) rest) refl

-- One entry after the first.
next_part :
    (n sum : ℕ) (e rest : List ℕ)
    → IsPart e (suc n) false sum
    → read_lfn_entry
        (record {
          curr_order = suc (suc n);
          checksum = sum;
          units = replicate (suc n * 13) 0 ++ rest;
        })
        e
      ≡ ok (record {
        curr_order = suc n;
        checksum = sum;
        units = replicate (n * 13) 0 ++ (lfn_part e ++ rest);
      })
unfolding read_lfn_entry
next_part n sum e rest h =
    let size : suc n * 13 ≡ n * 13 + 13 = omega arith in
    let less : suc n - 1 ≡ n = omega arith in
    let down : (suc n == suc (suc n) - 1) ≡ true = ground arith in
    let some_order : (suc n == 0) ≡ false = ground arith in
    let not_first : (suc (suc n) == 0) ≡ false = ground arith in
    let same : (sum == sum) ≡ true = ground arith in
    rw (h.0, h.1, h.2, h.3, not_first, some_order, down, same, less, size)
      (rw (copy_part_lem (n * 13) (lfn_part e) rest) refl)

take_nil : (n : ℕ) → take {A = ℕ} n [] ≡ []
take_nil zero = refl
take_nil (suc n) = refl

resize_lem : (n : ℕ) → resize [] n ≡ replicate n 0 ++ []
resize_lem n =
    let e : n - 0 ≡ n = omega arith in rw (take_nil n, e) (sym (append-nil (replicate n 0)))

-- The first entry, which is the last part.
first_part :
    (n sum : ℕ) (e : List ℕ)
    → IsPart e (suc n) true sum
    → read_lfn_entry (record { curr_order = 0; checksum = 0; units = [] }) e
      ≡ ok (record {
        curr_order = suc n;
        checksum = sum;
        units = replicate (n * 13) 0 ++ (lfn_part e ++ []);
      })
unfolding read_lfn_entry
first_part n sum e h =
    let less : suc n - 1 ≡ n = omega arith in
    let some_order : (suc n == 0) ≡ false = ground arith in
    rw (h.0, h.1, h.2, h.3, some_order, less, resize_lem (n * 13 + 13))
      (rw (copy_part_lem (n * 13) (lfn_part e) []) refl)

read_all-eq :
    (n sum : ℕ) (es : List (List ℕ)) (rest : List ℕ)
    → AreParts n es sum
    → read_all
        (record { curr_order = suc n; checksum = sum; units = replicate (n * 13) 0 ++ rest })
        es
      ≡ ok (record { curr_order = 1; checksum = sum; units = joined es rest })
read_all-eq zero sum [] rest h = refl
read_all-eq zero sum (e ∷ es) rest h = absurd h
read_all-eq (suc n) sum [] rest h = absurd h
read_all-eq (suc n) sum (e ∷ es) rest h =
    rw (next_part n sum e rest h.0) (read_all-eq n sum es (lfn_part e ++ rest) h.1)

-- The entries of a long name of `n + 1` parts, in the order of the disk: the last part first and
-- marked, all with one checksum. `read_lfn_entry` accepts each in turn, and in the end the name holds
-- the parts in their order and nothing else, with the order at 1, as the entry that ends the name wants.
pub long_name_lem :
    (n sum : ℕ) (e : List ℕ) (es : List (List ℕ))
    → IsPart e (suc n) true sum
    → AreParts n es sum
    → read_all (record { curr_order = 0; checksum = 0; units = [] }) (e ∷ es)
      ≡ ok (record { curr_order = 1; checksum = sum; units = joined (e ∷ es) [] })
long_name_lem n sum e es h hs =
    rw (first_part n sum e h) (read_all-eq n sum es (lfn_part e ++ []) hs)

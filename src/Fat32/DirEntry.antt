-- ===== src/Fat32/DirEntry.antt =====
-- crates/utils/fat32/src/dir_entry.rs: directory entries and the long names that stand before them.
-- An entry is the list of its 32 bytes. Decoding UTF-8 and UTF-16 is the business of the string
-- libraries, and a parameter.
pub mod LongName
use Prim.Native.Nat.{bit_and}
use asynclear.Prelude.{
  ℕ, zero, suc, ◌+◌, ◌-◌, ◌*◌, ◌/◌, ◌%◌, ◌^◌, Bool, true, false, not, ◌&&◌, ◌||◌, Option, none,
  some, List, [], ◌∷◌, ◌++◌, ◌==◌, leb, if◌then◌else◌, length, take, drop, replicate, KResult, ok,
  err, einval, ◌>>=◌, ◌>>◌, assert, ensure, ok_or,
}
use asynclear.Fat32.Bytes.{byte_at, le16, le32}

abbrev pub lname_part_len : ℕ
lname_part_len = 13

abbrev pub directory_attr : ℕ
directory_attr = 0x10

abbrev pub lfn_attr : ℕ
lfn_attr = 0x0f

-- `DirEntryAttr::from_bits`: nothing if a bit is not declared.
abbrev pub attr_from_bits : ℕ → Option ℕ
attr_from_bits b = if bit_and b 0x3f == b then some b else none

pub record DirEntry : Type 0 where
  pub short_name : List ℕ
  pub long_name : List ℕ
  pub attr : ℕ
  pub create_date : ℕ
  pub create_time : ℕ
  pub create_ten_ms : ℕ
  pub modify_date : ℕ
  pub modify_time : ℕ
  pub access_date : ℕ
  pub first_cluster_id : ℕ
  pub file_size : ℕ

abbrev pub name_or : List ℕ → List ℕ → List ℕ
name_or [] short = short
name_or (c ∷ cs) short = c ∷ cs

pub name : DirEntry → List ℕ
name e = name_or e.long_name e.short_name

pub is_dir : DirEntry → Bool
is_dir e = bit_and e.attr directory_attr == directory_attr

pub record DirEntryBuilder : Type 0 where
  pub curr_order : ℕ
  pub checksum : ℕ
  pub units : List ℕ

pub data DirEntryBuilderResult : Type 0 where
  builder : DirEntryBuilder → DirEntryBuilderResult
  final : DirEntry → DirEntryBuilderResult

abbrev pub lfn_part : List ℕ → List ℕ
lfn_part e =
    le16 e 1
    ∷ le16 e 3
    ∷ le16 e 5
    ∷ le16 e 7
    ∷ le16 e 9
    ∷ le16 e 14
    ∷ le16 e 16
    ∷ le16 e 18
    ∷ le16 e 20
    ∷ le16 e 22
    ∷ le16 e 24
    ∷ le16 e 28
    ∷ le16 e 30
    ∷ []

-- `resize` of a vector.
abbrev pub resize : List ℕ → ℕ → List ℕ
resize xs n = take n xs ++ replicate (n - length xs) 0

-- `name[offset..offset + 13].copy_from_slice(part)`
abbrev pub copy_part : List ℕ → ℕ → List ℕ → KResult (List ℕ)
copy_part units offset part =
    assert (leb (offset + lname_part_len) (length units))
    >> ok (take offset units ++ (part ++ drop (offset + lname_part_len) units))

abbrev pub entry_order : List ℕ → ℕ
entry_order e = bit_and (byte_at e 0) 0x1f

abbrev pub is_final_entry : List ℕ → Bool
is_final_entry e = not (bit_and (byte_at e 0) 0x40 == 0)

pub read_lfn_entry : DirEntryBuilder → List ℕ → KResult DirEntryBuilder
read_lfn_entry b e =
    let order = entry_order e in
    let offset : ℕ = (order - 1) * lname_part_len in
    let is_first = b.curr_order == 0 in
    let units = if is_first then resize b.units (offset + lname_part_len) else b.units in
    let sum = if is_first then byte_at e 13 else b.checksum in
    assert (not (order == 0))
    >> ensure (is_first || order == b.curr_order - 1) einval
    >> ensure (not (is_first && not (is_final_entry e))) einval
    >> ensure (not (not is_first && is_final_entry e)) einval
    >> ensure (byte_at e 12 == 0 && byte_at e 26 == 0 && byte_at e 27 == 0) einval
    >> ensure (is_first || b.checksum == byte_at e 13) einval
    >> copy_part units offset (lfn_part e)
    >>= λ units'. ok (record { curr_order = order; checksum = sum; units = units' })

-- The length up to the last byte that is no space.
abbrev pub trimmed : List ℕ → List ℕ
trimmed [] = []
trimmed (c ∷ cs) = elim (trimmed cs) [ [] ↦ if c == 0x20 then [] else c ∷ [] | d ∷ ds ↦ c ∷ d ∷ ds ]

abbrev pub join_short : List ℕ → List ℕ → List ℕ
join_short body [] = body
join_short body (c ∷ cs) = body ++ (0x2e ∷ c ∷ cs)

abbrev pub checksum_step : ℕ → ℕ → ℕ
checksum_step sum byte = (sum / 2 + bit_and sum 1 * 2 ^ 7 + byte) % 2 ^ 8

pub calc_checksum : ℕ → List ℕ → ℕ
calc_checksum sum [] = sum
calc_checksum sum (byte ∷ rest) = calc_checksum (checksum_step sum byte) rest

-- The units before the first zero.
pub until_zero : List ℕ → List ℕ
until_zero [] = []
until_zero (u ∷ us) = let rest = until_zero us in if u == 0 then [] else u ∷ rest

module _ (from_utf8 from_utf16 : List ℕ → Option (List ℕ)) where
  pub read_standard_entry : List ℕ → KResult DirEntry
  read_standard_entry e = do
    body ← ok_or (from_utf8 (trimmed (take 8 e))) einval
    ext ← ok_or (from_utf8 (trimmed (take 3 (drop 8 e)))) einval
    attr ← ok_or (attr_from_bits (byte_at e 11)) einval
    ok (record {
      short_name = join_short body ext;
      long_name = [];
      attr = attr;
      create_ten_ms = byte_at e 13;
      create_time = le16 e 14;
      create_date = le16 e 16;
      access_date = le16 e 18;
      first_cluster_id = le16 e 26 + 0x1_0000 * le16 e 20;
      modify_time = le16 e 22;
      modify_date = le16 e 24;
      file_size = le32 e 28;
    })

  pub from_entry : List ℕ → KResult DirEntryBuilderResult
  unfolding read_lfn_entry read_standard_entry
  from_entry e = ok_or (attr_from_bits (byte_at e 11)) einval >>= λ attr.
      if attr == lfn_attr
      then (read_lfn_entry (record { curr_order = 0; checksum = 0; units = [] }) e >>= λ b.
          ok (builder b))
      else (read_standard_entry e >>= λ d. ok (final d))

  -- The entry that ends a long name.
  pub finish : DirEntryBuilder → List ℕ → KResult DirEntryBuilderResult
  unfolding read_standard_entry calc_checksum until_zero
  finish b e = do
    ensure (b.curr_order == 1) einval
    d ← read_standard_entry e
    ensure (b.checksum == calc_checksum 0 (take 11 e)) einval
    long ← ok_or (from_utf16 (until_zero b.units)) einval
    ok (final (record d { long_name = long }))

  pub add_entry : DirEntryBuilder → List ℕ → KResult DirEntryBuilderResult
  unfolding read_lfn_entry finish
  add_entry b e = ok_or (attr_from_bits (byte_at e 11)) einval >>= λ attr.
      if bit_and attr lfn_attr == lfn_attr
      then (read_lfn_entry b e >>= λ b'. ok (builder b'))
      else finish b e

-- ===== src/Fs/Inode/Tests.antt =====
-- Reading and writing files, on examples.
use asynclear.Prelude.{
  ℕ, ◌+◌, ◌-◌, ◌*◌, ◌/◌, ◌≤◌, ◌<◌, ◌≡◌, refl, inl, inr, min, max, [], ◌∷◌, get_or, tabulate, none,
  KResult, ok, arith,
}
use asynclear.Config.{page_size}
use asynclear.BTreeMap.{get}
use asynclear.Fs.Inode.{InodeMeta, regular, read_at, write_at}
use asynclear.Fs.Inode.Content.{ReadsFile, byte_at}
use asynclear.Fs.Inode.Read.{read_at_lem}
use asynclear.Fs.Inode.Fetch.{IsOutside}
use asynclear.Fs.Inode.Write.{write_at_lem}
use asynclear.Fs.Inode.Loss.{write_at-loses_page}

-- A disk whose bytes are their positions.
abbrev identity_page : ℕ → (ℕ → ℕ) → KResult (ℕ → ℕ)
identity_page offset old = ok (λ i. offset + i)

abbrev no_check : ℕ → ℕ → KResult (Unit {0})
no_check a b = ok tt

identity_page-ReadsFile : (n : ℕ) → ReadsFile identity_page (λ x. x) n
identity_page-ReadsFile n id old m = (λ i. id * page_size + i, refl, λ i a b. refl)

abbrev three_pages : InodeMeta
three_pages = record {
  ino = 1;
  mode = regular;
  page_cache = record { pages = []; free_frames = 8 };
  data_len = 10000;
  access_time = 0;
  modify_time = 0;
  change_time = 0;
}

read_at_lem_example :
    (s' : InodeMeta) × (read_at identity_page no_check 6000 4000 1 three_pages
      ≡ (ok (tabulate (byte_at (λ x. x) three_pages) 4000 (min 6000 (10000 - 4000))), s'))
    × ((x : ℕ) → x < 10000 → byte_at (λ x. x) s' x ≡ byte_at (λ x. x) three_pages x)
    × (s'.data_len ≡ 10000)
read_at_lem_example =
    read_at_lem identity_page no_check (λ x. x) 6000 4000 1 three_pages
      (identity_page-ReadsFile 10000) (λ a b. refl) (omega arith)

write_at_lem_example :
    (s' : InodeMeta) × (write_at identity_page no_check (1 ∷ 2 ∷ 3 ∷ []) 100 1 three_pages
      ≡ (ok 3, s'))
    × (s'.data_len ≡ max 10000 103)
    × ((x : ℕ) → 100 ≤ x → x < 103 → byte_at (λ x. x) s' x ≡ get_or (1 ∷ 2 ∷ 3 ∷ []) (x - 100) 0)
    × ((x : ℕ)
        → x < 10000
        → IsOutside 100 3 x
        → byte_at (λ x. x) s' x ≡ byte_at (λ x. x) three_pages x)
write_at_lem_example =
    write_at_lem identity_page no_check (λ x. x) (1 ∷ 2 ∷ 3 ∷ []) 100 1 three_pages
      (identity_page-ReadsFile 10000) (λ a b. refl) (λ id a b. inl (omega arith)) (omega arith)
      (omega arith)

nothing_cached : get three_pages.page_cache.pages (4200 / page_size) ≡ none
unfolding get
nothing_cached = refl

write_at-loses_page_example :
    (s' : InodeMeta) × (write_at identity_page no_check (1 ∷ 2 ∷ 3 ∷ []) 4200 1 three_pages
      ≡ (ok 3, s'))
    × (byte_at (λ x. x) s' 5000 ≡ 0)
write_at-loses_page_example =
    write_at-loses_page identity_page no_check (λ x. x) (1 ∷ 2 ∷ 3 ∷ []) 4200 1 three_pages 5000
      (λ a b. refl) (omega arith) (omega arith) (omega arith) (omega arith) nothing_cached
      (omega arith) (omega arith) (inr (omega arith))

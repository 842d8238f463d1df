-- ===== src/Fs/Cwd/Print.antt =====
-- What `sys_getcwd` writes is the path of the working directory.
use mathlib.Core.List.{append-nil, append_assoc}
use asynclear.Prelude.{
  Bool, ℕ, ◌+◌, ◌-◌, ◌<◌, ◌≤◌, ◌≡◌, refl, sym, ◌∙◌, ap, true, false, List, [], ◌∷◌, ◌++◌, length,
  leb, ok, err, erange, efault, arith, length-append, drop, length-drop, zero, suc,
}
use asynclear.Fs.Dentry.{Name, Store, names_up, join, path, slash}
use asynclear.Fs.Cwd.{total_len, path_len, put_bytes, pieces, write_pieces, write_path, sys_getcwd}

put_here :
    (bs rest : List ℕ)
    → length bs ≤ length rest
    → put_bytes 0 bs rest ≡ ok (bs ++ drop (length bs) rest)
unfolding put_bytes
put_here [] rest h = refl
put_here (b ∷ bs) [] h = absurd (omega arith)
put_here (b ∷ bs) (x ∷ rest) h = rw (put_here bs rest (omega (arith, h))) refl

-- A copy to the end of what is written.
put_after :
    (before bs rest : List ℕ)
    → length bs ≤ length rest
    → put_bytes (length before) bs (before ++ rest) ≡ ok ((before ++ bs) ++ drop (length bs) rest)
unfolding put_bytes
put_after [] bs rest h = put_here bs rest h
put_after (x ∷ before) bs rest h = rw (put_after before bs rest h) refl

drop_twice : (m n : ℕ) (xs : List ℕ) → drop n (drop m xs) ≡ drop (m + n) xs
drop_twice zero n xs = let e : 0 + n ≡ n = omega arith in rw e refl
drop_twice (suc m) zero [] = let e : suc m + 0 ≡ suc m = omega arith in rw e refl
drop_twice (suc m) (suc n) [] = let e : suc m + suc n ≡ suc (m + suc n) = omega arith in rw e refl
drop_twice (suc m) n (x ∷ xs) =
    let e : suc m + n ≡ suc (m + n) = omega arith in rw e (drop_twice m n xs)

flat : List Name → List ℕ
flat [] = []
flat (n ∷ ns) = n ++ flat ns

write_after :
    (ps : List Name) (before rest : List ℕ)
    → total_len ps ≤ length rest
    → write_pieces ps (length before) (before ++ rest)
      ≡ ok (length (before ++ flat ps), (before ++ flat ps) ++ drop (total_len ps) rest)
unfolding write_pieces flat
write_after [] before rest h = ap (λ l. ok (length l, l ++ rest)) (sym (append-nil before))
write_after (p ∷ ps) before rest h =
    let run1 = put_after before p rest (omega (arith, h)) in
    let run2 =
      write_after ps (before ++ p) (drop (length p) rest)
        (omega (arith, h, length-drop (length p) rest)) in
    rw (run1, sym (length-append before p), run2, drop_twice (length p) (total_len ps) rest)
      (ap (λ l. ok (length l, l ++ drop (length p + total_len ps) rest))
        (append_assoc before p (flat ps)))

flat-pieces : (names : List Name) → flat (pieces names) ≡ join names
unfolding flat join
flat-pieces [] = refl
flat-pieces (n ∷ []) = append-nil n
flat-pieces (n ∷ m ∷ rest) = ap (λ t. n ++ (slash ∷ t)) (flat-pieces (m ∷ rest))

total_len-pieces :
    (names : List Name) → total_len (pieces names) ≡ total_len names + (length names - 1)
total_len-pieces [] = omega arith
total_len-pieces (n ∷ []) = omega arith
total_len-pieces (n ∷ m ∷ rest) = omega (arith, total_len-pieces (m ∷ rest))

join_len : (names : List Name) → length (join names) ≡ total_len names + (length names - 1)
unfolding join
join_len [] = omega arith
join_len (n ∷ []) = omega arith
join_len (n ∷ m ∷ rest) =
    omega (arith, length-append n (slash ∷ join (m ∷ rest)), join_len (m ∷ rest))

write_path_lem :
    (names : List Name) (buf : List ℕ)
    → path_len names ≤ length buf
    → write_path names buf ≡ ok ((slash ∷ join names) ++ (0 ∷ drop (path_len names) buf))
unfolding write_path
write_path_lem names buf h =
    let size = total_len-pieces names in
    let rest1 : List ℕ = drop 1 buf in
    let l1 = length-drop 1 buf in
    let rest2 : List ℕ = drop (total_len (pieces names)) rest1 in
    let l2 = length-drop (total_len (pieces names)) rest1 in
    let written : List ℕ = slash ∷ flat (pieces names) in
    let run1 = put_after [] (slash ∷ []) buf (omega (arith, h)) in
    let run2 = write_after (pieces names) (slash ∷ []) rest1 (omega (arith, h, l1, size)) in
    let run3 = put_after written (0 ∷ []) rest2 (omega (arith, h, l1, l2, size)) in
    let left : drop 1 rest2 ≡ drop (path_len names) buf =
      ap (drop 1) (drop_twice 1 (total_len (pieces names)) buf)
      ∙ drop_twice (1 + total_len (pieces names)) 1 buf
      ∙ ap (λ (n : ℕ). drop n buf) (omega (arith, size)) in
    rw (write_path, run1, run2, run3)
      (ap ok (
        append_assoc written (0 ∷ []) (drop 1 rest2)
        ∙ ap (λ t. (slash ∷ t) ++ (0 ∷ drop 1 rest2)) (flat-pieces names)
        ∙ ap (λ (t : List ℕ). (slash ∷ join names) ++ (0 ∷ t)) left))

pub sys_getcwd_lem :
    (s : Store) (cwd : ℕ) (buf : List ℕ)
    → (length (path s cwd) < length buf
        → (sys_getcwd s cwd false buf ≡ err efault)
          × (sys_getcwd s cwd true buf
              ≡ ok (path s cwd ++ (0 ∷ drop (length (path s cwd) + 1) buf))))
      × (length buf ≤ length (path s cwd)
          → (writable : Bool) → sys_getcwd s cwd writable buf ≡ err erange)
unfolding sys_getcwd path
sys_getcwd_lem s cwd buf =
    let names = names_up (length s) s cwd in
    (
      λ h.
          let fits : path_len names ≤ length buf = omega (arith, h, join_len names) in
          let yes : leb (path_len names) (length buf) ≡ true = ground (arith, fits) in
          let size : path_len names ≡ length (path s cwd) + 1 = omega (arith, join_len names) in
          (
            rw (sys_getcwd, yes) refl,
            rw (sys_getcwd, yes)
                (write_path_lem names buf fits
                  ∙ ap (λ (n : ℕ). ok (path s cwd ++ (0 ∷ drop n buf))) size),
          ),
      λ h writable.
          let no : leb (path_len names) (length buf) ≡ false = ground (arith, h, join_len names) in
          rw (sys_getcwd, no) refl,
    )

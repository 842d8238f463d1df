-- ===== src/Fs/Dentry/Cache.antt =====
-- The children of a directory remember what was looked up.
use asynclear.Prelude.{
  ℕ, zero, suc, ◌≡◌, refl, true, false, Option, none, some, List, [], ◌∷◌, ◌++◌, length, get_elem?,
  set, ok, arith,
}
use asynclear.Prelude.Stateful.{Action}
use asynclear.Fs.Dentry.{
  at_dir, Name, same, dot, dot_dot, is_special, DEntry, dir, bytes, DynInode, dir_inode,
  bytes_inode, DEntryDir, Store, find_child, new_dir, add_child, lookup, lookup_general,
}

pub same_refl : (n : Name) → same n n ≡ true
same_refl [] = refl
same_refl (a ∷ n) = ground (arith, same_refl n)

pub get_elem?-set_self :
    (s : Store) (d : ℕ) (node other : DEntryDir)
    → get_elem? s d ≡ some other
    → get_elem? (set s d node) d ≡ some node
get_elem?-set_self [] d node other h = absurd cc
get_elem?-set_self (x ∷ s) zero node other h = refl
get_elem?-set_self (x ∷ s) (suc d) node other h = get_elem?-set_self s d node other h

get_elem?-append :
    (s t : Store) (d : ℕ) (node : DEntryDir)
    → get_elem? s d ≡ some node
    → get_elem? (s ++ t) d ≡ some node
get_elem?-append [] t d node h = absurd cc
get_elem?-append (x ∷ s) t zero node h = h
get_elem?-append (x ∷ s) t (suc d) node h = get_elem?-append s t d node h

pub at_dir_found :
    {A : Type 0} (d : ℕ) (s : Store) (node : DEntryDir)
    → get_elem? s d ≡ some node
    → (f : DEntryDir → Action Store A) → at_dir d f s ≡ f node s
at_dir_found d s node g f = rw (at_dir, g) refl

pub find_child_head :
    (n : Name) (e : DEntry) (rest : List (Name × DEntry)) → find_child ((n, e) ∷ rest) n ≡ some e
unfolding find_child
find_child_head n e rest = rw (same_refl n) refl

module _ (inode_lookup : ℕ → Name → Option DynInode) where
  pub lookup-child :
      (d : ℕ) (n : Name) (s : Store) (node : DEntryDir) (e : DEntry)
      → is_special n ≡ false
      → get_elem? s d ≡ some node
      → find_child node.children n ≡ some e
      → lookup inode_lookup d n s ≡ (ok (some e), s)
  unfolding lookup lookup_general
  lookup-child d n s node e p g f =
      let a : same n dot ≡ false = ground (arith, p) in
      let b : same n dot_dot ≡ false = ground (arith, p) in
      rw (lookup, at_dir_found d s node g, a, b, lookup_general, f) refl

  pub lookup-dot :
      (d : ℕ) (s : Store) (node : DEntryDir)
      → get_elem? s d ≡ some node
      → lookup inode_lookup d dot s ≡ (ok (some (dir d)), s)
  unfolding lookup
  lookup-dot d s node g = rw (lookup, at_dir_found d s node g) refl

  -- A name that is not in the directory is asked of the inode once: the entry made for it is found by
  -- the next lookup, which changes nothing.
  pub lookup-fresh :
      (d : ℕ) (n : Name) (s : Store) (node : DEntryDir) (i : DynInode)
      → is_special n ≡ false
      → get_elem? s d ≡ some node
      → find_child node.children n ≡ none
      → inode_lookup node.inode n ≡ some i
      → (e : DEntry) × (s' : Store) × (lookup inode_lookup d n s ≡ (ok (some e), s'))
        × (lookup inode_lookup d n s' ≡ (ok (some e), s'))
  unfolding lookup lookup_general
  lookup-fresh d n s node i p g f b = fresh_entry i b
    where
      plain : (same n dot ≡ false) × (same n dot_dot ≡ false)
      plain = (ground (arith, p), ground (arith, p))

      fresh_entry :
          (i : DynInode)
          → inode_lookup node.inode n ≡ some i
          → (e : DEntry) × (s' : Store) × (lookup inode_lookup d n s ≡ (ok (some e), s'))
            × (lookup inode_lookup d n s' ≡ (ok (some e), s'))
      fresh_entry (dir_inode k) b =
          let e = dir (length s) in
          let s' = set s d (add_child node n e) ++ (new_dir d n k ∷ []) in
          (
            e,
            s',
            rw (lookup, at_dir_found d s node g, plain.0, plain.1, lookup_general, f, b) refl,
            lookup-child d n s' (add_child node n e) e p
                (get_elem?-append (set s d (add_child node n e)) (new_dir d n k ∷ []) d
                  (add_child node n e) (get_elem?-set_self s d (add_child node n e) node g))
                (find_child_head n e node.children),
          )
      fresh_entry (bytes_inode k) b =
          let e = bytes d n k in
          let s' = set s d (add_child node n e) in
          (
            e,
            s',
            rw (lookup, at_dir_found d s node g, plain.0, plain.1, lookup_general, f, b) refl,
            lookup-child d n s' (add_child node n e) e p
                (get_elem?-set_self s d (add_child node n e) node g)
                (find_child_head n e node.children),
          )

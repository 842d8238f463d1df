-- ===== src/Fs/Path/Roundtrip.antt =====
-- Walking the path of a directory leads to the directory.
use asynclear.Prelude.{
  ℕ, zero, suc, ◌<◌, ◌≡◌, refl, ◌∙◌, ap, false, Option, none, some, List, [], ◌∷◌, ◌++◌, ◌==◌,
  length, get_elem?, contains, All, ok, arith,
}
use mathlib.Core.List.{append-nil, append_assoc}
use asynclear.Fs.Dentry.{
  Name, is_special, dir, DEntryDir, DynInode, Store, find_child, lookup, slash, names_up, join,
  path,
}
use asynclear.Fs.Dentry.Cache.{lookup-child, lookup-dot}
use asynclear.Fs.Path.{
  components_from, components, close, PathToInode, walk, path_walk, type_of, walk_components,
  find_file, start_dir, resolve_path,
}
use asynclear.Fs.Path.Walk.{components_from-append, walk-append}

-- A name that a directory can have.
abbrev pub IsName : Name → Type 0
IsName n = (0 < length n) × (contains n slash ≡ false) × (is_special n ≡ false)

-- Directory `d` is reached from the root by names, given from the last to the first: each parent is
-- older than its child, has it among its children, and the child knows its parent and its name.
abbrev pub IsBelow : Store → ℕ → List Name → ℕ → Type 0
IsBelow s root [] d =
    (d ≡ root) × ((node : DEntryDir) × (get_elem? s d ≡ some node) × (node.parent ≡ none))
IsBelow s root (n ∷ up) d =
    (p : ℕ) × (p < d)
    × IsBelow s root up p
    × ((node : DEntryDir) × (get_elem? s p ≡ some node)
        × (find_child node.children n ≡ some (dir d)))
    × ((node : DEntryDir) × (get_elem? s d ≡ some node) × (node.parent ≡ some p) × (node.name ≡ n))
    × IsName n

abbrev pub down : List Name → List Name
down [] = []
down (n ∷ up) = down up ++ (n ∷ [])

get_elem?-length : (s : Store) (d : ℕ) (node : DEntryDir) → get_elem? s d ≡ some node → d < length s
get_elem?-length [] d node h = absurd cc
get_elem?-length (x ∷ s) zero node h = omega arith
get_elem?-length (x ∷ s) (suc d) node h = omega (arith, get_elem?-length s d node h)

names_up-down :
    (fuel : ℕ) (s : Store) (root : ℕ) (up : List Name) (d : ℕ)
    → IsBelow s root up d
    → d < fuel
    → names_up fuel s d ≡ down up
unfolding names_up
names_up-down zero s root up d b h = absurd (omega arith)
names_up-down (suc fuel) s root [] d (e, (node, g, p)) h = rw (names_up, g, p) refl
names_up-down (suc fuel) s root (n ∷ up) d (p, l, b, _, (node, g, q, m), _) h =
    rw (names_up, g, q, m, names_up-down fuel s root up p b (omega arith)) refl

is_stored : (s : Store) (root : ℕ) (up : List Name) (d : ℕ) → IsBelow s root up d → d < length s
is_stored s root [] d (e, (node, g, p)) = get_elem?-length s d node g
is_stored s root (n ∷ up) d (p, l, b, _, (node, g, _, _), _) = get_elem?-length s d node g

components-name :
    (acc n : Name) → contains n slash ≡ false → components_from acc n ≡ close (acc ++ n)
unfolding components_from
components-name acc [] h = rw (append-nil acc) refl
components-name acc (c ∷ n) h =
    let a : (c == slash) ≡ false = ground (arith, h) in
    let b : contains n slash ≡ false = ground (arith, h) in
    rw (a, components-name (acc ++ (c ∷ [])) n b, append_assoc acc (c ∷ []) n) refl

close-name : (n : Name) → 0 < length n → close n ≡ n ∷ []
close-name [] h = absurd (omega arith)
close-name (c ∷ n) h = refl

components-join : (ns : List Name) → All IsName ns → components (join ns) ≡ ns
unfolding join components_from
components-join [] a = refl
components-join (n ∷ []) (v, _) = components-name [] n v.1 ∙ close-name n v.0
components-join (n ∷ m ∷ rest) (v, a) =
    components_from-append [] n (join (m ∷ rest))
    ∙ rw (components-name [] n v.1, close-name n v.0, components-join (m ∷ rest) a) refl

All-append : (ns ms : List Name) → All IsName ns → All IsName ms → All IsName (ns ++ ms)
All-append [] ms a b = b
All-append (n ∷ ns) ms a b = (a.0, All-append ns ms a.1 b)

All-down :
    (s : Store) (root : ℕ) (up : List Name) (d : ℕ) → IsBelow s root up d → All IsName (down up)
All-down s root [] d b = tt
All-down s root (n ∷ up) d (p, l, b, _, _, v) =
    All-append (down up) (n ∷ []) (All-down s root up p b) (v, tt)

components-path :
    (s : Store) (root : ℕ) (up : List Name) (d : ℕ)
    → IsBelow s root up d
    → d < length s
    → components (path s d) ≡ down up
unfolding path components_from
components-path s root up d b h =
    rw (names_up-down (length s) s root up d b h)
      (components-join (down up) (All-down s root up d b))

module _ (inode_lookup : ℕ → Name → Option DynInode) where
  walk-down :
      (s : Store) (root : ℕ) (up : List Name) (n : Name) (d : ℕ) (b : IsBelow s root (n ∷ up) d)
      → (c : Name) × (cs : List Name) × (down (n ∷ up) ≡ c ∷ cs)
        × (walk inode_lookup root c cs s ≡ (ok (b.0, n), s))
  unfolding walk
  walk-down s root [] n d (p, l, (e, _), _, _, _) = (n, [], refl, rw e refl)
  walk-down s root (m ∷ up) n d (p, l, b, _, _, _) =
      let (c, cs, e, w) = walk-down s root up m p b in
      let (pp, _, _, (node, g, f), _, v) = b in
      (
        c,
        cs ++ (n ∷ []),
        ap (λ (ns : List Name). ns ++ (n ∷ [])) e,
        walk-append inode_lookup root c n cs [] s
            ∙ rw (w, lookup-child inode_lookup pp m s node (dir p) v.2 g f) refl,
      )

  walk_components-down :
      (s : Store) (root : ℕ) (up : List Name) (d : ℕ) (b : IsBelow s root up d)
      → (r : PathToInode) × (walk_components inode_lookup root (down up) s ≡ (ok r, s))
        × (lookup inode_lookup r.dir r.last_component s ≡ (ok (some (dir d)), s))
  walk_components-down s root [] d (e, (node, g, _)) =
      (_, refl, rw (← e) (lookup-dot inode_lookup d s node g))
  walk_components-down s root (n ∷ up) d b =
      let (c, cs, e, w) = walk-down s root up n d b in
      let (p, _, _, (node, g, f), _, v) = b in
      (
        record { dir = p; last_type = type_of n; last_component = n },
        rw (e, w) refl,
        lookup-child inode_lookup p n s node (dir d) v.2 g f,
      )

  absolute :
      (s : Store) (root cwd d : ℕ)
      → resolve_path inode_lookup root (start_dir cwd) (path s d) s
        ≡ walk_components inode_lookup root (components (path s d)) s
  unfolding resolve_path path_walk path
  absolute s root cwd d = refl

  -- `path` prints the way from the root to a directory, and `find_file` of that path, from any working
  -- directory, finds the same directory, and asks no inode and changes nothing on the way. The names on
  -- the way are not empty, hold no slash, and are not `.` or `..`.
  pub find_file-path :
      (s : Store) (root cwd : ℕ) (up : List Name) (d : ℕ)
      → IsBelow s root up d
      → find_file inode_lookup root cwd (path s d) s ≡ (ok (dir d), s)
  unfolding find_file
  find_file-path s root cwd up d b =
      let (r, w, l) = walk_components-down s root up d b in
      let inside = is_stored s root up d b in
      rw (absolute s root cwd d, components-path s root up d b inside, w, l) refl

-- ===== src/Fs/Path/Walk.antt =====
-- A path is walked piece by piece.
use mathlib.Core.List.{append_assoc}
use asynclear.Prelude.{
  ℕ, ◌≡◌, refl, sym, ◌∙◌, Bool-cases, Option, none, some, List, [], ◌∷◌, ◌++◌, ◌==◌, KResult, ok,
  err, panic, inl, inr,
}
use asynclear.Prelude.Stateful.{after_call, after_call_cong, after_call_assoc}
use asynclear.Fs.Dentry.{Name, DEntry, dir, bytes, DynInode, Store, lookup, slash}
use asynclear.Fs.Path.{
  components_from, components, close, PathToInode, in_found, walk, path_walk, walk_components,
  type_of,
}

-- A path whose part before a slash is `p`.
pub components_from-append :
    (acc p q : Name)
    → components_from acc (p ++ (slash ∷ q)) ≡ components_from acc p ++ components q
unfolding components_from
components_from-append acc [] q = refl
components_from-append acc (c ∷ p) q = elim (Bool-cases (c == slash)) [
  | inl h ↦
      rw (h, components_from-append [] p q)
        (sym (append_assoc (close acc) (components p) (components q)))
  | inr h ↦ rw (h, components_from-append (acc ++ (c ∷ [])) p q) refl
]

module _ (inode_lookup : ℕ → Name → Option DynInode) where
  later :
      (next q : Name) (cs qs : List Name) (found : Option DEntry) (s : Store)
      → ((d' : ℕ) (s : Store)
          → walk inode_lookup d' next (cs ++ (q ∷ qs)) s
            ≡ after_call
                (walk inode_lookup d' next cs s)
                (λ (d', last) s'. walk inode_lookup d' last (q ∷ qs) s'))
      → in_found found (λ d'. walk inode_lookup d' next (cs ++ (q ∷ qs))) s
        ≡ after_call
            (in_found found (λ d'. walk inode_lookup d' next cs) s)
            (λ (d', last) s'. walk inode_lookup d' last (q ∷ qs) s')
  later next q cs qs none s h = refl
  later next q cs qs (some (dir d')) s h = h d' s
  later next q cs qs (some (bytes p n i)) s h = refl

  pub walk-append :
      (d : ℕ) (c q : Name) (cs qs : List Name) (s : Store)
      → walk inode_lookup d c (cs ++ (q ∷ qs)) s
        ≡ after_call
            (walk inode_lookup d c cs s)
            (λ (d', last) s'. walk inode_lookup d' last (q ∷ qs) s')
  unfolding walk
  walk-append d c q [] qs s = refl
  walk-append d c q (next ∷ cs) qs s =
      after_call_cong (lookup inode_lookup d c s)
        (λ (found : Option DEntry) (s : Store).
          in_found found (λ d'. walk inode_lookup d' next (cs ++ (q ∷ qs))) s)
        (λ (found : Option DEntry) (s : Store).
          after_call (in_found found (λ d'. walk inode_lookup d' next cs) s)
            (λ (d', last) s'. walk inode_lookup d' last (q ∷ qs) s'))
        (λ found s. later next q cs qs found s (λ d' s. walk-append d' next q cs qs s))
      ∙ sym (
          after_call_assoc (lookup inode_lookup d c s)
            (λ (found : Option DEntry) (s : Store).
              in_found found (λ d'. walk inode_lookup d' next cs) s)
            (λ (d', last) s'. walk inode_lookup d' last (q ∷ qs) s'))

  result : ℕ × Name → Store → KResult PathToInode × Store
  result (d', last) s =
      (ok (record { dir = d'; last_type = type_of last; last_component = last }), s)

  resume_found :
      (c : Name) (cs : List Name) (found : Option DEntry) (s : Store)
      → after_call
          (in_found found (λ d'. walk inode_lookup d' c cs) s)
          (λ (d', last) s. result (d', last) s)
        ≡ in_found found (λ d'. walk_components inode_lookup d' (c ∷ cs)) s
  unfolding result
  resume_found c cs none s = refl
  resume_found c cs (some (dir d)) s = refl
  resume_found c cs (some (bytes p n i)) s = refl

  resume :
      (c : Name) (cs : List Name) (r : KResult (ℕ × Name) × Store)
      → after_call
          (after_call r (λ (d', last) s'. walk inode_lookup d' last (c ∷ cs) s'))
          (λ (d', last) s. result (d', last) s)
        ≡ after_call (after_call r (λ (d', last) s. result (d', last) s)) (λ p2i s'.
          after_call
            (lookup inode_lookup p2i.dir p2i.last_component s')
            (λ found. in_found found (λ d'. walk_components inode_lookup d' (c ∷ cs))))
  unfolding result walk
  resume c cs (ok (d', last), s) =
      after_call_assoc (lookup inode_lookup d' last s)
        (λ (found : Option DEntry). in_found found (λ d''. walk inode_lookup d'' c cs))
        (λ (d', last) s. result (d', last) s)
      ∙ after_call_cong (lookup inode_lookup d' last s)
          (λ (found : Option DEntry) (s : Store).
            after_call (in_found found (λ d''. walk inode_lookup d'' c cs) s)
              (λ (d', last) s. result (d', last) s))
          (λ (found : Option DEntry).
            in_found found (λ d''. walk_components inode_lookup d'' (c ∷ cs)))
          (resume_found c cs)
  resume c cs (err x, s) = refl
  resume c cs (panic, s) = refl

  -- Walking a path `p` before a slash and a path `q` after it, when both name something, is walking `p`,
  -- looking up what it names, and walking `q` from there: ENOENT if it is missing, ENOTDIR if it is no
  -- directory. How many slashes stand between and around the parts does not matter.
  pub path_walk-append :
      (d : ℕ) (p q c c' : Name) (cs cs' : List Name) (s : Store)
      → components p ≡ c ∷ cs
      → components q ≡ c' ∷ cs'
      → path_walk inode_lookup d (p ++ (slash ∷ q)) s
        ≡ after_call (path_walk inode_lookup d p s) (λ p2i s'.
          after_call
            (lookup inode_lookup p2i.dir p2i.last_component s')
            (λ found. in_found found (λ d'. path_walk inode_lookup d' q)))
  unfolding path_walk result
  path_walk-append d p q c c' cs cs' s e e' =
      rw (components_from-append [] p q, e, e', walk-append d c c' cs cs' s)
        (resume c' cs' (walk inode_lookup d c cs s))

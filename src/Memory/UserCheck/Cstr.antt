-- ===== src/Memory/UserCheck/Cstr.antt =====
-- The search of `check_cstr` for the end of a string.
use asynclear.Prelude.{
  ℕ, zero, suc, ◌+◌, ◌-◌, ◌*◌, ◌/◌, ◌%◌, ◌≤◌, ◌<◌, ◌≡◌, ◌≢◌, ◌⊎◌, refl, tabulate, ◌∙◌, ap, Bool,
  Bool-cases, true, false, ◌&&◌, List, lt_cases, inl, inr, ltb, leb, ◌==◌, if◌then◌else◌, ok, err,
  einval, efault, enametoolong, arith,
}
use asynclear.Config.{page_size, low_address_end, max_pathname_len}
use asynclear.Memory.Address.{VirtAddr, vpn_floor, page_start}
use asynclear.Memory.MemorySpace.{MemorySpace}
use asynclear.Memory.UserCheck.{
  Access, try_user_byte, scan, check_cstr_end, find_end, check_cstr, cstr_rounds,
}

leb-false : (a b : ℕ) → b < a → leb a b ≡ false
leb-false a b h = ground arith

module _ (memory : VirtAddr → ℕ) where
  scan-found :
      (n : ℕ) (va e : VirtAddr)
      → va ≤ e
      → e < va + n
      → memory e ≡ 0
      → ((x : VirtAddr) → va ≤ x → x < e → memory x ≢ 0)
      → scan memory n va ≡ e
  unfolding scan
  scan-found zero va e a b z nz = absurd (omega arith)
  scan-found (suc n) va e a b z nz = elim (lt_cases va e) [
    | inl h ↦ ground (
      arith,
      nz va,
      scan-found n (va + 1) e (omega arith) (omega arith) z (λ x p q. nz x (omega arith) q),
    )
    | inr h ↦ let q : va ≡ e = omega arith in ground (arith, q, ap memory q, z)
  ]

  scan-none :
      (n : ℕ) (va : VirtAddr)
      → ((x : VirtAddr) → va ≤ x → x < va + n → memory x ≢ 0)
      → scan memory n va ≡ va + n
  unfolding scan
  scan-none zero va nz = omega arith
  scan-none (suc n) va nz =
      ground (arith, nz va, scan-none n (va + 1) (λ x p q. nz x (omega arith) (omega arith)))

  -- The end found in the page of `va`, for a string that ends at `e`.
  check_cstr_end-here :
      (va e : VirtAddr)
      → va ≤ e
      → e < low_address_end
      → e / 4096 ≡ va / 4096
      → memory e ≡ 0
      → ((x : VirtAddr) → va ≤ x → x < e → memory x ≢ 0)
      → check_cstr_end memory va ≡ e
  unfolding check_cstr_end page_start vpn_floor
  check_cstr_end-here va e a b p z nz =
      scan-found (page_start (vpn_floor va) + page_size - va) va e a (omega arith) z nz

  check_cstr_end-next :
      (va : VirtAddr)
      → va < low_address_end
      → ((x : VirtAddr) → va ≤ x → x < (va / 4096 + 1) * 4096 → memory x ≢ 0)
      → check_cstr_end memory va ≡ (va / 4096 + 1) * 4096
  unfolding check_cstr_end page_start vpn_floor
  check_cstr_end-next va b nz =
      scan-none (page_start (vpn_floor va) + page_size - va) va (λ x p q. nz x p (omega arith))
      ∙ omega arith

module _ (access : MemorySpace → VirtAddr → Access) (memory : VirtAddr → ℕ)
    (is_utf8 : List ℕ → Bool) where
  -- A round that meets the end of the string, and one that meets the end of the page.
  find_end-here :
      (fuel : ℕ) (start va e : VirtAddr) (m m' : MemorySpace)
      → check_cstr_end memory va ≡ e
      → e / 4096 ≡ va / 4096
      → va ≤ e
      → try_user_byte access va m ≡ (ok tt, m')
      → find_end access memory is_utf8 (suc fuel) start va m ≡ (ok e, m')
  unfolding find_end
  find_end-here fuel start va e m m' c p l t =
      let b : (ltb va e && (e % page_size == 0)) ≡ false = ground arith in rw (t, c, b) refl

  find_end-next :
      (fuel : ℕ) (start va e : VirtAddr) (m m' : MemorySpace)
      → check_cstr_end memory va ≡ e
      → e ≡ (va / 4096 + 1) * 4096
      → try_user_byte access va m ≡ (ok tt, m')
      → find_end access memory is_utf8 (suc fuel) start va m ≡ (
          if leb low_address_end e
          then (err efault, m')
          else if ltb max_pathname_len (e - start)
          then (err enametoolong, m')
          else find_end access memory is_utf8 fuel start e m')
  unfolding find_end
  find_end-next fuel start va e m m' c p t =
      let b : (ltb va e && (e % page_size == 0)) ≡ true = ground arith in rw (t, c, b) refl

  find_end-found :
      (fuel : ℕ) (start va e : VirtAddr) (m : MemorySpace)
      → start ≤ va
      → va ≤ e
      → e < low_address_end
      → e ≤ start + max_pathname_len
      → e / 4096 < va / 4096 + fuel
      → memory e ≡ 0
      → ((x : VirtAddr) → va ≤ x → x < e → memory x ≢ 0)
      → ((x : VirtAddr) (m : MemorySpace)
          → va ≤ x
          → x ≤ e
          → (m' : MemorySpace) × (try_user_byte access x m ≡ (ok tt, m')))
      → (m' : MemorySpace) × (find_end access memory is_utf8 fuel start va m ≡ (ok e, m'))
  find_end-found zero start va e m h1 h2 h3 h4 f z nz t = absurd (omega arith)
  find_end-found (suc fuel) start va e m h1 h2 h3 h4 f z nz t =
      let (m', t') = t va m (omega arith) h2 in
      elim (lt_cases (va / 4096) (e / 4096)) [
        | inl h ↦
            let next = (va / 4096 + 1) * 4096 in
            let c = check_cstr_end-next memory va (omega arith) (λ x p q. nz x p (omega arith)) in
            let b1 : leb low_address_end next ≡ false = ground arith in
            let b2 : ltb max_pathname_len (next - start) ≡ false = ground arith in
            let r =
              find_end-found fuel start next e m' (omega arith) (omega arith) h3 h4 (omega arith) z
                (λ x p q. nz x (omega arith) q) (λ x m p q. t x m (omega arith) q) in
            (r.0, find_end-next fuel start va next m m' c refl t' ∙ rw (b1, b2) r.1)
        | inr h ↦
            let p : e / 4096 ≡ va / 4096 = omega arith in
            (
              m',
              find_end-here fuel start va e m m' (check_cstr_end-here memory va e h2 h3 p z nz) p h2
                  t',
            )
      ]

  -- A user string of at most 16384 bytes, whose bytes and terminator lie below the limit of user
  -- addresses and are accessible, is found: if it is UTF-8, `check_cstr` returns exactly its bytes up to
  -- the first null byte, and otherwise fails with EINVAL. The loop ends within its rounds.
  pub check_cstr_lem :
      (start e : VirtAddr) (m : MemorySpace)
      → start ≤ e
      → e < low_address_end
      → e ≤ start + max_pathname_len
      → memory e ≡ 0
      → ((x : VirtAddr) → start ≤ x → x < e → memory x ≢ 0)
      → ((x : VirtAddr) (m : MemorySpace)
          → start ≤ x
          → x ≤ e
          → (m' : MemorySpace) × (try_user_byte access x m ≡ (ok tt, m')))
      → (m' : MemorySpace) × (check_cstr access memory is_utf8 start m ≡ (
          if is_utf8 (tabulate memory start (e - start))
          then (ok (tabulate memory start (e - start)), m')
          else (err einval, m')))
  unfolding check_cstr
  check_cstr_lem start e m h1 h2 h3 z nz t =
      let b = leb-false low_address_end start (omega arith) in
      let r =
        find_end-found cstr_rounds start start e m (omega arith) h1 h2 h3 (omega arith) z nz t in
      elim (Bool-cases (is_utf8 (tabulate memory start (e - start)))) [
        | inl u ↦ (r.0, rw (b, r.1, u) refl)
        | inr u ↦ (r.0, rw (b, r.1, u) refl)
      ]

  -- `cstr_rounds` rounds are enough for a string without an end too.
  find_end-long :
      (fuel : ℕ) (start va : VirtAddr) (m : MemorySpace)
      → start ≤ va
      → va < low_address_end
      → va ≤ start + max_pathname_len
      → (start + max_pathname_len) / 4096 + 1 ≤ va / 4096 + fuel
      → ((x : VirtAddr) → va ≤ x → x ≤ start + max_pathname_len + page_size → memory x ≢ 0)
      → ((x : VirtAddr) (m : MemorySpace)
          → (m' : MemorySpace) × (try_user_byte access x m ≡ (ok tt, m')))
      → (m' : MemorySpace) × ((find_end access memory is_utf8 fuel start va m ≡ (err efault, m'))
          ⊎ (find_end access memory is_utf8 fuel start va m ≡ (err enametoolong, m')))
  find_end-long zero start va m h1 h2 h3 f nz t = absurd (omega arith)
  find_end-long (suc fuel) start va m h1 h2 h3 f nz t =
      let (m', t') = t va m in
      let next = (va / 4096 + 1) * 4096 in
      let c = check_cstr_end-next memory va h2 (λ x p q. nz x p (omega arith)) in
      let s = find_end-next fuel start va next m m' c refl t' in
      elim (lt_cases next low_address_end) [
        | inr h ↦
            let b : leb low_address_end next ≡ true = ground arith in (m', inl (s ∙ rw b refl))
        | inl h ↦
            let b1 : leb low_address_end next ≡ false = ground arith in
            elim (lt_cases max_pathname_len (next - start)) [
              | inl g ↦
                  let b2 : ltb max_pathname_len (next - start) ≡ true = ground arith in
                  (m', inr (s ∙ rw (b1, b2) refl))
              | inr g ↦
                  let b2 : ltb max_pathname_len (next - start) ≡ false = ground arith in
                  let e : find_end access memory is_utf8 (suc fuel) start va m
                      ≡ find_end access memory is_utf8 fuel start next m' =
                    s ∙ rw (b1, b2) refl in
                  let r =
                    find_end-long fuel start next m' (omega arith) h (omega arith) (omega arith)
                      (λ x p q. nz x (omega arith) q) t in
                  (r.0, elim r.1 [ inl q ↦ inl (e ∙ q) | inr q ↦ inr (e ∙ q) ])
            ]
      ]

  -- When no byte of the 20480 bytes after the first is null, and user memory is accessible, `check_cstr`
  -- fails: with EFAULT or with ENAMETOOLONG. It never runs out of rounds.
  pub check_cstr-long :
      (start : VirtAddr) (m : MemorySpace)
      → ((x : VirtAddr) → start ≤ x → x ≤ start + max_pathname_len + page_size → memory x ≢ 0)
      → ((x : VirtAddr) (m : MemorySpace)
          → (m' : MemorySpace) × (try_user_byte access x m ≡ (ok tt, m')))
      → (m' : MemorySpace) × ((check_cstr access memory is_utf8 start m ≡ (err efault, m'))
          ⊎ (check_cstr access memory is_utf8 start m ≡ (err enametoolong, m')))
  unfolding check_cstr
  check_cstr-long start m nz t = elim (lt_cases start low_address_end) [
    | inr h ↦ let b : leb low_address_end start ≡ true = ground arith in (m, inl (rw b refl))
    | inl h ↦
        let b : leb low_address_end start ≡ false = ground arith in
        let r =
          find_end-long cstr_rounds start start m (omega arith) h (omega arith) (omega arith) nz
            t in
        (r.0, elim r.1 [ inl q ↦ inl (rw (b, q) refl) | inr q ↦ inr (rw (b, q) refl) ])
  ]

-- ===== src/Ring/Window.antt =====
-- What a ring holds: `n` entries going round at `cap`, from the one `i` places behind `head`.
use native.Mathlib.Nat.{mod-add-mod, mod-eq_of_lt, mod-eq-sub-mod}
use native.Mathlib.Decide.{dec_lt}
use labtether_agent.Common.{
  ℕ, zero, suc, ◌+◌, ◌-◌, ◌%◌, ◌≤◌, ◌<◌, ◌≡◌, ◌≢◌, refl, sym, ap, ap₂, ◌∙◌, List, [], ◌∷◌, ◌++◌,
  arith, set, get_or, length, get_or-set_ne,
}

-- Two places of a round are different places of the array.
pub place-ne : {c h i j : ℕ} → h < c → i < j → j < i + c → j ≤ c → (h + i) % c ≢ (h + j) % c
place-ne {c} {h} {i} {j} p q r s = elim (dec_lt (h + i) c) [
  | yes a ↦ elim (dec_lt (h + j) c) [
    | yes b ↦ omega (arith, mod-eq_of_lt a, mod-eq_of_lt b)
    | no b ↦ omega (
      arith,
      mod-eq_of_lt a,
      mod-eq-sub-mod {n = h + j} {m = c} (omega arith),
      mod-eq_of_lt {n = h + j - c} {m = c} (omega arith),
    )
  ]
  | no a ↦ omega (
    arith,
    mod-eq-sub-mod {n = h + i} {m = c} (omega arith),
    mod-eq_of_lt {n = h + i - c} {m = c} (omega arith),
    mod-eq-sub-mod {n = h + j} {m = c} (omega arith),
    mod-eq_of_lt {n = h + j - c} {m = c} (omega arith),
  )
]

module _ {ℓ} {A : Type ℓ} (blank : A) where
  abbrev pub window : List A → ℕ → ℕ → ℕ → ℕ → List A
  window xs cap head i zero = []
  window xs cap head i (suc n) = get_or xs ((head + i) % cap) blank ∷ window xs cap head (i + 1) n

  pub length-window : (xs : List A) (cap head i n : ℕ) → length (window xs cap head i n) ≡ n
  length-window xs cap head i zero = refl
  length-window xs cap head i (suc n) = ap suc (length-window xs cap head (i + 1) n)

  -- A window that is not empty starts with its first entry.
  pub window_of_ne_zero :
      (xs : List A) (cap head i n : ℕ)
      → n ≢ 0
      → window xs cap head i n
        ≡ get_or xs ((head + i) % cap) blank ∷ window xs cap head (i + 1) (n - 1)
  window_of_ne_zero xs cap head i zero h = absurd (h refl)
  window_of_ne_zero xs cap head i (suc n) h = ap (λ k. window xs cap head i (suc k)) (omega arith)

  -- A window one longer ends in the entry behind it.
  pub window_snoc :
      (xs : List A) (cap head i n : ℕ)
      → window xs cap head i (suc n)
        ≡ window xs cap head i n ++ (get_or xs ((head + (i + n)) % cap) blank ∷ [])
  window_snoc xs cap head i zero = ap (λ k. get_or xs ((head + k) % cap) blank ∷ []) (omega arith)
  window_snoc xs cap head i (suc n) = ap (◌∷◌ (get_or xs ((head + i) % cap) blank)) (
      window_snoc xs cap head (i + 1) n
      ∙ ap (λ k. window xs cap head (i + 1) n ++ (get_or xs ((head + k) % cap) blank ∷ []))
          (omega arith))

  -- A window may start at the next place of the array instead of the next index.
  pub window_shift :
      (xs : List A) (cap head i n : ℕ)
      → window xs cap ((head + 1) % cap) i n ≡ window xs cap head (i + 1) n
  window_shift xs cap head i zero = refl
  window_shift xs cap head i (suc n) =
      ap₂ ◌∷◌ (rw mod-add-mod (ap (λ k. get_or xs (k % cap) blank) (omega arith)))
        (window_shift xs cap head (i + 1) n)

  -- A write at a place in front of the window leaves it alone.
  pub window-set_before :
      (xs : List A) (v : A) (cap head k i n : ℕ)
      → head < cap
      → k < i
      → i + n ≤ k + cap
      → i + n ≤ cap + 1
      → window (set xs ((head + k) % cap) v) cap head i n ≡ window xs cap head i n
  window-set_before xs v cap head k i zero p q r s = refl
  window-set_before xs v cap head k i (suc n) p q r s =
      ap₂ ◌∷◌ (get_or-set_ne xs v blank (place-ne p q (omega arith) (omega arith)))
        (window-set_before xs v cap head k (i + 1) n p (omega arith) (omega arith) (omega arith))

  -- So does a write behind it.
  pub window-set_behind :
      (xs : List A) (v : A) (cap head k i n : ℕ)
      → head < cap
      → i + n ≤ k
      → k < i + cap
      → k ≤ cap
      → window (set xs ((head + k) % cap) v) cap head i n ≡ window xs cap head i n
  window-set_behind xs v cap head k i zero p q r s = refl
  window-set_behind xs v cap head k i (suc n) p q r s =
      ap₂ ◌∷◌ (get_or-set_ne xs v blank (λ e. place-ne {i = i} {j = k} p (omega arith) r s (sym e)))
        (window-set_behind xs v cap head k (i + 1) n p (omega arith) (omega arith) s)

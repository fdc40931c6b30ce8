-- ===== src/Runner/Watch.antt =====
-- The memory watch of `runProject`: the loop over the samples of the program's memory.
use cars.Base.{
  ℕ, ◌≡◌, refl, ◌⊎◌, inl, inr, Bool-cases, true, false, List, [], ◌∷◌, arith, if◌then◌else◌,
}
use cars.Base.Int.{ℤ, int_lt, int_lt_trans}
use cars.Memory.{Memory}

-- How the loop ends: a sample passed the limit, at a time since the start, or the stream closed.
pub data Watched : Type 0 where
  exceeded : ℕ → Memory → Watched
  watched : Memory → Watched

-- The loop; its variable is `resp.memoryConsumption`.
unfoldable pub watch : Memory → List (ℕ × Memory) → Memory → Watched
watch limit [] consumption = watched consumption
watch limit ((at, memory) ∷ rest) consumption =
    let raised = watch limit rest memory in
    let kept = watch limit rest consumption in
    elim (int_lt consumption memory) [
      | true ↦ elim (int_lt limit memory) [ true ↦ exceeded at memory | false ↦ raised ]
      | false ↦ kept
    ]

-- The larger of two amounts.
abbrev pub larger : Memory → Memory → Memory
larger a b = if int_lt a b then b else a

-- The largest of the samples and a first amount.
abbrev pub peak : List (ℕ × Memory) → Memory → Memory
peak [] m = m
peak ((at, x) ∷ rest) m = peak rest (larger m x)

pub larger-int_lt : (limit a b : ℤ) → int_lt limit a ≡ true → int_lt limit (larger a b) ≡ true
larger-int_lt limit a b h = ground (arith, int_lt_trans limit a b)

peak-int_lt :
    (limit : Memory) (xs : List (ℕ × Memory)) (m : Memory)
    → int_lt limit m ≡ true
    → int_lt limit (peak xs m) ≡ true
peak-int_lt limit [] m h = h
peak-int_lt limit ((at, x) ∷ rest) m h =
    peak-int_lt limit rest (larger m x) (larger-int_lt limit m x h)

-- The watch keeps the peak, or stops at a sample over the limit.
pub watch_cases :
    (limit : Memory) (xs : List (ℕ × Memory)) (m : Memory)
    → (watch limit xs m ≡ watched (peak xs m))
      ⊎ ((at : ℕ) × (x : Memory) × (watch limit xs m ≡ exceeded at x)
          × (int_lt limit x ≡ true)
          × (int_lt limit (peak xs m) ≡ true))
unfolding watch
watch_cases limit [] m = inl refl
watch_cases limit ((at, x) ∷ rest) m = elim (Bool-cases (int_lt m x)) [
  | inl more ↦ elim (Bool-cases (int_lt limit x)) [
    | inl over ↦ inr (at, x, rw (more, watch, over), over, rw more (peak-int_lt limit rest x over))
    | inr under ↦ rw (more, watch, under) (watch_cases limit rest x)
  ]
  | inr less ↦ rw (less, watch) (watch_cases limit rest m)
]

-- ===== src/SmartGroups/Sizes.antt =====
-- How large the groups of `BuildGroups` get.
use hivemind_backend.SmartGroups.{
  build_groups, deal, group_count, Participant, empty_groups, append_at,
}
use native.Mathlib.Nat.{mul_comm, mod-lt, div-add-mod, mul-le-mul_left, mul-suc, mul-add}
use hivemind_backend.Prelude.{
  All, ◌||◌, ◌-◌, leb, ==→eq, Bool-cases, if◌then◌else◌, ◌≤◌, ◌==◌, ◌/◌, ◌*◌, inr, inl, arith,
  length, List, ◌∙◌, ◌++◌, ◌≡◌, ◌<◌, ◌%◌, ◌+◌, ◌∷◌, [], refl, suc, zero, ℕ,
}
use hivemind_backend.SmartGroups.Dealt.{empty_groups-length, append_at-length}

-- The size of the group at an index, 0 beyond the last.
unfoldable pub size_at : ℕ → List (List Participant) → ℕ
size_at j [] = 0
size_at zero (g ∷ gs) = length g
size_at (suc j) (g ∷ gs) = size_at j gs

length-append : (p : Participant) (g : List Participant) → length (g ++ (p ∷ [])) ≡ length g + 1
length-append p [] = refl
length-append p (x ∷ g) = omega (arith, length-append p g)

append_at-size :
    (i j : ℕ) (p : Participant) (gs : List (List Participant))
    → size_at j (append_at i p gs) ≤ (if i == j then 1 else 0) + size_at j gs
unfolding append_at size_at
append_at-size i j p [] = omega arith
append_at-size zero zero p (g ∷ gs) = omega (arith, length-append p g)
append_at-size zero (suc j) p (g ∷ gs) = ground arith
append_at-size (suc i) zero p (g ∷ gs) = ground arith
append_at-size (suc i) (suc j) p (g ∷ gs) = ground (arith, append_at-size i j p gs)

-- What is below a multiple and one more of `n`.
le_of_mul : (n a b : ℕ) → n * a < n * b + n → a ≤ b
le_of_mul n a b h = elim (Bool-cases (leb a b)) [
  | inl e ↦ ground arith
  | inr e ↦
      let far : n * suc b ≤ n * a = mul-le-mul_left n (ground arith) in
      absurd (omega (arith, h, far, mul-suc n b))
]

size_step : (n k a r : ℕ) → k % n ≡ r → n * a + r < k + n → n * (1 + a) + r < k + 1 + n
size_step n k a r same h =
    let whole = div-add-mod k n in
    let below = le_of_mul n a (k / n) (omega (arith, h, whole, same)) in
    omega (arith, whole, same, mul-le-mul_left n below, mul-add n 1 a)

deal-size :
    (n k : ℕ) (ps : List Participant) (gs : List (List Participant)) (j : ℕ)
    → n * size_at j gs + j < k + n
    → n * size_at j (deal n k ps gs) + j < k + length ps + n
unfolding deal
deal-size n k [] gs j h = omega (arith, h)
deal-size n k (p ∷ ps) gs j h =
    let grown = append_at-size (k % n) j p gs in
    let now : n * size_at j (append_at (k % n) p gs) + j < k + 1 + n =
      elim (Bool-cases (k % n == j)) [
        | inl e ↦
            let up : size_at j (append_at (k % n) p gs) ≤ 1 + size_at j gs = ground arith in
            omega
              (arith, size_step n k (size_at j gs) j (==→eq (k % n) j e) h, mul-le-mul_left n up)
        | inr e ↦
            let up : size_at j (append_at (k % n) p gs) ≤ size_at j gs = ground arith in
            omega (arith, h, mul-le-mul_left n up)
      ] in
    let rest = deal-size n (k + 1) ps (append_at (k % n) p gs) j now in omega (arith, rest)

group_count-covers : (size target : ℕ) → 0 < target → size ≤ target * group_count size target
unfolding group_count
group_count-covers size target pos =
    let whole = div-add-mod (size + target - 1) target in
    let part = mod-lt (size + target - 1) pos in
    let most : (size + target - 1) / target ≤ group_count size target = ground arith in
    omega (arith, whole, part, mul-le-mul_left target most)

empty_groups-size : (n j : ℕ) → size_at j (empty_groups n) ≡ 0
unfolding empty_groups size_at
empty_groups-size zero j = refl
empty_groups-size (suc n) zero = refl
empty_groups-size (suc n) (suc j) = empty_groups-size n j

deal-length :
    (n k : ℕ) (ps : List Participant) (gs : List (List Participant))
    → length (deal n k ps gs) ≡ length gs
unfolding deal
deal-length n k [] gs = refl
deal-length n k (p ∷ ps) gs =
    deal-length n (k + 1) ps (append_at (k % n) p gs) ∙ append_at-length (k % n) p gs

sizes-All :
    (t : ℕ) (gs : List (List Participant))
    → ((j : ℕ) → j < length gs → size_at j gs ≤ t)
    → All (λ g. length g ≤ t) gs
unfolding size_at
sizes-All t [] h = tt
sizes-All t (g ∷ gs) h =
    (h 0 (omega arith), sizes-All t gs (λ j below. h (suc j) (omega (arith, below))))

dealt_fits :
    (target : ℕ) (sorted : List Participant)
    → 0 < target
    → All
        (λ g. length g ≤ target)
        (deal
          (group_count (length sorted) target)
          0
          sorted
          (empty_groups (group_count (length sorted) target)))
dealt_fits target sorted pos =
    let n = group_count (length sorted) target in
    sizes-All target (deal n 0 sorted (empty_groups n)) (λ j below.
      let start = empty_groups-size n j in
      let inside : j < n =
        omega (arith, below, deal-length n 0 sorted (empty_groups n), empty_groups-length n) in
      let first_bound : n * size_at j (empty_groups n) + j < 0 + n =
        rw start (omega (arith, inside)) in
      let ends = deal-size n 0 sorted (empty_groups n) j first_bound in
      le_of_mul n (size_at j (deal n 0 sorted (empty_groups n))) target
        (omega (arith, ends, group_count-covers (length sorted) target pos, mul_comm n target)))

-- No group has more members than the target, which is above 0.
pub build_groups-fits :
    (sort : List Participant → List Participant) (ps : List Participant) (target : ℕ)
    → 0 < target
    → All (λ g. length g ≤ target) (build_groups sort ps target)
unfolding build_groups
build_groups-fits sort ps target pos = elim (Bool-cases (length ps == 0 || target == 0)) [
  | inl e ↦ rw e tt
  | inr e ↦ rw e (dealt_fits target (sort ps) pos)
]

-- ===== src/SmartGroups.antt =====
-- Groups of attendees (`BuildGroups` of internal/smartgroups/balance.go). The sort is Go's
-- `sort.Slice`, which is not part of the repository: a parameter.
pub mod Dealt
pub mod Sizes
mod Tests
use hivemind_backend.Prelude.{
  ltb, length, List, if◌then◌else◌, ◌++◌, ◌||◌, ◌==◌, ◌-◌, ◌+◌, ◌∷◌, [], zero, ℕ, suc, ◌%◌, ◌/◌,
}

pub record Participant : Type 0 where
  pub user_id : ℕ
  pub interests : List ℕ

-- `groups[i] = append(groups[i], p)`; `build_groups` keeps `i` below the number of groups.
unfoldable pub append_at : ℕ → Participant → List (List Participant) → List (List Participant)
append_at i p [] = []
append_at zero p (g ∷ gs) = (g ++ (p ∷ [])) ∷ gs
append_at (suc i) p (g ∷ gs) = g ∷ append_at i p gs

-- The loop of `BuildGroups`, from index `i` on.
unfoldable pub deal : ℕ → ℕ → List Participant → List (List Participant) → List (List Participant)
deal n i [] gs = gs
deal n i (p ∷ ps) gs = deal n (i + 1) ps (append_at (i % n) p gs)

-- `make([][]Participant, n)`
unfoldable pub empty_groups : ℕ → List (List Participant)
empty_groups zero = []
empty_groups (suc n) = [] ∷ empty_groups n

-- The number of groups: the ceiling of a quotient, and at least 1.
unfoldable pub group_count : ℕ → ℕ → ℕ
group_count size target = let n = (size + target - 1) / target in if ltb n 1 then 1 else n

-- `BuildGroups`; a target of 0 stands for one that is not positive.
unfoldable pub build_groups :
    (List Participant → List Participant) → List Participant → ℕ → List (List Participant)
build_groups sort ps target =
    let sorted = sort ps in
    let n = group_count (length sorted) target in
    let dealt = deal n 0 sorted (empty_groups n) in
    if length ps == 0 || target == 0 then [] else dealt

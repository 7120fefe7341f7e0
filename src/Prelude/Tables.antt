-- ===== src/Prelude/Tables.antt =====
-- A database table as the list of its rows, newest first, and the SQL statements that the code
-- runs on one.
use Prim.Native.Nat.{ℕ, suc, ◌+◌}
use mathlib.Core.Path.{◌≡◌, refl}
use mathlib.Core.Bool.{Bool, true, false}
use mathlib.Core.Option.{Option, none, some}
use mathlib.Core.List.{List, [], ◌∷◌}
use native.Mathlib.Omega.{arith}
use hivemind_backend.Prelude.Tests.{◌==◌, if◌then◌else◌}

abbrev pub one_if : Bool → ℕ
one_if true = 1
one_if false = 0

abbrev pub map_some {ℓ} : {A : Type ℓ} → (A → A) → Option A → Option A
map_some g none = none
map_some g (some x) = some (g x)

module _ {ℓ} {A : Type ℓ} where
  abbrev pub length : List A → ℕ
  length [] = 0
  length (x ∷ xs) = suc (length xs)

  -- `SELECT count(*) … WHERE f`
  unfoldable pub count_where : (A → Bool) → List A → ℕ
  count_where f [] = 0
  count_where f (x ∷ xs) = one_if (f x) + count_where f xs

  -- `SELECT COALESCE(sum(v), 0) … WHERE f`
  unfoldable pub sum_where : (A → Bool) → (A → ℕ) → List A → ℕ
  sum_where f v [] = 0
  sum_where f v (x ∷ xs) = (if f x then v x else 0) + sum_where f v xs

  -- `SELECT … WHERE f` for one row
  unfoldable pub find_where : (A → Bool) → List A → Option A
  find_where f [] = none
  find_where f (x ∷ xs) = if f x then some x else find_where f xs

  -- `EXISTS (SELECT 1 … WHERE f)`
  unfoldable pub any_where : (A → Bool) → List A → Bool
  any_where f [] = false
  any_where f (x ∷ xs) = if f x then true else any_where f xs

  -- `SELECT … WHERE f` for all rows
  unfoldable pub select_where : (A → Bool) → List A → List A
  select_where f [] = []
  select_where f (x ∷ xs) = let rest = select_where f xs in if f x then x ∷ rest else rest

  -- `UPDATE … SET g WHERE f`
  unfoldable pub update_where : (A → Bool) → (A → A) → List A → List A
  update_where f g [] = []
  update_where f g (x ∷ xs) = (if f x then g x else x) ∷ update_where f g xs

  -- `UPDATE … SET g WHERE f` where `f` tests a key, so that at most one row fits
  unfoldable pub update_first : (A → Bool) → (A → A) → List A → List A
  update_first f g [] = []
  update_first f g (x ∷ xs) = if f x then g x ∷ xs else x ∷ update_first f g xs

  -- Every row satisfies `P`.
  abbrev pub All {κ} : (A → Type κ) → List A → Type κ
  All P [] = Unit
  All P (x ∷ xs) = P x × All P xs

  pub find_where_sound :
      (f : A → Bool) (xs : List A) (x : A) → find_where f xs ≡ some x → f x ≡ true
  unfolding find_where
  find_where_sound f [] x h = cc
  find_where_sound f (y ∷ xs) x h = ground (arith, find_where_sound f xs x)

  pub count_where-find_none :
      (f : A → Bool) (xs : List A) → find_where f xs ≡ none → count_where f xs ≡ 0
  unfolding find_where count_where
  count_where-find_none f [] h = refl
  count_where-find_none f (y ∷ xs) h = ground (arith, count_where-find_none f xs)

  -- An update of the row that is found shifts a count by what it does to that row.
  pub count_where-update_first :
      (c f : A → Bool) (g : A → A) (xs : List A) (x : A)
      → find_where f xs ≡ some x
      → count_where c (update_first f g xs) + one_if (c x) ≡ count_where c xs + one_if (c (g x))
  unfolding find_where count_where update_first
  count_where-update_first c f g [] x h = cc
  count_where-update_first c f g (y ∷ xs) x h = ground (arith, count_where-update_first c f g xs x)

  pub update_first-none :
      (f : A → Bool) (g : A → A) (xs : List A) → find_where f xs ≡ none → update_first f g xs ≡ xs
  unfolding find_where update_first
  update_first-none f g [] h = refl
  update_first-none f g (y ∷ xs) h = ground (arith, update_first-none f g xs)

  -- An update that leaves the row that is found leaves the table.
  pub update_first_same :
      (f : A → Bool) (g : A → A) (xs : List A) (x : A)
      → find_where f xs ≡ some x
      → g x ≡ x
      → update_first f g xs ≡ xs
  unfolding find_where update_first
  update_first_same f g [] x h e = cc
  update_first_same f g (y ∷ xs) x h e = ground (arith, update_first_same f g xs x)

  pub any_where-find :
      (f : A → Bool) (xs : List A) (x : A) → find_where f xs ≡ some x → any_where f xs ≡ true
  unfolding find_where any_where
  any_where-find f [] x h = cc
  any_where-find f (y ∷ xs) x h = ground (arith, any_where-find f xs x)

  -- An update that the test does not see leaves the count.
  pub count_where-update_where :
      (c f : A → Bool) (g : A → A) (xs : List A)
      → ((x : A) → f x ≡ true → c (g x) ≡ c x)
      → count_where c (update_where f g xs) ≡ count_where c xs
  unfolding count_where update_where
  count_where-update_where c f g [] h = refl
  count_where-update_where c f g (y ∷ xs) h =
      ground (arith, h y, count_where-update_where c f g xs h)

  pub sum_where-update_first :
      (c f : A → Bool) (v : A → ℕ) (g : A → A) (xs : List A) (x : A)
      → find_where f xs ≡ some x
      → sum_where c v (update_first f g xs) + (if c x then v x else 0)
        ≡ sum_where c v xs + (if c (g x) then v (g x) else 0)
  unfolding find_where sum_where update_first
  sum_where-update_first c f v g [] x h = cc
  sum_where-update_first c f v g (y ∷ xs) x h = ground (arith, sum_where-update_first c f v g xs x)

  pub length-update_first :
      (f : A → Bool) (g : A → A) (xs : List A) → length (update_first f g xs) ≡ length xs
  unfolding update_first
  length-update_first f g [] = refl
  length-update_first f g (y ∷ xs) = ground (arith, length-update_first f g xs)

  pub All-update_first {κ} :
      (P : A → Type κ) (f : A → Bool) (g : A → A) (xs : List A)
      → ((x : A) → f x ≡ true → P x → P (g x))
      → All P xs
      → All P (update_first f g xs)
  unfolding update_first
  All-update_first P f g [] h a = tt
  All-update_first P f g (y ∷ xs) h a = ground (arith, h y, All-update_first P f g xs h a.1)

-- Rows that are found by a key which the update keeps.
module _ {ℓ} {A : Type ℓ} (key : A → ℕ) (g : A → A) (same : (x : A) → key (g x) ≡ key x) where
  pub find_where-update_first :
      (j k : ℕ) (xs : List A) (x : A)
      → find_where (λ r. key r == j) xs ≡ some x
      → find_where (λ r. key r == k) (update_first (λ r. key r == j) g xs)
        ≡ (if j == k then some (g x) else find_where (λ r. key r == k) xs)
  unfolding find_where update_first
  find_where-update_first j k [] x h = cc
  find_where-update_first j k (y ∷ xs) x h =
      ground (arith, same y, find_where-update_first j k xs x)

  pub find_where-update_where :
      (f : A → Bool) (k : ℕ) (xs : List A)
      → find_where (λ r. key r == k) (update_where f g xs)
        ≡ map_some (λ x. if f x then g x else x) (find_where (λ r. key r == k) xs)
  unfolding find_where update_where
  find_where-update_where f k [] = refl
  find_where-update_where f k (y ∷ xs) = ground (arith, same y, find_where-update_where f k xs)

module _ {ℓ κ μ} {A : Type ℓ} {P : A → Type κ} {Q : A → Type μ} where
  pub All-mono : (xs : List A) → ((x : A) → P x → Q x) → All P xs → All Q xs
  All-mono [] h a = tt
  All-mono (x ∷ xs) h a = (h x a.0, All-mono xs h a.1)

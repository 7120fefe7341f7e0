-- ===== src/SmartGroups/Dealt.antt =====
-- Where `BuildGroups` puts everyone.
use hivemind_backend.SmartGroups.{
  build_groups, deal, group_count, Participant, empty_groups, append_at,
}
use native.Mathlib.Nat.{mod-lt}
use hivemind_backend.Prelude.{
  ap, arith, length, one_if, List, count_where, Bool, ◌∙◌, ◌++◌, ◌≡◌, ◌<◌, ◌%◌, ◌+◌, ◌∷◌, [], refl,
  suc, zero, ℕ,
}

-- The participants of all groups that pass a test.
unfoldable pub count_in_groups : (Participant → Bool) → List (List Participant) → ℕ
count_in_groups f [] = 0
count_in_groups f (g ∷ gs) = count_where f g + count_in_groups f gs

count_where-append :
    (f : Participant → Bool) (p : Participant) (g : List Participant)
    → count_where f (g ++ (p ∷ [])) ≡ one_if (f p) + count_where f g
unfolding count_where
count_where-append f p [] = refl
count_where-append f p (x ∷ g) = omega (arith, count_where-append f p g)

append_at-count :
    (f : Participant → Bool) (i : ℕ) (p : Participant) (gs : List (List Participant))
    → i < length gs
    → count_in_groups f (append_at i p gs) ≡ one_if (f p) + count_in_groups f gs
unfolding append_at count_in_groups
append_at-count f i p [] h = absurd (ground arith)
append_at-count f zero p (g ∷ gs) h = omega (arith, count_where-append f p g)
append_at-count f (suc i) p (g ∷ gs) h = omega (arith, append_at-count f i p gs (omega (arith, h)))

pub append_at-length :
    (i : ℕ) (p : Participant) (gs : List (List Participant)) → length (append_at i p gs) ≡ length gs
unfolding append_at
append_at-length i p [] = refl
append_at-length zero p (g ∷ gs) = refl
append_at-length (suc i) p (g ∷ gs) = ap suc (append_at-length i p gs)

deal-count :
    (f : Participant → Bool) (n i : ℕ) (ps : List Participant) (gs : List (List Participant))
    → 0 < n
    → length gs ≡ n
    → count_in_groups f (deal n i ps gs) ≡ count_where f ps + count_in_groups f gs
unfolding deal count_where
deal-count f n i [] gs pos same = omega arith
deal-count f n i (p ∷ ps) gs pos same =
    let below : i % n < n = mod-lt i pos in
    let rest =
      deal-count f n (i + 1) ps (append_at (i % n) p gs) pos
        (append_at-length (i % n) p gs ∙ same) in
    omega (arith, rest, append_at-count f (i % n) p gs (omega (arith, below, same)))

pub empty_groups-length : (n : ℕ) → length (empty_groups n) ≡ n
unfolding empty_groups
empty_groups-length zero = refl
empty_groups-length (suc n) = ap suc (empty_groups-length n)

empty_groups-count : (f : Participant → Bool) (n : ℕ) → count_in_groups f (empty_groups n) ≡ 0
unfolding empty_groups count_in_groups count_where
empty_groups-count f zero = refl
empty_groups-count f (suc n) = omega (arith, empty_groups-count f n)

pub group_count-pos : (size target : ℕ) → 0 < group_count size target
unfolding group_count
group_count-pos size target = ground arith

-- Everyone is put into exactly one group, however the sort orders them: whatever is asked of
-- participants, as many in the groups answer to it as on the list. The sort keeps its list's
-- elements, and the target is above 0.
pub build_groups-places :
    (sort : List Participant → List Participant)
    → ((g : Participant → Bool) (qs : List Participant)
        → count_where g (sort qs) ≡ count_where g qs)
    → (f : Participant → Bool) (ps : List Participant) (target : ℕ) → 0 < target
    → count_in_groups f (build_groups sort ps target) ≡ count_where f ps
unfolding build_groups count_in_groups count_where
build_groups-places sort keeps f [] target pos = refl
build_groups-places sort keeps f (p ∷ ps) target pos =
    let sorted = sort (p ∷ ps) in
    let n = group_count (length sorted) target in
    let dealt =
      deal-count f n 0 sorted (empty_groups n) (group_count-pos (length sorted) target)
        (empty_groups-length n) in
    ground (arith, dealt, empty_groups-count f n, keeps f (p ∷ ps))

-- ===== src/SmartGroups/Tests.antt =====
-- The theorems on groups, applied to a list of three in groups of at most two.
use hivemind_backend.SmartGroups.Sizes.{build_groups-fits}
use hivemind_backend.SmartGroups.Dealt.{count_in_groups, build_groups-places}
use hivemind_backend.SmartGroups.{build_groups, Participant}
use hivemind_backend.Prelude.{length, arith, count_where, List, All, ◌≡◌, ◌≤◌, ◌==◌, ◌∷◌, [], refl}

abbrev people : List Participant
people =
    record { user_id = 1; interests = 7 ∷ [] }
    ∷ record { user_id = 2; interests = [] }
    ∷ record { user_id = 3; interests = 7 ∷ [] }
    ∷ []

-- A sort whose input is in order already.
abbrev in_order : List Participant → List Participant
in_order qs = qs

build_groups-places_example :
    count_in_groups (λ p. p.user_id == 3) (build_groups in_order people 2)
    ≡ count_where (λ p. p.user_id == 3) people
build_groups-places_example =
    build_groups-places in_order (λ g qs. refl) (λ p. p.user_id == 3) people 2 (ground arith)

build_groups-fits_example : All (λ g. length g ≤ 2) (build_groups in_order people 2)
build_groups-fits_example = build_groups-fits in_order people 2 (ground arith)

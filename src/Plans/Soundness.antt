-- ===== src/Plans/Soundness.antt =====
-- What a plan that is created is like.
use hivemind_backend.Plans.Recurrence.{Rule, parse_rule}
use hivemind_backend.Prelude.{
  sym, arith, Result-cases, inr, inl, refl, ◌>>◌, guard, Option, Result, ℕ, Bool, ◌⊎◌, ◌≡◌, ◌<◌,
  ◌≤◌, ◌+◌, err, ok, false, true, some, none,
}
use hivemind_backend.Plans.Types.{PlanRow, PlanError}
use hivemind_backend.Plans.Creation.{
  filled_in, checked_plan, checked_rule, checked_community, is_sound_type, is_sound_time, has_rule,
  start_grace, Draft, Answers,
}

-- Inversion of the steps of a `do` block.
seq-ok :
    {E B : Type 0} (call : Result E (Unit {0})) (next : Result E B) (x : B)
    → call >> next ≡ ok x
    → (call ≡ ok tt) × (next ≡ ok x)
seq-ok (ok tt) next x h = (refl, h)
seq-ok (err e) next x h = absurd (ground arith)

guard-ok :
    {E : Type 0} (holds : Bool) (otherwise : E) → guard holds otherwise ≡ ok tt → holds ≡ true
guard-ok true otherwise h = refl
guard-ok false otherwise h = absurd (ground arith)

same_row : (p q : PlanRow) (call : Result PlanError PlanRow) → call ≡ ok p → call ≡ ok q → p ≡ q
same_row p q call h k = ground arith

-- What the tests of `CreatePlan` came to.
checked_plan-guards :
    (now id : ℕ) (d : Draft) (a : Answers) (p : PlanRow)
    → checked_plan now id d a ≡ ok p
    → (is_sound_type p ≡ true)
      × (is_sound_time now p ≡ true)
      × (checked_rule d ≡ ok tt)
      × (checked_community p a.is_manager ≡ ok tt)
unfolding checked_plan
checked_plan-guards now id d a p h =
    let row = filled_in now id d in
    let (_, h1) = seq-ok _ _ p h in
    let (_, h2) = seq-ok a.cover _ p h1 in
    let (types, h3) = seq-ok _ _ p h2 in
    let (times, h4) = seq-ok _ _ p h3 in
    let (rule, h5) = seq-ok (checked_rule d) _ p h4 in
    let (community, h6) = seq-ok (checked_community row a.is_manager) _ p h5 in
    let (_, h7) = seq-ok _ _ p h6 in
    let equal : row ≡ p = same_row row p (ok row) refl h7 in
    rw (sym equal) (guard-ok _ _ types, guard-ok _ _ times, rule, community)

checked_rule-ok :
    (d : Draft)
    → checked_rule d ≡ ok tt
    → (has_rule d ≡ false) ⊎ ((r : Rule) × (parse_rule d.rule ≡ ok r))
checked_rule-ok d h = elim (Result-cases (parse_rule d.rule)) [
  | inl (r, e) ↦ inr (r, e)
  | inr (x, e) ↦ inl (ground arith)
]

checked_community-ok :
    (p : PlanRow) (manager : Option Bool)
    → checked_community p manager ≡ ok tt
    → (p.community_id ≡ 0) ⊎ (manager ≡ some true)
checked_community-ok p none h = ground arith
checked_community-ok p (some true) h = inr refl
checked_community-ok p (some false) h = ground arith

-- A plan that passed the tests can be inserted: its columns meet the CHECKs of the table, its rule is
-- one, and it is published for a time that is not over.
pub checked_plan-ok :
    (now id : ℕ) (d : Draft) (a : Answers) (p : PlanRow)
    → checked_plan now id d a ≡ ok p
    → (is_sound_type p ≡ true)
      × (p.starts_at < p.ends_at)
      × (now ≤ p.starts_at + start_grace)
      × ((p.community_id ≡ 0) ⊎ (a.is_manager ≡ some true))
      × ((has_rule d ≡ false) ⊎ ((r : Rule) × (parse_rule d.rule ≡ ok r)))
unfolding checked_plan
checked_plan-ok now id d a p h =
    let (types, times, rule, community) = checked_plan-guards now id d a p h in
    (
      types,
      ground arith,
      ground arith,
      checked_community-ok p a.is_manager community,
      checked_rule-ok d rule,
    )

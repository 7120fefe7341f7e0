-- ===== src/Plans/Occurrences.antt =====
-- A rule that was read is read_within its bounds, and what its occurrences are like.
use hivemind_backend.Plans.Types.{Freq, Part}
use hivemind_backend.Prelude.{
  subst, length, leb, Bool, if◌then◌else◌, ◌⊎◌, ◌<◌, ◌&&◌, ◌*◌, ◌+◌, refl, sym, arith, ltb, ℕ,
  Option-cases, List, All, Bool-cases, ◌≡◌, ◌≤◌, ◌∷◌, ok, inr, inl, false, true, [], some, none,
  suc, zero,
}
use native.Mathlib.Nat.{add-mul, one-mul}
use hivemind_backend.Plans.Recurrence.{
  shift_start, is_past, max_recurrence_count, occurrences_from, no_rule, read_parts, is_whole,
  read_part, parse_rule, Rule, Calendar, occurrences,
}

-- The numbers of a rule.
abbrev pub IsBounded : Rule → Type 0
IsBounded r = (1 ≤ r.interval) × (r.interval ≤ 12) × (r.count ≤ max_recurrence_count)

read_part-IsBounded : (p : Part) (r s : Rule) → read_part p r ≡ some s → IsBounded r → IsBounded s
read_part-IsBounded (Part.freq_part none) r s h b = absurd (ground arith)
read_part-IsBounded (Part.freq_part (some f)) r s h b = (ground arith, ground arith, ground arith)
read_part-IsBounded (Part.interval_part none) r s h b = absurd (ground arith)
read_part-IsBounded (Part.interval_part (some n)) r s h b =
    (ground arith, ground arith, ground arith)
read_part-IsBounded (Part.count_part none) r s h b = absurd (ground arith)
read_part-IsBounded (Part.count_part (some n)) r s h b = (ground arith, ground arith, ground arith)
read_part-IsBounded (Part.until_part none) r s h b = absurd (ground arith)
read_part-IsBounded (Part.until_part (some t)) r s h b = (ground arith, ground arith, ground arith)
read_part-IsBounded Part.other_part r s h b = absurd (ground arith)

read_parts-IsBounded :
    (ps : List Part) (r s : Rule) → read_parts ps r ≡ some s → IsBounded r → IsBounded s
unfolding read_parts
read_parts-IsBounded [] r s h b = (ground arith, ground arith, ground arith)
read_parts-IsBounded (p ∷ ps) r s h b = elim (Option-cases (read_part p r)) [
  | inl e ↦ absurd (ground arith)
  | inr (q, e) ↦ read_parts-IsBounded ps q s (ground arith) (read_part-IsBounded p r q e b)
]

-- A rule with a frequency, and not with both a number of plans and a last date.
abbrev pub IsSeries : Rule → Type 0
IsSeries r = ((f : Freq) × (r.freq ≡ some f)) × ((r.count ≡ 0) ⊎ (r.until ≡ 0))

is_whole-IsSeries : (r : Rule) → is_whole r ≡ true → IsSeries r
is_whole-IsSeries r h = elim (Option-cases r.freq) [
  | inl e ↦ absurd (ground arith)
  | inr (f, e) ↦ ((f, e), ground arith)
]

-- A rule that was read has a frequency, an interval of 1 to 12 periods, a count of at most 104, where
-- 0 stands for no limit, and not both a count and a last date.
pub parse_rule-IsBounded :
    (parts : List Part) (r : Rule) → parse_rule parts ≡ ok r → IsBounded r × IsSeries r
unfolding parse_rule
parse_rule-IsBounded parts r h = elim (Option-cases (read_parts parts no_rule)) [
  | inl e ↦ absurd (ground arith)
  | inr (q, e) ↦
      let bounded =
        read_parts-IsBounded parts no_rule q e (omega arith, omega arith, omega arith) in
      elim (Bool-cases (is_whole q)) [
        | inl whole ↦
            let equal : q ≡ r = ground arith in rw (sym equal) (bounded, is_whole-IsSeries q whole)
        | inr part ↦ absurd (ground arith)
      ]
]

-- The rounds of the loop.
from-skipped :
    (cal : Calendar) (r : Rule) (horizon k i taken : ℕ)
    → shift_start cal r.freq (i * r.interval) ≡ none
    → occurrences_from cal r horizon (suc k) i taken
      ≡ occurrences_from cal r horizon k (i + 1) taken
unfolding occurrences_from
from-skipped cal r horizon k i taken h = ground arith

from-past :
    (cal : Calendar) (r : Rule) (horizon k i taken t : ℕ)
    → shift_start cal r.freq (i * r.interval) ≡ some t
    → is_past cal r horizon t ≡ true
    → occurrences_from cal r horizon (suc k) i taken ≡ []
unfolding occurrences_from
from-past cal r horizon k i taken t h p = ground arith

abbrev pub is_last : Rule → ℕ → Bool
is_last r taken = ltb 0 r.count && leb r.count (taken + 1)

from-taken :
    (cal : Calendar) (r : Rule) (horizon k i taken t : ℕ)
    → shift_start cal r.freq (i * r.interval) ≡ some t
    → is_past cal r horizon t ≡ false
    → occurrences_from cal r horizon (suc k) i taken
      ≡ t ∷ (if is_last r taken then [] else occurrences_from cal r horizon k (i + 1) (taken + 1))
unfolding occurrences_from
from-taken cal r horizon k i taken t h p = ground arith

-- A predicate of lists that holds of the loop's result holds if each round keeps it.
module _ (cal : Calendar) (r : Rule) (horizon : ℕ) (P : ℕ → ℕ → List ℕ → Type 0)
    (nothing : (i taken : ℕ) → P i taken [])
    (skips : (i taken : ℕ) (ts : List ℕ)
      → shift_start cal r.freq (i * r.interval) ≡ none
      → P (i + 1) taken ts
      → P i taken ts)
    (takes : (i taken t : ℕ) (ts : List ℕ)
      → shift_start cal r.freq (i * r.interval) ≡ some t
      → is_past cal r horizon t ≡ false
      → (is_last r taken ≡ false) ⊎ (ts ≡ [])
      → P (i + 1) (taken + 1) ts
      → P i taken (t ∷ ts)) where
  from-induction : (k i taken : ℕ) → P i taken (occurrences_from cal r horizon k i taken)
  unfolding occurrences_from
  from-induction zero i taken = nothing i taken
  from-induction (suc k) i taken = elim (Option-cases (shift_start cal r.freq (i * r.interval))) [
    | inl e ↦
        rw (from-skipped cal r horizon k i taken e)
          (skips i taken _ e (from-induction k (i + 1) taken))
    | inr (t, e) ↦ elim (Bool-cases (is_past cal r horizon t)) [
      | inl p ↦ rw (from-past cal r horizon k i taken t e p) (nothing i taken)
      | inr p ↦ elim (Bool-cases (is_last r taken)) [
        | inl l ↦
            rw (from-taken cal r horizon k i taken t e p, l)
              (takes i taken t [] e p (inr refl) (nothing (i + 1) (taken + 1)))
        | inr l ↦
            rw (from-taken cal r horizon k i taken t e p, l)
              (takes i taken t _ e p (inl l) (from-induction k (i + 1) (taken + 1)))
      ]
    ]
  ]

-- A count that is not passed by what was taken and what comes.
CountHolds : Rule → ℕ → List ℕ → Type 0
CountHolds r taken ts = (r.count ≤ taken) ⊎ (taken + length ts ≤ r.count)

nothing-CountHolds : (r : Rule) (taken : ℕ) → CountHolds r taken []
unfolding CountHolds
nothing-CountHolds r taken = ground arith

takes-CountHolds :
    (r : Rule) (taken t : ℕ) (ts : List ℕ)
    → (r.count ≡ 0) ⊎ ((is_last r taken ≡ false) ⊎ (ts ≡ []))
    → CountHolds r (taken + 1) ts
    → CountHolds r taken (t ∷ ts)
unfolding CountHolds
takes-CountHolds r taken t ts (inl free) h = ground arith
takes-CountHolds r taken t ts (inr (inl more)) h = ground arith
takes-CountHolds r taken t ts (inr (inr last)) h = ground arith

from-CountHolds :
    (cal : Calendar) (r : Rule) (horizon : ℕ) → CountHolds r 0 (occurrences cal r horizon)
unfolding occurrences
from-CountHolds cal r horizon =
    from-induction cal r horizon (λ i taken ts. CountHolds r taken ts)
      (λ i taken. nothing-CountHolds r taken) (λ i taken ts e h. h)
      (λ i taken t ts e p l h. takes-CountHolds r taken t ts (inr l) h) 2_000 0 0

count-bound : (r : Rule) (ts : List ℕ) → CountHolds r 0 ts → (r.count ≡ 0) ⊎ (length ts ≤ r.count)
unfolding CountHolds
count-bound r ts h = ground arith

next_period : (i n : ℕ) → (i + 1) * n ≡ i * n + n
next_period i n = ground (arith, add-mul i 1 n, one-mul n)

-- The times up to the horizon and the last date, at most as many as the rule says.
pub occurrences-within :
    (cal : Calendar) (r : Rule) (horizon : ℕ)
    → All (λ t. is_past cal r horizon t ≡ false) (occurrences cal r horizon)
      × ((r.count ≡ 0) ⊎ (length (occurrences cal r horizon) ≤ r.count))
unfolding occurrences
occurrences-within cal r horizon = (
  from-induction cal r horizon (λ i taken ts. All (λ t. is_past cal r horizon t ≡ false) ts)
      (λ i taken. tt) (λ i taken ts e h. h) (λ i taken t ts e p l h. (p, h)) 2_000 0 0,
  count-bound r (occurrences cal r horizon) (from-CountHolds cal r horizon),
)

-- Each time comes after those before it.
abbrev pub IsAscending : List ℕ → Type 0
IsAscending [] = Unit
IsAscending (t ∷ ts) = All (λ u. t < u) ts × IsAscending ts

-- What `time.Date` documents: a day that is counted further on is later, and so is the same day of
-- a month that is counted further on.
pub record IsCalendar (cal : Calendar) : Type 0 where
  pub later_day : (y m d e : ℕ) → d < e → cal.date y m d < cal.date y m e
  pub later_month :
      (y m n d : ℕ)
      → m < n
      → cal.day_of (cal.date y m d) ≡ d
      → cal.day_of (cal.date y n d) ≡ d
      → cal.date y m d < cal.date y n d

-- More periods on is later.
shift_start-ascends :
    (cal : Calendar)
    → IsCalendar cal
    → (f : Freq) (m n t u : ℕ) → shift_start cal (some f) m ≡ some t
    → shift_start cal (some f) n ≡ some u
    → m < n
    → t < u
shift_start-ascends cal law Freq.daily m n t u e h l =
    ground (arith, law.later_day cal.year cal.month (cal.day + m) (cal.day + n))
shift_start-ascends cal law Freq.weekly m n t u e h l =
    ground (arith, law.later_day cal.year cal.month (cal.day + 7 * m) (cal.day + 7 * n))
shift_start-ascends cal law Freq.monthly m n t u e h l =
    ground (arith, law.later_month cal.year (cal.month + m) (cal.month + n) cal.day)

-- The times of the loop come after that of every period before it.
abbrev pub ComesAfter : Calendar → Rule → ℕ → List ℕ → Type 0
ComesAfter cal r i ts =
    IsAscending ts
    × ((m t : ℕ) → shift_start cal r.freq m ≡ some t → m < i * r.interval → All (λ u. t < u) ts)

-- The occurrences of a series are in order and none comes twice, if the rule has a frequency and an
-- interval that is not 0, and dates are as `time.Date` documents them.
pub occurrences-IsAscending :
    (cal : Calendar) (r : Rule) (f : Freq) (horizon : ℕ)
    → IsCalendar cal
    → r.freq ≡ some f
    → 1 ≤ r.interval
    → IsAscending (occurrences cal r horizon)
unfolding occurrences
occurrences-IsAscending cal r f horizon law freq positive =
    (from-induction cal r horizon (λ i taken ts. ComesAfter cal r i ts)
      (λ i taken. (tt, λ m t e h. tt))
      (λ i taken ts e h. (h.0, λ m t f l. h.1 m t f (ground (arith, next_period i r.interval))))
      (λ i taken t ts e p l h. (
        (h.1 (i * r.interval) t e (ground (arith, next_period i r.interval)), h.0),
        λ m u g l2. (
          shift_start-ascends cal law f m (i * r.interval) u t
              (subst (λ z. shift_start cal z m ≡ some u) freq g)
              (subst (λ z. shift_start cal z (i * r.interval) ≡ some t) freq e) l2,
          h.1 m u g (ground (arith, next_period i r.interval)),
        ),
      ))
      2_000 0 0).0

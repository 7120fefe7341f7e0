-- ===== src/Bookings/Pass.antt =====
-- Digital passes (pass.go). The signature of a pass is checked by another component: `verify`
-- gives the booking of a payload that is valid at a time. `configured` says whether a secret is set.
use hivemind_backend.Bookings.Seats.Settle.{find_booking-id}
use hivemind_backend.Bookings.Lifecycle.{attend_row, check_in}
use hivemind_backend.Bookings.Types.{
  find_plan, Error, Outcome, BookingStatus, Role, find_booking, is_attended, is_confirmed, Booking,
  Store,
}
use hivemind_backend.Bookings.Attendance.{check_in-ok, check_in_twice}
use hivemind_backend.Bookings.Access.{is_admin_role}
use hivemind_backend.Prelude.{
  Option-cases, ◌≤◌, not, arith, ltb, leb, guard, Option, or_err, Result, ℕ, Result-cases, Bool,
  ◌>>◌, ◌>>=◌, if◌then◌else◌, ◌⊎◌, ◌≡◌, ◌<◌, ◌||◌, ◌&&◌, ◌==◌, ◌+◌, ok, inr, inl, true, some,
}

-- 2 hours and 1 hour, in microseconds.
abbrev pub check_in_opens_before : ℕ
check_in_opens_before = 7_200_000_000

abbrev pub check_in_closes_after : ℕ
check_in_closes_after = 3_600_000_000

-- `planEnd`: 6 hours after the start where the plan has no valid end.
unfoldable pub plan_end : ℕ → ℕ → ℕ
plan_end starts ends = if ltb starts ends then ends else starts + 21_600_000_000

-- What a pass shows of its booking and plan.
pub record PassInfo : Type 0 where
  pub booking_id : ℕ
  pub plan_id : ℕ
  pub user_id : ℕ
  pub status : BookingStatus
  pub starts_at : ℕ
  pub ends_at : ℕ
  pub host_id : ℕ

-- `GetPassInfo`, a join of the booking and its plan.
unfoldable pub get_pass_info : ℕ → Store → Result Error PassInfo
get_pass_info bid s = do
  b ← or_err (find_booking bid s) Error.booking_not_found
  p ← or_err (find_plan b.plan_id s) Error.booking_not_found
  ok (record {
    booking_id = b.id;
    plan_id = b.plan_id;
    user_id = b.user_id;
    status = b.status;
    starts_at = p.starts_at;
    ends_at = p.ends_at;
    host_id = p.host_id;
  })

-- `GetPass`: the pass and the time until which its signature is valid.
unfoldable pub get_pass : Bool → ℕ → ℕ → Store → Result Error (PassInfo × ℕ)
get_pass configured bid caller s = do
  guard configured Error.pass_disabled
  guard (not (bid == 0 || caller == 0)) Error.invalid_input
  i ← get_pass_info bid s
  guard (i.user_id == caller) Error.forbidden
  guard (is_confirmed i.status || is_attended i.status) Error.pass_unavailable
  ok (i, plan_end i.starts_at i.ends_at + check_in_closes_after)

-- The window in which the pass of a plan may be scanned.
unfoldable pub in_window : ℕ → PassInfo → Bool
in_window now i =
    leb i.starts_at (now + check_in_opens_before)
    && leb now (plan_end i.starts_at i.ends_at + check_in_closes_after)

-- `ScanPass`
unfoldable pub scan_pass :
    (verify : ℕ → ℕ → Option ℕ) → Bool → ℕ → ℕ → ℕ → Role → Store → Outcome Booking
scan_pass verify configured now payload caller role s = do
  guard configured Error.pass_disabled
  guard (not (payload == 0 || caller == 0)) Error.invalid_input
  bid ← or_err (verify payload now) Error.invalid_pass
  i ← get_pass_info bid s
  guard (i.host_id == caller || is_admin_role role) Error.forbidden
  guard (in_window now i) Error.outside_window
  check_in now bid caller s

-- A pass is for the owner alone, of a booking that is confirmed or attended, and its signature
-- outlives the start of the plan.
pub get_pass-ok :
    (configured : Bool) (bid caller : ℕ) (s : Store) (i : PassInfo) (until : ℕ)
    → get_pass configured bid caller s ≡ ok (i, until)
    → (i.user_id ≡ caller)
      × ((is_confirmed i.status ≡ true) ⊎ (is_attended i.status ≡ true))
      × (i.starts_at + check_in_closes_after < until)
unfolding get_pass get_pass_info plan_end
get_pass-ok configured bid caller s i until h = ground arith

-- From two hours before the start to one hour after the end, which is six hours after the start
-- where the plan has no end after it.
abbrev pub IsInTime : ℕ → PassInfo → Type 0
IsInTime now i =
    (i.starts_at ≤ now + 7_200_000_000)
    × (((i.starts_at < i.ends_at) × (now ≤ i.ends_at + 3_600_000_000))
        ⊎ ((i.ends_at ≤ i.starts_at) × (now ≤ i.starts_at + 25_200_000_000)))

in_window-IsInTime : (now : ℕ) (i : PassInfo) → in_window now i ≡ true → IsInTime now i
unfolding in_window plan_end
in_window-IsInTime now i h = ground arith

-- A payload is signed for one booking, whenever it is read.
abbrev pub IsSignature : (ℕ → ℕ → Option ℕ) → Type 0
IsSignature verify =
    (payload t u b c : ℕ) → verify payload t ≡ some b → verify payload u ≡ some c → b ≡ c

module _ (verify : ℕ → ℕ → Option ℕ) where
  scan_pass-parts :
      (configured : Bool) (now payload caller : ℕ) (role : Role) (s t : Store) (out : Booking)
      → scan_pass verify configured now payload caller role s ≡ ok (t, out)
      → (bid : ℕ) × (i : PassInfo) × (verify payload now ≡ some bid)
        × (get_pass_info bid s ≡ ok i)
        × ((i.host_id ≡ caller) ⊎ (is_admin_role role ≡ true))
        × (in_window now i ≡ true)
        × (check_in now bid caller s ≡ ok (t, out))
  unfolding scan_pass
  scan_pass-parts configured now payload caller role s t out h =
      elim (Option-cases (verify payload now)) [
        | inl none_valid ↦ absurd (ground arith)
        | inr (bid, v) ↦ elim (Result-cases (get_pass_info bid s)) [
          | inr (x, e) ↦ absurd (ground arith)
          | inl (i, e) ↦ (bid, i, v, e, ground arith, ground arith, ground arith)
        ]
      ]

  -- A scan that admits someone had a valid signature, of the booking that is checked in by it, and
  -- was made by the plan's host or an admin, from two hours before the plan's start to one hour
  -- after its end. The same pass admits nobody a second time, whoever scans it. A payload is valid
  -- for one booking only.
  pub scan_pass_once :
      (configured configured' : Bool) (now later payload caller caller' : ℕ) (role role' : Role)
      (s t u : Store) (out out' : Booking)
      → IsSignature verify
      → scan_pass verify configured now payload caller role s ≡ ok (t, out)
      → ((bid : ℕ) × (i : PassInfo) × (verify payload now ≡ some bid)
          × (out.id ≡ bid)
          × (is_attended out.status ≡ true)
          × (get_pass_info bid s ≡ ok i)
          × ((i.host_id ≡ caller) ⊎ (is_admin_role role ≡ true))
          × IsInTime now i)
        × ¬ (scan_pass verify configured' later payload caller' role' t ≡ ok (u, out'))
  unfolding attend_row
  scan_pass_once configured configured' now later payload caller caller' role role' s t u out out'
        signed h =
      let (bid, i, valid, info, who, when, done) =
        scan_pass-parts configured now payload caller role s t out h in
      let (b, found, seated, row, rows) = check_in-ok now bid caller s t out done in
      (
        (
          bid,
          i,
          valid,
          ground (arith, find_booking-id bid s b found),
          ground arith,
          info,
          who,
          in_window-IsInTime now i when,
        ),
        λ again.
            let (bid', _, valid', _, _, _, twice) =
              scan_pass-parts configured' later payload caller' role' t u out' again in
            let same : bid ≡ bid' = signed payload now later bid bid' valid valid' in
            let refused = check_in_twice now later bid caller caller' s t out done in ground arith,
      )

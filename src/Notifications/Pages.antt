-- ===== src/Notifications/Pages.antt =====
-- A client that asks for page after page sees every notification of the user once, newest first.
use hivemind_backend.Notifications.Types.{Notification, Board}
use hivemind_backend.Notifications.Inbox.{
  cut, before_of, page_size, limit, list_notifications, last_time, is_before, PageToken,
  newest_first, is_of_user,
}
use hivemind_backend.Prelude.{
  sym, Option, ◌<◌, ◌==◌, ◌+◌, false, none, ltb, ltb→lt, ◌∙◌, arith, length, List, ℕ, Bool-cases,
  select_where, ◌++◌, ◌≡◌, ◌≤◌, err, ok, inr, inl, [], some, refl, suc, zero,
}
use hivemind_backend.Notifications.Order.{
  newest_first-IsStrict, IsDistinct, list_for_user-inbox, IsStrict,
}
use hivemind_backend.Notifications.Limit.{
  limit-skip, length-skip, limit_whole, length-limit, limit-limit, All-select, select-none, PageEnd,
  page_end, select-IsStrict, select-narrow,
}

-- The user's notifications, newest first.
abbrev pub inbox : ℕ → Board → List Notification
inbox uid b = newest_first (select_where (is_of_user uid) b.notifications)

-- A client that follows the page tokens, for at most `fuel` pages.
unfoldable pub walk : ℕ → ℕ → PageToken → Board → List Notification
walk zero uid token b = []
walk (suc fuel) uid token b = elim (list_notifications uid token b) [
  | err e ↦ []
  | ok (page, next) ↦
      let rest = walk fuel uid next b in
      elim next [
        | PageToken.cursor t ↦ page ++ rest
        | PageToken.no_token ↦ page
        | PageToken.garbled ↦ page
      ]
]

list_notifications-ok :
    (uid : ℕ) (token : PageToken) (before : Option ℕ) (b : Board)
    → (uid == 0) ≡ false
    → before_of token ≡ ok before
    → list_notifications uid token b
      ≡ ok (cut (limit (page_size + 1) (select_where (is_before before) (inbox uid b))))
unfolding list_notifications
list_notifications-ok uid token before b user given =
    rw (user, given, list_for_user-inbox uid (page_size + 1) before b)

cut-last :
    (ns : List Notification)
    → length ns ≤ page_size
    → cut (limit (page_size + 1) ns) ≡ (ns, PageToken.no_token)
unfolding cut
cut-last ns h = rw (limit_whole (page_size + 1) ns (omega arith)) (ground arith)

cut-more :
    (ns : List Notification)
    → page_size < length ns
    → cut (limit (page_size + 1) ns) ≡ (limit page_size ns, last_time (limit page_size ns))
unfolding cut
cut-more ns h = rw (limit-limit page_size ns, length-limit (page_size + 1) ns (omega arith))

walk-last :
    (fuel uid : ℕ) (token : PageToken) (b : Board) (page : List Notification)
    → list_notifications uid token b ≡ ok (page, PageToken.no_token)
    → walk (suc fuel) uid token b ≡ page
unfolding walk
walk-last fuel uid token b page h = ground arith

walk-more :
    (fuel uid : ℕ) (token : PageToken) (b : Board) (page : List Notification) (t : ℕ)
    → list_notifications uid token b ≡ ok (page, PageToken.cursor t)
    → walk (suc fuel) uid token b ≡ page ++ walk fuel uid (PageToken.cursor t) b
unfolding walk
walk-more fuel uid token b page t h = ground arith

-- The walk from a cursor on gives what lies before it.
walk-rest :
    (fuel uid : ℕ) (token : PageToken) (before : Option ℕ) (b : Board)
    → (uid == 0) ≡ false
    → IsStrict (inbox uid b)
    → before_of token ≡ ok before
    → length (select_where (is_before before) (inbox uid b)) < fuel
    → walk fuel uid token b ≡ select_where (is_before before) (inbox uid b)
unfolding PageEnd
walk-rest zero uid token before b user strict given enough = absurd (omega arith)
walk-rest (suc fuel) uid token before b user strict given enough =
    let rest = select_where (is_before before) (inbox uid b) in
    let listed = list_notifications-ok uid token before b user given in
    elim (Bool-cases (ltb page_size (length rest))) [
      | inl more ↦
          let full = ltb→lt page_size (length rest) more in
          let (x, (last, left, every)) =
            page_end 29 rest (select-IsStrict (is_before before) (inbox uid b) strict)
              (omega arith) in
          let narrow =
            select-narrow before x.created_at x (inbox uid b) refl
              (every (is_before before) (All-select (is_before before) (inbox uid b))) in
          let after_page = sym narrow ∙ left in
          let rest_walked =
            walk-rest fuel uid (PageToken.cursor x.created_at) (some x.created_at) b user strict
              refl (rw (after_page, length-skip page_size rest) (omega arith)) in
          walk-more fuel uid token b (limit page_size rest) x.created_at
            (listed ∙ rw (cut-more rest full, last))
          ∙ rw (rest_walked, after_page) (limit-skip page_size rest)
      | inr last ↦ walk-last fuel uid token b rest (listed ∙ rw (cut-last rest (ground arith)))
    ]

-- Walking the pages from the first on gives each notification of the user, newest first, if no two
-- of the user's have one time: no page drops or repeats any. One page more than there are
-- notifications is enough.
pub walk-inbox :
    (fuel uid : ℕ) (b : Board)
    → (uid == 0) ≡ false
    → IsDistinct (select_where (is_of_user uid) b.notifications)
    → length (inbox uid b) < fuel
    → walk fuel uid PageToken.no_token b ≡ inbox uid b
walk-inbox fuel uid b user distinct enough =
    let whole = select-none (inbox uid b) in
    walk-rest fuel uid PageToken.no_token none b user
      (newest_first-IsStrict (select_where (is_of_user uid) b.notifications) distinct) refl
      (rw whole enough)
    ∙ whole

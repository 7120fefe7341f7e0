-- ===== src/Notifications/Inbox.antt =====
-- A user's own notifications: `Create`, `ListForUser`, `MarkRead` and `UnreadCount` of
-- repository.go, and the methods of service.go over them.
use hivemind_backend.Prelude.{
  false, length, ltb, not, count_where, update_where, List, ℕ, Result, Bool, Option, select_where,
  any_where, ◌>>◌, ◌>>=◌, if◌then◌else◌, ◌&&◌, ◌==◌, ◌+◌, guard, ◌∷◌, err, ok, true, [], some, none,
  suc, zero,
}
use hivemind_backend.Notifications.Types.{
  EventType, DeliveryStatus, NotifyError, Notification, Board,
}

-- The columns that `Create` leaves at their defaults.
abbrev pub plain_row : Notification → Notification
plain_row draft = record draft {
  kind = EventType.no_type;
  actor_id = 0;
  target_id = 0;
  dedupe_key = 0;
  read = false;
  delivery_status = DeliveryStatus.pending;
  delivery_error = 0;
}

-- `Create`; `draft` is the row with its key and time.
unfoldable pub create_notification : Notification → Board → Board
create_notification draft b = record b { notifications = plain_row draft ∷ b.notifications }

-- `ORDER BY created_at DESC`
unfoldable pub insert_by_time : Notification → List Notification → List Notification
insert_by_time n [] = n ∷ []
insert_by_time n (m ∷ ms) =
    let rest = insert_by_time n ms in if ltb n.created_at m.created_at then m ∷ rest else n ∷ m ∷ ms

unfoldable pub newest_first : List Notification → List Notification
unfolding insert_by_time
newest_first [] = []
newest_first (n ∷ ns) = insert_by_time n (newest_first ns)

-- `LIMIT`
unfoldable pub limit : ℕ → List Notification → List Notification
limit zero ns = []
limit (suc k) [] = []
limit (suc k) (n ∷ ns) = n ∷ limit k ns

-- The page lies before the cursor, if there is one.
abbrev pub is_before : Option ℕ → Notification → Bool
is_before none n = true
is_before (some t) n = ltb n.created_at t

abbrev pub is_of_user : ℕ → Notification → Bool
is_of_user uid n = n.user_id == uid

-- `ListForUser`
unfoldable pub list_for_user : ℕ → ℕ → Option ℕ → Board → List Notification
unfolding limit newest_first
list_for_user uid k before b =
    limit k
      (newest_first (select_where (λ n. is_of_user uid n && is_before before n) b.notifications))

-- `defaultPageSize`
abbrev pub page_size : ℕ
page_size = 30

-- The page token that a client sends: none, a cursor, or a text that is not a time.
pub data PageToken : Type 0 where
  no_token : PageToken
  cursor : (before : ℕ) → PageToken
  garbled : PageToken

-- The cursor after a page: the time of its last row.
unfoldable pub last_time : List Notification → PageToken
last_time [] = PageToken.no_token
last_time (n ∷ []) = PageToken.cursor n.created_at
last_time (n ∷ m ∷ ms) = last_time (m ∷ ms)

-- The page and the next page's token, out of one row more than a page has.
unfoldable pub cut : List Notification → List Notification × PageToken
unfolding limit last_time
cut rows =
    let page = limit page_size rows in
    if ltb page_size (length rows) then (page, last_time page) else (rows, PageToken.no_token)

abbrev pub before_of : PageToken → Result NotifyError (Option ℕ)
before_of PageToken.no_token = ok none
before_of (PageToken.cursor t) = ok (some t)
before_of PageToken.garbled = err NotifyError.invalid_input

-- `ListNotifications`
unfoldable pub list_notifications :
    ℕ → PageToken → Board → Result NotifyError (List Notification × PageToken)
unfolding cut list_for_user
list_notifications uid token b = do
  guard (not (uid == 0)) NotifyError.invalid_input
  before ← before_of token
  ok (cut (list_for_user uid (page_size + 1) before b))

abbrev pub is_unread_of : ℕ → Notification → Bool
is_unread_of uid n = n.user_id == uid && not n.read

abbrev pub is_one_of : List ℕ → Notification → Bool
is_one_of ids n = any_where (λ i. i == n.id) ids

unfoldable pub set_read : Notification → Notification
set_read n = record n { read = true }

-- `UnreadCount` of the repository.
unfoldable pub unread_count : ℕ → Board → ℕ
unread_count uid b = count_where (is_unread_of uid) b.notifications

-- `MarkRead` of the repository: every unread row, or the rows with these ids. An empty list of ids
-- fits no row.
unfoldable pub mark_rows_read : ℕ → List ℕ → Bool → Board → Board
unfolding set_read
mark_rows_read uid ids all b = record b {
  notifications =
      if all
      then update_where (is_unread_of uid) set_read b.notifications
      else update_where (λ n. is_unread_of uid n && is_one_of ids n) set_read b.notifications;
}

-- `MarkRead` of the service; 0 is an id that is not a UUID.
unfoldable pub mark_read : ℕ → List ℕ → Bool → Board → Result NotifyError (Board × ℕ)
unfolding mark_rows_read unread_count
mark_read uid ids all b = do
  guard (not (uid == 0)) NotifyError.invalid_input
  guard (not (any_where (λ i. i == 0) ids)) NotifyError.invalid_input
  let marked = mark_rows_read uid ids all b
  ok (marked, unread_count uid marked)

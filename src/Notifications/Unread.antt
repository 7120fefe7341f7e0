-- ===== src/Notifications/Unread.antt =====
-- What is unread: never two rows for one key, and none once all are marked read.
use hivemind_backend.Notifications.Inbox.{is_unread_of, unread_count, mark_rows_read, set_read}
use hivemind_backend.Notifications.Dispatch.{mark_delivery, notification_key, set_delivery}
use hivemind_backend.Notifications.Emit.{is_unread_with}
use hivemind_backend.Prelude.{
  true, ==→eq, arith, Bool-cases, update_first, update_where, Bool, ◌&&◌, ◌==◌, inr, inl, [], refl,
  List, ℕ, count_where, any_where, ◌⊎◌, ◌≡◌, ◌≤◌, ◌∷◌, false,
}
use hivemind_backend.Notifications.Types.{DeliveryStatus, Notification, Board}

-- No key has two unread rows of one user.
unfoldable pub IsDeduped : List Notification → Type 0
IsDeduped ns = (uid key : ℕ) → (key ≡ 0) ⊎ (count_where (is_unread_with uid key) ns ≤ 1)

none_counted :
    (f : Notification → Bool) (ns : List Notification)
    → any_where f ns ≡ false
    → count_where f ns ≡ 0
unfolding any_where count_where
none_counted f [] h = refl
none_counted f (n ∷ ns) h = ground (arith, none_counted f ns)

-- A row without a key, or whose key has no unread row, may come in.
pub push-IsDeduped :
    (n : Notification) (ns : List Notification)
    → (n.dedupe_key ≡ 0) ⊎ (any_where (is_unread_with n.user_id n.dedupe_key) ns ≡ false)
    → IsDeduped ns
    → IsDeduped (n ∷ ns)
unfolding IsDeduped count_where
push-IsDeduped n ns (inl keyless) deduped uid key = ground (arith, deduped uid key)
push-IsDeduped n ns (inr fresh) deduped uid key =
    elim (Bool-cases (n.user_id == uid && n.dedupe_key == key)) [
      | inl e ↦
          let same_user = ==→eq n.user_id uid (ground arith) in
          let same_key = ==→eq n.dedupe_key key (ground arith) in
          let absent = none_counted (is_unread_with n.user_id n.dedupe_key) ns fresh in
          inr (ground arith)
      | inr e ↦ ground (arith, deduped uid key)
    ]

-- An update that makes no row unread keeps the rows free of repeats.
count-update_where :
    (uid key : ℕ) (f : Notification → Bool) (ns : List Notification)
    → count_where (is_unread_with uid key) (update_where f set_read ns)
      ≤ count_where (is_unread_with uid key) ns
unfolding count_where update_where set_read
count-update_where uid key f [] = ground arith
count-update_where uid key f (n ∷ ns) = ground (arith, count-update_where uid key f ns)

pub read-IsDeduped :
    (f : Notification → Bool) (ns : List Notification)
    → IsDeduped ns
    → IsDeduped (update_where f set_read ns)
unfolding IsDeduped
read-IsDeduped f ns deduped uid key =
    ground (arith, deduped uid key, count-update_where uid key f ns)

count-mark_delivery :
    (uid key : ℕ) (id : ℕ) (status : DeliveryStatus) (error : ℕ) (ns : List Notification)
    → count_where
        (is_unread_with uid key)
        (update_first (notification_key id) (set_delivery status error) ns)
      ≡ count_where (is_unread_with uid key) ns
unfolding count_where update_first set_delivery
count-mark_delivery uid key id status error [] = refl
count-mark_delivery uid key id status error (n ∷ ns) =
    ground (arith, count-mark_delivery uid key id status error ns)

pub mark_delivery-IsDeduped :
    (id : ℕ) (status : DeliveryStatus) (error : ℕ) (b : Board)
    → IsDeduped b.notifications
    → IsDeduped (mark_delivery id status error b).notifications
unfolding IsDeduped mark_delivery
mark_delivery-IsDeduped id status error b deduped uid key =
    rw (count-mark_delivery uid key id status error b.notifications) (deduped uid key)

all_read :
    (uid : ℕ) (ns : List Notification)
    → count_where (is_unread_of uid) (update_where (is_unread_of uid) set_read ns) ≡ 0
unfolding count_where update_where set_read
all_read uid [] = refl
all_read uid (n ∷ ns) = ground (arith, all_read uid ns)

others_read :
    (uid other : ℕ) (different : (other == uid) ≡ false) (ns : List Notification)
    → count_where (is_unread_of other) (update_where (is_unread_of uid) set_read ns)
      ≡ count_where (is_unread_of other) ns
unfolding count_where update_where set_read
others_read uid other different [] = refl
others_read uid other different (n ∷ ns) = ground (arith, others_read uid other different ns)

-- Marking every notification of a user read leaves that user none unread, and every other user's
-- count as it was.
pub unread_count-mark_all :
    (uid other : ℕ) (b : Board)
    → (unread_count uid (mark_rows_read uid [] true b) ≡ 0)
      × ((other ≡ uid) ⊎ (unread_count other (mark_rows_read uid [] true b) ≡ unread_count other b))
unfolding unread_count mark_rows_read
unread_count-mark_all uid other b = (
  all_read uid b.notifications,
  elim (Bool-cases (other == uid)) [
    | inl e ↦ inl (==→eq other uid e)
    | inr e ↦ inr (others_read uid other e b.notifications)
  ],
)

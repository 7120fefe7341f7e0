-- ===== src/Notifications/Emit.antt =====
-- `Emit` of emit.go, the one place that decides whether a notification should exist. The row keeps
-- the title and the body with `{actor}` in them; the actor's name is not filled in here.
use hivemind_backend.Auth.Types.{user_key, is_active}
use hivemind_backend.Prelude.{
  not, ℕ, Result, Bool, any_where, if◌then◌else◌, ◌||◌, ◌&&◌, ◌==◌, ◌∷◌, err, ok, false, true,
}
use hivemind_backend.Notifications.Types.{
  same_category, category_of, is_blocked, is_type, Channel, Preferences, DeliveryStatus, Event,
  NotifyError, Category, Notification, Board,
}

-- An unread row with the key, which the index `notifications_dedupe_idx` makes UNIQUE.
abbrev pub is_unread_with : ℕ → ℕ → Notification → Bool
is_unread_with uid key n = n.user_id == uid && n.dedupe_key == key && not n.read

abbrev pub has_muted : ℕ → Category → Preferences → Bool
has_muted uid c p = p.user_id == uid && any_where (same_category c) p.muted_categories

abbrev pub new_row : ℕ → ℕ → Event → Notification
new_row id now e = record {
  id = id;
  user_id = e.user_id;
  channel = Channel.in_app;
  kind = e.kind;
  actor_id = e.actor_id;
  target_id = e.target_id;
  title = e.title;
  body = e.body;
  deep_link = e.deep_link;
  dedupe_key = e.dedupe_key;
  read = false;
  created_at = now;
  delivery_status = DeliveryStatus.pending;
  delivery_error = 0;
}

-- The WHERE clause of the INSERT.
unfoldable pub is_wanted : Event → Board → Bool
is_wanted e b =
    not (e.user_id == e.actor_id)
    && any_where (λ u. user_key e.user_id u && is_active u.status) b.users
    && (e.actor_id == 0 || not (is_blocked e.user_id e.actor_id b.blocks))
    && not (any_where (has_muted e.user_id (category_of e.kind)) b.preferences)

abbrev pub is_repeat : Event → Board → Bool
is_repeat e b =
    not (e.dedupe_key == 0) && any_where (is_unread_with e.user_id e.dedupe_key) b.notifications

-- `Emit`: the new row's id is `id`; whether a row was created.
unfoldable pub emit : ℕ → ℕ → Event → Board → Board × Result NotifyError Bool
unfolding is_wanted
emit id now e b =
    if e.user_id == 0 || not (is_type e.kind) || e.title == 0
    then (b, err NotifyError.invalid_input)
    else if is_wanted e b && not (is_repeat e b)
    then (record b { notifications = new_row id now e ∷ b.notifications }, ok true)
    else (b, ok false)

-- ===== src/Notifications/Settings.antt =====
-- A user's settings: `SetMutedCategories`, `MutedCategories`, `UpsertPreferences` and `Preferences`
-- of repository.go, and the methods of service.go over them.
use hivemind_backend.Prelude.{
  not, guard, ◌>>◌, List, Bool, ℕ, any_where, update_first, Result, find_where, if◌then◌else◌, ◌==◌,
  ◌∷◌, ok, false, true, [], some, none,
}
use hivemind_backend.Notifications.Types.{Category, Preferences, NotifyError, Board}
use hivemind_backend.Notifications.Dispatch.{preferences_key}

abbrev pub default_preferences : ℕ → Preferences
default_preferences uid = record {
  user_id = uid;
  push_enabled = true;
  email_enabled = true;
  quiet_start = 0;
  quiet_end = 0;
  muted_categories = [];
}

-- `INSERT … ON CONFLICT (user_id) DO UPDATE`
unfoldable pub upsert_preferences : ℕ → (Preferences → Preferences) → Board → Board
upsert_preferences uid set b = record b {
  preferences =
      if any_where (preferences_key uid) b.preferences
      then update_first (preferences_key uid) set b.preferences
      else set (default_preferences uid) ∷ b.preferences;
}

unfoldable pub set_muted_categories : List Category → Preferences → Preferences
set_muted_categories muted p = record p { muted_categories = muted }

abbrev pub is_mutable : Category → Bool
is_mutable Category.uncategorized = false
is_mutable _ = true

-- `SetMuted`, with `SetMutedCategories`
unfoldable pub set_muted : ℕ → List Category → Board → Result NotifyError Board
unfolding upsert_preferences set_muted_categories
set_muted uid muted b = do
  guard (not (uid == 0)) NotifyError.invalid_input
  guard (not (any_where (λ c. not (is_mutable c)) muted)) NotifyError.invalid_input
  ok (upsert_preferences uid (set_muted_categories muted) b)

unfoldable pub set_channels : Bool → Bool → ℕ → ℕ → Preferences → Preferences
set_channels push email start end p = record p {
  push_enabled = push;
  email_enabled = email;
  quiet_start = start;
  quiet_end = end;
}

-- `UpdatePreferences`, with `UpsertPreferences`
unfoldable pub update_preferences : ℕ → Bool → Bool → ℕ → ℕ → Board → Result NotifyError Board
unfolding upsert_preferences set_channels
update_preferences uid push email start end b = do
  guard (not (uid == 0)) NotifyError.invalid_input
  ok (upsert_preferences uid (set_channels push email start end) b)

-- The row of a user's settings, or the defaults where they never chose any: `Preferences` and
-- `MutedCategories`.
unfoldable pub preferences_of : ℕ → Board → Preferences
preferences_of uid b = elim (find_where (preferences_key uid) b.preferences) [
  | none ↦ default_preferences uid
  | some p ↦ p
]

-- ===== src/Config.antt =====
-- The checks of `Settings` in src/reliamesh/config.py.
use reliamesh.Prelude.{
  ℕ, Text, text, length, leb, ◌==◌, not, ◌&&◌, ◌||◌, Result, ok, ◌>>◌, raise_if, all_chars,
}
use reliamesh.Storage.Common.{is_hex}
use reliamesh.Storage.Sqlite.Tables.{same}

pub record Settings : Type 0 where
  pub store : Text
  pub sqlite_path : Text
  pub project : Text
  pub database : Text
  pub admin_hash : Text
  pub max_body_bytes : ℕ
  pub daily_events : ℕ
  pub requests_per_minute : ℕ
  pub global_requests_per_second : ℕ

-- the refusals of `__post_init__`, by what they are about
pub data SettingsError : Type 0 where
  bad_store bad_project bad_admin_hash bad_daily_events : SettingsError

unfoldable pub post_init : Settings → Result SettingsError Settings
post_init s = do
  raise_if (not (same s.store (text "sqlite") || same s.store (text "firestore"))) bad_store
  raise_if (same s.store (text "firestore") && not (same s.project (text "reliamesh"))) bad_project
  raise_if
      (not (length s.admin_hash == 0)
        && not (length s.admin_hash == 64 && all_chars is_hex s.admin_hash))
      bad_admin_hash
  raise_if (not (leb 1 s.daily_events && leb s.daily_events 100_000)) bad_daily_events
  ok s

-- ===== src/Auth/Lifecycle.antt =====
-- Loading, generating and migrating tokens: the last part of internal/auth/token.go.
pub mod Reuse
pub mod Migration
use op_forward.Files.{Disk, Outcome, Saved}
use op_forward.Auth.Token.{
  Token, access_token_ttl, refresh_token_ttl, generate_access, generate_refresh, is_valid,
}
use op_forward.Auth.Store.{
  Env, Rfc3339, access_token_path, refresh_token_path, legacy_token_path, save_to_path,
  load_from_path,
}
use op_forward.Prelude.{ℕ, Bool, true, false, Option, none, some, List, if◌then◌else◌, Text}

-- What the clock, the random source and the operating system contribute to one call.
pub record Moment : Type 0 where
  pub now : ℕ
  pub random : List ℕ
  pub outcome : Outcome

-- `(*Token, bool, error)`; `none` is an error.
pub record Obtained : Type 0 where
  pub disk : Disk
  pub token : Option (Token × Bool)

-- The token if it was loaded and is still valid.
abbrev pub still_valid : ℕ → Option Token → Option Token
still_valid now none = none
still_valid now (some t) = if is_valid now t then some t else none

abbrev kept_or_saved : Saved → Token → Obtained
kept_or_saved saved t = record {
  disk = saved.disk;
  token = if saved.ok then some (t, true) else none;
}

abbrev reuse_or_generate : Rfc3339 → Disk → Text → Token → ℕ → Outcome → Option Token → Obtained
reuse_or_generate time d path fresh ttl o (some t) = record {
  disk = d;
  token = some (record t { ttl = ttl }, false);
}
reuse_or_generate time d path fresh ttl o none =
    kept_or_saved (save_to_path time d fresh path o) fresh

abbrev refresh_at : Rfc3339 → Disk → Moment → Option Text → Obtained
refresh_at time d m none = record { disk = d; token = none }
refresh_at time d m (some path) =
    reuse_or_generate time d path (generate_refresh m.random m.now) refresh_token_ttl m.outcome
      (still_valid m.now (load_from_path time d path))

unfoldable pub load_or_generate_refresh : Rfc3339 → Env → Disk → Moment → Obtained
unfolding is_valid
load_or_generate_refresh time env d m = refresh_at time d m (refresh_token_path env)

abbrev access_at : Rfc3339 → Disk → Moment → Option Text → Obtained
access_at time d m none = record { disk = d; token = none }
access_at time d m (some path) =
    reuse_or_generate time d path (generate_access m.random m.now) access_token_ttl m.outcome
      (still_valid m.now (load_from_path time d path))

-- `LoadOrGenerate`, through `Load` and `Token.Save`. Without a path both fail.
unfoldable pub load_or_generate : Rfc3339 → Env → Disk → Moment → Obtained
unfolding is_valid
load_or_generate time env d m = access_at time d m (access_token_path env)

abbrev migrate_token : Rfc3339 → Disk → Text → Outcome → Option Token → Saved
migrate_token time d refresh o none = record { disk = d; ok = true }
migrate_token time d refresh o (some t) =
    save_to_path time d (record t { ttl = refresh_token_ttl }) refresh o

abbrev migrate_from : Rfc3339 → Disk → Moment → Text → Option Text → Saved
migrate_from time d m refresh none = record { disk = d; ok = false }
migrate_from time d m refresh (some legacy) =
    migrate_token time d refresh m.outcome (still_valid m.now (load_from_path time d legacy))

-- `os.Stat` succeeds on the refresh token's path: there is nothing to migrate.
abbrev migrate_unless : Rfc3339 → Disk → Moment → Text → Option Text → Option Text → Saved
migrate_unless time d m refresh legacy (some _) = record { disk = d; ok = true }
migrate_unless time d m refresh legacy none = migrate_from time d m refresh legacy

abbrev migrate_at : Rfc3339 → Disk → Moment → Option Text → Option Text → Saved
migrate_at time d m none legacy = record { disk = d; ok = false }
migrate_at time d m (some refresh) legacy = migrate_unless time d m refresh legacy (d refresh)

-- `MigrateLegacyToken`.
unfoldable pub migrate_legacy_token : Rfc3339 → Env → Disk → Moment → Saved
unfolding is_valid
migrate_legacy_token time env d m =
    migrate_at time d m (refresh_token_path env) (legacy_token_path env)

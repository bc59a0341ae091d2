-- ===== src/Auth/Lifecycle/Migration.antt =====
-- Upgrading from the single-token system.
use op_forward.Files.{Disk}
use op_forward.Auth.Token.{Token, second, refresh_token_ttl, is_valid}
use op_forward.Auth.Token.Hex.{IsSolid}
use op_forward.Auth.Store.{
  Env, Rfc3339, refresh_token_path, legacy_token_path, save_to_path, load_from_path,
}
use op_forward.Auth.Store.RoundTrip.{IsRfc3339, stored, load-save}
use op_forward.Auth.Lifecycle.{Moment, load_or_generate_refresh, migrate_legacy_token}
use op_forward.Auth.Lifecycle.Reuse.{load_or_generate_refresh_of_valid, is_valid_of_lt}
use op_forward.Prelude.{
  ℕ, ◌*◌, ◌/◌, ◌≤◌, ◌<◌, ◌≡◌, sym, ap, ◌∙◌, ◌≢◌, true, false, none, some, [], arith, Text,
}

-- An existing refresh token file is never touched, and neither is anything else.
pub migrate_keeps :
    (time : Rfc3339) (env : Env) (d : Disk) (m : Moment) (path content : Text)
    → refresh_token_path env ≡ some path
    → d path ≡ some content
    → migrate_legacy_token time env d m ≡ record { disk = d; ok = true }
unfolding migrate_legacy_token
migrate_keeps time env d m path content at e = ground (arith, at, e)

-- With neither file there is nothing to migrate.
pub migrate_nothing :
    (time : Rfc3339) (env : Env) (d : Disk) (m : Moment) (path legacy : Text)
    → refresh_token_path env ≡ some path
    → legacy_token_path env ≡ some legacy
    → d path ≡ none
    → load_from_path time d legacy ≡ none
    → migrate_legacy_token time env d m ≡ record { disk = d; ok = true }
unfolding migrate_legacy_token
migrate_nothing time env d m path legacy at from absent e = ground (arith, at, from, absent, e)

migrated :
    (time : Rfc3339) (env : Env) (d : Disk) (m : Moment) (path legacy : Text) (t : Token)
    → refresh_token_path env ≡ some path
    → legacy_token_path env ≡ some legacy
    → d path ≡ none
    → load_from_path time d legacy ≡ some t
    → is_valid m.now t ≡ true
    → migrate_legacy_token time env d m
      ≡ save_to_path time d (record t { ttl = refresh_token_ttl }) path m.outcome
unfolding migrate_legacy_token
migrated time env d m path legacy t at from absent e v = ground (arith, at, from, absent, e, v)

-- Without a refresh token file, a legacy token that is valid at the migration becomes the refresh
-- token: if the migration reports no error, a next start that comes before the whole second in
-- which the token expires uses its value as the refresh token. The value is not empty and has no
-- white space, and its expiry is within the range of the time format.
pub migrate_promotes :
    (time : Rfc3339) (last : ℕ) (env : Env) (d : Disk) (m m' : Moment) (path legacy : Text)
    (t : Token)
    → IsRfc3339 time last
    → refresh_token_path env ≡ some path
    → legacy_token_path env ≡ some legacy
    → d path ≡ none
    → load_from_path time d legacy ≡ some t
    → t.value ≢ []
    → IsSolid t.value
    → m.now < t.expires
    → t.expires ≤ last
    → (migrate_legacy_token time env d m).ok ≡ true
    → m'.now < t.expires / second * second
    → (load_or_generate_refresh time env (migrate_legacy_token time env d m).disk m').token
      ≡ some (record (stored t) { ttl = refresh_token_ttl }, false)
migrate_promotes time last env d m m' path legacy t laws at from absent e hv kv fresh fits ok
      later =
    let same =
      migrated time env d m path legacy t at from absent e (is_valid_of_lt m.now t fresh) in
    let t' : Token = record t { ttl = refresh_token_ttl } in
    let read =
      load-save time last laws d path t' m.outcome hv kv fits (ap (λ s. s.ok) (sym same) ∙ ok) in
    ap (λ o. o.token)
      (load_or_generate_refresh_of_valid time env _ m' path (stored t') at (rw same read)
        (is_valid_of_lt m'.now (stored t') later))

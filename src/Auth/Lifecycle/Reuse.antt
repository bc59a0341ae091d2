-- ===== src/Auth/Lifecycle/Reuse.antt =====
-- Tokens survive a restart, and an upgrade from the single-token system.
use op_forward.Files.{Disk}
use op_forward.Auth.Token.{Token, second, refresh_token_ttl, generate_refresh, is_valid}
use op_forward.Auth.Token.Hex.{IsRandom, IsSolid, generate-IsHex, IsHexDigit-IsSolid}
use op_forward.Auth.Store.{Env, Rfc3339, refresh_token_path, save_to_path, load_from_path}
use op_forward.Auth.Store.RoundTrip.{IsRfc3339, stored, load-save}
use op_forward.Auth.Lifecycle.{Moment, load_or_generate_refresh}
use op_forward.Prelude.{
  ℕ, suc, ◌*◌, ◌/◌, ◌≤◌, ◌<◌, ◌≡◌, refl, ◌≢◌, inl, inr, Bool, true, false, none, some, List, [],
  ◌∷◌, arith, if◌then◌else◌, Option-cases, Text, length,
}

-- A token that `LoadOrGenerateRefresh` returns is valid at that time and has the TTL of 30 days. One
-- that is new is the generated one; where it is not, the disk is unchanged.
pub load_or_generate_refresh_valid :
    (time : Rfc3339) (env : Env) (d : Disk) (m : Moment) (t : Token) (is_new : Bool)
    → (load_or_generate_refresh time env d m).token ≡ some (t, is_new)
    → (is_valid m.now t ≡ true)
      × (t.ttl ≡ refresh_token_ttl)
      × (if is_new
          then t ≡ generate_refresh m.random m.now
          else (load_or_generate_refresh time env d m).disk ≡ d)
unfolding load_or_generate_refresh generate_refresh
load_or_generate_refresh_valid time env d m t is_new h = ground arith

-- A token file that loads as a valid token is reused as it is.
pub load_or_generate_refresh_of_valid :
    (time : Rfc3339) (env : Env) (d : Disk) (m : Moment) (path : Text) (t : Token)
    → refresh_token_path env ≡ some path
    → load_from_path time d path ≡ some t
    → is_valid m.now t ≡ true
    → load_or_generate_refresh time env d m
      ≡ record { disk = d; token = some (record t { ttl = refresh_token_ttl }, false) }
unfolding load_or_generate_refresh
load_or_generate_refresh_of_valid time env d m path t at e v = ground (arith, at, e, v)

-- Without a token file a new token is generated and saved.
pub load_or_generate_refresh_of_absent :
    (time : Rfc3339) (env : Env) (d : Disk) (m : Moment) (path : Text)
    → refresh_token_path env ≡ some path
    → load_from_path time d path ≡ none
    → (save_to_path time d (generate_refresh m.random m.now) path m.outcome).ok ≡ true
    → load_or_generate_refresh time env d m ≡ record {
      disk = (save_to_path time d (generate_refresh m.random m.now) path m.outcome).disk;
      token = some (generate_refresh m.random m.now, true);
    }
unfolding load_or_generate_refresh
load_or_generate_refresh_of_absent time env d m path at e ok = rw (at, e, ok) refl

pub ne_nil_of_length : (s : Text) {n : ℕ} → length s ≡ suc n → s ≢ []
ne_nil_of_length [] h e = absurd (omega arith)
ne_nil_of_length (c ∷ s) h e = cc

-- What `LoadOrGenerateRefresh` saved.
generated_saved :
    (time : Rfc3339) (env : Env) (d : Disk) (m : Moment) (t : Token) (path : Text)
    → refresh_token_path env ≡ some path
    → (load_or_generate_refresh time env d m).token ≡ some (t, true)
    → (t ≡ generate_refresh m.random m.now)
      × ((save_to_path time d t path m.outcome).ok ≡ true)
      × ((load_or_generate_refresh time env d m).disk ≡ (save_to_path time d t path m.outcome).disk)
unfolding load_or_generate_refresh
generated_saved time env d m t path at h = ground (arith, at)

needs_path :
    (time : Rfc3339) (env : Env) (d : Disk) (m : Moment) (r : Token × Bool)
    → (load_or_generate_refresh time env d m).token ≡ some r
    → refresh_token_path env ≢ none
unfolding load_or_generate_refresh
needs_path time env d m r h e = ground arith

pub generated-IsSolid :
    (bs : List ℕ) (now : ℕ)
    → IsRandom bs
    → (length (generate_refresh bs now).value ≡ 64) × IsSolid (generate_refresh bs now).value
unfolding generate_refresh
generated-IsSolid bs now r =
    let (sixty_four, digits) = generate-IsHex bs now refresh_token_ttl r in
    (sixty_four, IsHexDigit-IsSolid _ digits)

pub is_valid_of_lt : (now : ℕ) (t : Token) → now < t.expires → is_valid now t ≡ true
unfolding is_valid
is_valid_of_lt now t h = ground arith

-- A refresh token that was generated and saved is reused by every later start until it expires, at
-- the second: the value stays, nothing is written and it is not reported as new.
pub load_or_generate_refresh_restart :
    (time : Rfc3339) (last : ℕ) (env : Env) (d : Disk) (m m' : Moment) (t : Token)
    → IsRfc3339 time last
    → IsRandom m.random
    → t.expires ≤ last
    → (load_or_generate_refresh time env d m).token ≡ some (t, true)
    → m'.now < t.expires / second * second
    → load_or_generate_refresh time env (load_or_generate_refresh time env d m).disk m' ≡ record {
      disk = (load_or_generate_refresh time env d m).disk;
      token = some (record (stored t) { ttl = refresh_token_ttl }, false);
    }
load_or_generate_refresh_restart time last env d m m' t laws random fits h fresh =
    elim (Option-cases (refresh_token_path env)) [
      | inl missing ↦ absurd (needs_path time env d m _ h missing)
      | inr (path, at) ↦
          let (made, ok, same) = generated_saved time env d m t path at h in
          let (sixty_four, digits) = solid made in
          load_or_generate_refresh_of_valid time env _ m' path (stored t) at
            (rw same (
              load-save time last laws d path t m.outcome (ne_nil_of_length t.value sixty_four)
                digits fits ok))
            (is_valid_of_lt m'.now (stored t) fresh)
    ]
  where
    solid : t ≡ generate_refresh m.random m.now → (length t.value ≡ 64) × IsSolid t.value
    solid e = rw e (generated-IsSolid m.random m.now random)

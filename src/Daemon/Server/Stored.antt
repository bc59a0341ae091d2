-- ===== src/Daemon/Server/Stored.antt =====
-- The file of the refresh token after each request (internal/daemon/server.go).
use op_forward.Prelude.{ℕ, ◌+◌, ◌≤◌, ◌≡◌, sym, ◌∙◌, inl, inr, true, some, List, Text}
use std.Path.{subst}
use op_forward.Files.{Disk, Outcome, all_well}
use op_forward.Auth.Token.{refresh_token_ttl, generate_access, generate_refresh}
use op_forward.Auth.Token.Hex.{IsRandom}
use op_forward.Auth.Store.{
  Rfc3339, refresh_token_path, legacy_token_path, save_to_path, load_from_path,
}
use op_forward.Auth.Store.RoundTrip.{IsRfc3339, stored, load-save}
use op_forward.Auth.Store.Apart.{IsApart, saved_elsewhere, saves, load_of_same}
use op_forward.Auth.Lifecycle.Reuse.{generated-IsSolid, ne_nil_of_length}
use op_forward.Http.{HttpRequest}
use op_forward.Daemon.Server.{Server, Config, Occasion, serve, rotate, save_access}
use op_forward.Daemon.Server.Rotation.{serve_keeps, serve_exchanges}

-- The file of a generated refresh token whose save works loads as that token.
pub generated_loads :
    (time : Rfc3339) (last : ℕ) (d : Disk) (path : Text) (o : Outcome) (random : List ℕ) (now : ℕ)
    → IsRfc3339 time last
    → o ≡ all_well
    → IsRandom random
    → now + refresh_token_ttl ≤ last
    → load_from_path time (save_to_path time d (generate_refresh random now) path o).disk path
      ≡ some (stored (generate_refresh random now))
generated_loads time last d path o random now laws well is_random fits =
    let t = generate_refresh random now in
    let (sixty_four, solid) = generated-IsSolid random now is_random in
    load-save time last laws d path t o (ne_nil_of_length t.value sixty_four) solid
      (unfold generate_refresh in fits)
      (subst (λ o. (save_to_path time d t path o).ok ≡ true) (sym well) (saves time d t path))

module _ (cfg : Config) (last : ℕ) (path legacy : Text) where
  -- The refresh token's file loads as the refresh token in memory, up to the fraction of a second.
  abbrev pub IsKept : Server → Type 0
  IsKept s = load_from_path cfg.time s.disk path ≡ some (stored s.refresh_token)

  rotate-IsKept :
      (o : Occasion) (s : Server)
      → IsRfc3339 cfg.time last
      → refresh_token_path cfg.env ≡ some path
      → legacy_token_path cfg.env ≡ some legacy
      → IsApart legacy path
      → o.refresh_save ≡ all_well
      → IsRandom o.refresh_random
      → o.now + refresh_token_ttl ≤ last
      → IsKept (rotate cfg o s).server
  unfolding rotate
  rotate-IsKept o s laws at_path at_legacy apart well random fits =
      let d = save_access cfg o (generate_access o.access_random o.now) s.disk in
      let t = generate_refresh o.refresh_random o.now in
      rw (at_legacy, at_path)
        (load_of_same cfg.time _ _ path (
            saved_elsewhere cfg.time (save_to_path cfg.time d t path o.refresh_save).disk
              (generate_access o.access_random o.now) legacy path o.legacy_save apart)
          ∙ generated_loads cfg.time last d path o.refresh_save o.refresh_random o.now laws well
              random fits)

  IsKept-of_same :
      (s s' : Server) → s'.refresh_token ≡ s.refresh_token → s'.disk ≡ s.disk → IsKept s → IsKept s'
  IsKept-of_same s s' token disk h = rw (token, disk) h

  -- A request leaves the file of the refresh token in step with the memory, if the save works.
  pub serve-IsKept :
      (o : Occasion) (s : Server) (r : HttpRequest)
      → IsRfc3339 cfg.time last
      → refresh_token_path cfg.env ≡ some path
      → legacy_token_path cfg.env ≡ some legacy
      → IsApart legacy path
      → o.refresh_save ≡ all_well
      → IsRandom o.refresh_random
      → o.now + refresh_token_ttl ≤ last
      → IsKept s
      → IsKept (serve cfg o s r).server
  serve-IsKept o s r laws at_path at_legacy apart well random fits h =
      elim (serve_keeps cfg o s r) [
        | inl x ↦
            subst (λ x. IsKept x.server) (sym (serve_exchanges cfg o s r x))
              (rotate-IsKept o s laws at_path at_legacy apart well random fits)
        | inr (_, token, disk) ↦ IsKept-of_same s (serve cfg o s r).server token disk h
      ]

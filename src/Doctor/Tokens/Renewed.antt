-- ===== src/Doctor/Tokens/Renewed.antt =====
-- What `renewAccessToken` of cmd/doctor.go leaves in the token files.
use op_forward.Files.History.{succeeds, replace_in_directory-ok}
use op_forward.Files.{Disk, Outcome, Saved}
use op_forward.Files.Atomic.{replace_in_directory-IsAtomic, staged_ne}
use op_forward.Auth.Store.{token_lines, tmp_path}
use op_forward.Http.{TokenResponse}
use op_forward.Proxy.Tokens.{access, refresh, write_token_file}
use op_forward.Proxy.Exchange.{
  Transport, refresh_request, Refreshed, renewed, refresh_error, read_refresh,
}
use op_forward.Doctor.{Component}
use op_forward.Doctor.Tokens.{
  Doctor, State, done, renewal_failed, path_of, is_nil, pair_saved, save_pair, settle,
  renew_access_token,
}
use op_forward.Prelude.{
  ◌≡◌, refl, ◌∙◌, ◌⊎◌, inl, inr, true, false, ◌||◌, Option, none, some, arith, Bool-cases, Text,
  codes, text_eq, text_eq_refl, not, ◌&&◌, Bool, if◌then◌else◌,
}

write_token_file_holds :
    (d : Disk) (path value expires : Text) (o : Outcome)
    → (write_token_file d path value expires o).ok ≡ true
    → (write_token_file d path value expires o).disk path ≡ some (token_lines value expires)
unfolding write_token_file
write_token_file_holds d path value expires o well =
    let atomic =
      replace_in_directory-IsAtomic d (tmp_path path) path (token_lines value expires) o path
        (staged_ne path (codes ".tmp") (λ e. cc)) in
    ground (arith, atomic, text_eq_refl path)

write_token_file_ok :
    (d : Disk) (path value expires : Text) (o : Outcome)
    → (write_token_file d path value expires o).ok ≡ succeeds o
unfolding write_token_file
write_token_file_ok d path value expires o =
    replace_in_directory-ok d (tmp_path path) path (token_lines value expires) o

write_token_file_elsewhere :
    (d : Disk) (path value expires : Text) (o : Outcome) (q : Text)
    → text_eq path q ≡ false
    → text_eq (tmp_path path) q ≡ false
    → (write_token_file d path value expires o).disk q ≡ d q
unfolding write_token_file
write_token_file_elsewhere d path value expires o q other unstaged =
    let atomic =
      replace_in_directory-IsAtomic d (tmp_path path) path (token_lines value expires) o q
        unstaged in
    ground (arith, atomic)

module _ (doc : Doctor) {W : Type 0} (send : Transport W) where
  -- The daemon answered with a pair of tokens that are not empty, and both files can be written.
  abbrev pub is_renewable : Refreshed → Bool
  is_renewable (refresh_error e) = false
  is_renewable (renewed t) =
      not (is_nil t.access_token || is_nil t.refresh_token)
      && (succeeds doc.access_save && succeeds doc.refresh_save)

  -- The renewal failed, or the daemon answered with this pair, both files hold it, and its access
  -- token is the result.
  abbrev pub IsSettled : Refreshed → State W × Option Text → Type 0
  IsSettled answer r =
      ((is_renewable answer ≡ false)
        × ((r.1 ≡ none) × ((f : Component) × (r.0.renewal ≡ renewal_failed f))))
      ⊎ ((t : TokenResponse) × ((answer ≡ renewed t)
            × ((is_renewable answer ≡ true)
                × ((r.1 ≡ some t.access_token)
                    × ((r.0.renewal ≡ done)
                        × ((r.0.disk (path_of doc access)
                              ≡ some (token_lines t.access_token t.access_expires))
                            × (r.0.disk (path_of doc refresh)
                                ≡ some (token_lines t.refresh_token t.refresh_expires))))))))

  otherwise :
      (b : Bool) (answer : Refreshed) (x y : State W × Option Text)
      → b ≡ false
      → IsSettled answer y
      → IsSettled answer (if b then x else y)
  otherwise true answer x y e settled = absurd (ground (arith, e))
  otherwise false answer x y e settled = settled

  module _ (other : text_eq (path_of doc refresh) (path_of doc access) ≡ false)
      (unstaged : text_eq (tmp_path (path_of doc refresh)) (path_of doc access) ≡ false) where
    save_pair-IsSettled :
        (s : State W) (t : TokenResponse)
        → (is_nil t.access_token || is_nil t.refresh_token) ≡ false
        → IsSettled (renewed t) (save_pair doc send s t)
    save_pair-IsSettled s t whole = by_first (Bool-cases first.ok) (Bool-cases second.ok)
      where
        first : Saved
        first =
            write_token_file s.disk (path_of doc access) t.access_token t.access_expires
              doc.access_save

        second : Saved
        second =
            write_token_file first.disk (path_of doc refresh) t.refresh_token t.refresh_expires
              doc.refresh_save

        first_ok : first.ok ≡ succeeds doc.access_save
        first_ok =
            write_token_file_ok s.disk (path_of doc access) t.access_token t.access_expires
              doc.access_save

        second_ok : second.ok ≡ succeeds doc.refresh_save
        second_ok =
            write_token_file_ok first.disk (path_of doc refresh) t.refresh_token t.refresh_expires
              doc.refresh_save

        by_first :
            (first.ok ≡ true) ⊎ (first.ok ≡ false)
            → (second.ok ≡ true) ⊎ (second.ok ≡ false)
            → IsSettled (renewed t) (pair_saved doc send s t first second)
        by_first (inr e) b = rw e (inl (ground (arith, whole, first_ok, e), (refl, (_, refl))))
        by_first (inl e) (inr e') =
            rw (e, e') (inl (ground (arith, whole, second_ok, e'), (refl, (_, refl))))
        by_first (inl e) (inl e') =
            rw (e, e')
              (inr (
                t,
                (
                  refl,
                  (
                    ground (arith, whole, first_ok, second_ok, e, e'),
                    (
                      refl,
                      (
                        refl,
                        (
                          write_token_file_elsewhere first.disk (path_of doc refresh)
                                t.refresh_token t.refresh_expires doc.refresh_save
                                (path_of doc access) other unstaged
                              ∙ write_token_file_holds s.disk (path_of doc access) t.access_token
                                  t.access_expires doc.access_save e,
                          write_token_file_holds first.disk (path_of doc refresh) t.refresh_token
                              t.refresh_expires doc.refresh_save e',
                        ),
                      ),
                    ),
                  ),
                ),
              ))

    settle-IsSettled :
        (s : State W) (answer : Refreshed) → IsSettled answer (settle doc send s answer)
    settle-IsSettled s (refresh_error e) = inl (refl, (refl, (_, refl)))
    settle-IsSettled s (renewed t) =
        by_whole (Bool-cases (is_nil t.access_token || is_nil t.refresh_token))
      where
        by_whole :
            ((is_nil t.access_token || is_nil t.refresh_token) ≡ true)
              ⊎ ((is_nil t.access_token || is_nil t.refresh_token) ≡ false)
            → IsSettled (renewed t) (settle doc send s (renewed t))
        by_whole (inl e) = rw e (inl (ground (arith, e), (refl, (_, refl))))
        by_whole (inr e) =
            otherwise (is_nil t.access_token || is_nil t.refresh_token) (renewed t) _ _ e
              (save_pair-IsSettled s t e)

    -- If the daemon answers with a pair of tokens that are not empty and every step of the two writes
    -- works, the renewal is done: both tokens are in their files and the access token is the
    -- result. Otherwise it fails, is recorded as such and yields no token. This is for a refresh
    -- token file that, with its staged copy, is not the access token's.
    pub renew_access_token-IsSettled :
        (s : State W) (token : Text)
        → IsSettled
            (read_refresh doc.json (send s.world (refresh_request doc.version doc.uid token)).1)
            (renew_access_token doc send s token)
    unfolding renew_access_token
    renew_access_token-IsSettled s token =
        let (w, sent) = send s.world (refresh_request doc.version doc.uid token) in
        settle-IsSettled (record s { world = w }) (read_refresh doc.json sent)

-- ===== src/Update/Replacing.antt =====
-- What `performUpdate` in cmd/update.go leaves of the installed binary, whatever fails.
use std.Path.{subst}
use op_forward.Go.Strings.{trim_prefix}
use op_forward.Files.{Disk, Saved, Outcome, written, replace}
use op_forward.Files.Atomic.{IsAtomic, replace-IsAtomic, staged_ne}
use op_forward.Update.Download.{Attempt, done, failed, Release, UpdateError}
use op_forward.Update.{
  Updating, Updated, stop, fetch_latest_release, download_release_binary, replace_binary_at,
  restarted_after, install_at, install_binary, update_to, perform_update, restart_daemon,
}
use op_forward.Update.Signalled.{IsSignalled, restart_daemon_iff}
use op_forward.Prelude.{
  ℕ, ◌≡◌, refl, sym, ap, ◌∙◌, ◌↔◌, ◌⊎◌, inl, inr, Bool, true, false, none, some, ◌++◌, arith,
  if◌then◌else◌, Text, codes, text_eq, text_eq_refl,
}

abbrev pub latest_of : Release → Text
latest_of release = trim_prefix (codes "v") release.tag_name

-- The release that the network answers with is of another version and has this binary.
abbrev pub IsOffered : Updating → Text → Type 0
IsOffered u binary =
    (release : Release) × ((fetch_latest_release u ≡ done release)
      × ((text_eq (latest_of release) u.version ≡ false)
          × (download_release_binary u release (latest_of release) ≡ done binary)))

abbrev pub IsLatest : Updating → Type 0
IsLatest u =
    (release : Release) × ((fetch_latest_release u ≡ done release)
      × (text_eq (latest_of release) u.version ≡ true))

-- No other file but the staged one changes, the binary is the old one or `binary`, and it is the
-- latter once a daemon was signalled or no error is reported.
abbrev pub Leaves : Disk → Text → Text → Updated → Type 0
Leaves d path binary r =
    ((q : Text)
      → text_eq (path ++ codes ".update") q ≡ false
      → text_eq path q ≡ false
      → r.disk q ≡ d q)
    × (((r.disk path ≡ d path) ⊎ (r.disk path ≡ some binary))
        × ((r.restarted ≡ true → r.disk path ≡ some binary)
            × (r.error ≡ none → r.disk path ≡ some binary)))

restarted_after-saved :
    (u : Updating) (timeout : ℕ) (path : Text) (saved : Saved)
    → let r = restarted_after u timeout path saved in
      (r.disk ≡ saved.disk)
      × ((r.restarted ≡ true → saved.ok ≡ true) × (r.error ≡ none → saved.ok ≡ true))
unfolding restarted_after
restarted_after-saved u timeout path saved = ground arith

IsAtomic-Leaves :
    (u : Updating) (timeout : ℕ) (d : Disk) (path binary : Text) (saved : Saved)
    → IsAtomic d (path ++ codes ".update") path binary saved
    → Leaves d path binary (restarted_after u timeout path saved)
IsAtomic-Leaves u timeout d path binary saved atomic =
    let (kept, (on_restart, on_success)) = restarted_after-saved u timeout path saved in
    let apart = staged_ne path (codes ".update") (λ e. ground arith) in
    let at_path = atomic path apart in
    let same = text_eq_refl path in
    rw kept (
      (λ q not_staged other. ground (arith, atomic q not_staged)),
      (ground arith, (ground arith, ground arith)),
    )

install_at-Leaves :
    (u : Updating) (timeout : ℕ) (d : Disk) (path binary : Text)
    → Leaves d path binary (install_at u timeout d binary (some path))
unfolding install_at replace_binary_at
install_at-Leaves u timeout d path binary =
    IsAtomic-Leaves u timeout d path binary (replace_binary_at d path binary u.outcome)
      (replace-IsAtomic d (path ++ codes ".update") path binary u.outcome)

abbrev pub IsInstalled : Updating → Text → Updated → Type 0
IsInstalled u path r = (binary : Text) × (IsOffered u binary × (r.disk path ≡ some binary))

abbrev pub IsWhole : Updating → Disk → Text → Updated → Type 0
IsWhole u d path r =
    ((q : Text)
      → text_eq (path ++ codes ".update") q ≡ false
      → text_eq path q ≡ false
      → r.disk q ≡ d q)
    × (((r.disk path ≡ d path) ⊎ IsInstalled u path r)
        × ((r.restarted ≡ true → IsInstalled u path r)
            × (r.error ≡ none → IsLatest u ⊎ IsInstalled u path r)))

stop-IsWhole :
    (u : Updating) (d : Disk) (path : Text) (e : UpdateError) → IsWhole u d path (stop d e)
stop-IsWhole u d path e =
    ((λ q not_staged other. refl), (inl refl, ((λ h. ground arith), (λ h. ground arith))))

Leaves-IsWhole :
    (u : Updating) (d : Disk) (path binary : Text) (r : Updated)
    → IsOffered u binary
    → Leaves d path binary r
    → IsWhole u d path r
Leaves-IsWhole u d path binary r offered (others, (either, (on_restart, on_success))) = (
  others,
  (
    elim either [ inl old ↦ inl old | inr new ↦ inr (binary, (offered, new)) ],
    ((λ h. (binary, (offered, on_restart h))), (λ h. inr (binary, (offered, on_success h)))),
  ),
)

install_binary-IsWhole :
    (u : Updating) (timeout : ℕ) (d : Disk) (path : Text) (release : Release) (x : Attempt Text)
    → u.executable ≡ some path
    → fetch_latest_release u ≡ done release
    → text_eq (latest_of release) u.version ≡ false
    → download_release_binary u release (latest_of release) ≡ x
    → IsWhole u d path (install_binary u timeout d x)
unfolding install_binary
install_binary-IsWhole u timeout d path release (failed e) at fetched other offers =
    stop-IsWhole u d path e
install_binary-IsWhole u timeout d path release (done binary) at fetched other offers =
    let offered : IsOffered u binary = (release, (fetched, (other, offers))) in
    Leaves-IsWhole u d path binary (install_at u timeout d binary u.executable) offered (
      subst (λ x. Leaves d path binary (install_at u timeout d binary x)) (sym at)
        (install_at-Leaves u timeout d path binary))

update_to-IsWhole :
    (u : Updating) (timeout : ℕ) (d : Disk) (path : Text) (release : Release)
    → u.executable ≡ some path
    → fetch_latest_release u ≡ done release
    → IsWhole u d path (update_to u timeout d (done release))
unfolding update_to
update_to-IsWhole u timeout d path release at fetched =
    by_version (text_eq (latest_of release) u.version) refl
  where
    by_version :
        (b : Bool)
        → text_eq (latest_of release) u.version ≡ b
        → IsWhole u d path (update_to u timeout d (done release))
    by_version true same = rw same (
      (λ q not_staged other. refl),
      (inl refl, ((λ h. ground arith), (λ h. inl (release, (fetched, same))))),
    )
    by_version false other =
        rw other (install_binary-IsWhole u timeout d path release _ at fetched other refl)

-- Whatever fails in `performUpdate`, no file other than the installed binary and the staged one
-- next to it changes. The installed binary is the old one or the complete binary that the latest
-- release offers, and only where that release is of another version. It is the new one whenever a
-- daemon was signalled to restart; and if no error is reported, then the release is of this
-- version, or the new binary is in place.
pub perform_update-IsWhole :
    (u : Updating) (timeout : ℕ) (d : Disk) (path : Text)
    → u.executable ≡ some path
    → IsWhole u d path (perform_update u timeout d)
unfolding perform_update update_to
perform_update-IsWhole u timeout d path at = by_release (fetch_latest_release u) refl
  where
    by_release :
        (x : Attempt Release)
        → fetch_latest_release u ≡ x
        → IsWhole u d path (update_to u timeout d x)
    by_release (failed e) fetched = stop-IsWhole u d path e
    by_release (done release) fetched = update_to-IsWhole u timeout d path release at fetched

replace_binary_at_written :
    (d : Disk) (path binary : Text) (o : Outcome)
    → o.write ≡ written
    → o.rename_ok ≡ true
    → ((replace_binary_at d path binary o).ok ≡ true)
      × ((replace_binary_at d path binary o).disk path ≡ some binary)
unfolding replace_binary_at replace
replace_binary_at_written d path binary o writes renames =
    let same = text_eq_refl path in
    (ground (arith, writes, renames), ground (arith, writes, renames))

restarted_after_ok :
    (u : Updating) (timeout : ℕ) (path : Text) (saved : Saved)
    → saved.ok ≡ true
    → (restarted_after u timeout path saved).restarted ≡ restart_daemon u path
unfolding restarted_after
restarted_after_ok u timeout path saved well = ground (arith, well)

-- When the latest release is of another version and has a binary for this platform, and the staged
-- file can be written and renamed, `performUpdate` ends with that binary in place. It has then
-- signalled the daemon exactly if pgrep finds processes that serve with the binary's path, the
-- first line of its output is the number of one, which is neither zero nor this process, and the
-- signal could be sent.
pub perform_update_installs :
    (u : Updating) (timeout : ℕ) (d : Disk) (path binary : Text) (release : Release)
    → u.executable ≡ some path
    → fetch_latest_release u ≡ done release
    → text_eq (latest_of release) u.version ≡ false
    → download_release_binary u release (latest_of release) ≡ done binary
    → u.outcome.write ≡ written
    → u.outcome.rename_ok ≡ true
    → ((perform_update u timeout d).disk path ≡ some binary)
      × (((perform_update u timeout d).restarted ≡ true) ↔ IsSignalled u path)
unfolding perform_update update_to install_binary install_at
perform_update_installs u timeout d path binary release at fetched other offers writes renames =
    let saved = replace_binary_at d path binary u.outcome in
    let (well, there) = replace_binary_at_written d path binary u.outcome writes renames in
    let (kept, rest) = restarted_after-saved u timeout path saved in
    let reached : perform_update u timeout d ≡ restarted_after u timeout path saved =
      ap (update_to u timeout d) fetched
      ∙ ap
          (λ same.
            if same
            then record { disk = d; error = none; restarted = false }
            else install_binary u timeout d (download_release_binary u release (latest_of release)))
          other
      ∙ ap (install_binary u timeout d) offers
      ∙ ap (install_at u timeout d binary) at in
    let same = ap (λ r. r.restarted) reached ∙ restarted_after_ok u timeout path saved well in
    let (there', back) = restart_daemon_iff u path in
    (
      ap (λ r. r.disk path) reached ∙ ap (λ after. after path) kept ∙ there,
      (λ h. there' (sym same ∙ h), λ h. same ∙ back h),
    )

-- ===== src/Proxy/Tokens/Reading.antt =====
-- What the proxy reads is what the daemon saved.
use op_forward.Files.{Disk, Outcome}
use op_forward.Files.Atomic.{IsAtomic, replace_in_directory-IsAtomic, staged_ne}
use op_forward.Auth.Token.{Token, second}
use op_forward.Auth.Token.Hex.{IsSolid}
use op_forward.Auth.Store.{Rfc3339, token_lines, tmp_path, save_to_path}
use op_forward.Auth.Store.RoundTrip.{IsRfc3339, lines_of_solid, save_to_path_holds}
use op_forward.Proxy.Tokens.{read_token, write_token_file}
use op_forward.Prelude.{
  ℕ, ◌*◌, ◌/◌, ◌≤◌, ◌≡◌, ◌≢◌, true, some, [], arith, ltb, Text, codes, text_eq_refl,
}

pub write_token_file-IsAtomic :
    (d : Disk) (path value expires : Text) (o : Outcome)
    → IsAtomic d
        (tmp_path path)
        path
        (token_lines value expires)
        (write_token_file d path value expires o)
unfolding write_token_file
write_token_file-IsAtomic d path value expires o =
    replace_in_directory-IsAtomic d (tmp_path path) path (token_lines value expires) o

module _ (time : Rfc3339) (last : ℕ) (laws : IsRfc3339 time last) where
  read_token_of_lines :
      (d : Disk) (path : Text) (t : Token) (now : ℕ)
      → t.value ≢ []
      → IsSolid t.value
      → t.expires ≤ last
      → d path ≡ some (token_lines t.value (time.format t.expires))
      → read_token time d now path ≡ (t.value, ltb now (t.expires / second * second))
  unfolding read_token
  read_token_of_lines d path t now hv kv fits e = rw e (
      rw
        (lines_of_solid t.value (time.format t.expires) hv kv (laws.format-ne-nil t.expires)
          (laws.format-IsSolid t.expires))
        (rw (laws.parse-format t.expires fits)))

  -- A token that the daemon saved without error is read by the proxy with the same value, and as
  -- unexpired exactly before its last whole second: the two programs agree on the file format.
  pub read_token-save :
      (d : Disk) (path : Text) (t : Token) (o : Outcome) (now : ℕ)
      → t.value ≢ []
      → IsSolid t.value
      → t.expires ≤ last
      → (save_to_path time d t path o).ok ≡ true
      → read_token time (save_to_path time d t path o).disk now path
        ≡ (t.value, ltb now (t.expires / second * second))
  read_token-save d path t o now hv kv fits ok =
      read_token_of_lines _ path t now hv kv fits (save_to_path_holds time d t path o ok)

  pub write_token_file_holds :
      (d : Disk) (path value expires : Text) (o : Outcome)
      → (write_token_file d path value expires o).ok ≡ true
      → (write_token_file d path value expires o).disk path ≡ some (token_lines value expires)
  write_token_file_holds d path value expires o ok = ground (
    arith,
    write_token_file-IsAtomic d path value expires o path (staged_ne path (codes ".tmp") (λ e. cc)),
    text_eq_refl path,
  )

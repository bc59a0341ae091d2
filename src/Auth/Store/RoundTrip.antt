-- ===== src/Auth/Store/RoundTrip.antt =====
-- Reading a token file back.
use op_forward.Go.Strings.{is_space, trim_left, trim_right, trim_space, split_n}
use op_forward.Go.Strings.Laws.{Lacks, cut-append}
use op_forward.Files.{Disk, Outcome}
use op_forward.Files.Atomic.{IsAtomic, replace_in_directory-IsAtomic, staged_ne}
use op_forward.Prelude.{
  ℕ, ◌*◌, ◌/◌, ◌≤◌, ◌≡◌, refl, ◌≢◌, true, some, [], ◌∷◌, ◌++◌, arith, Text, codes, text_eq_refl,
}
use op_forward.Auth.Token.{Token, second}
use op_forward.Auth.Token.Hex.{IsSolid}
use op_forward.Auth.Store.{Rfc3339, token_lines, save_to_path, load_from_path, tmp_path}
use op_forward.Prelude.{
  ℕ, ◌*◌, ◌/◌, ◌≤◌, ◌≡◌, refl, ◌≢◌, true, some, [], ◌∷◌, ◌++◌, arith, Text, codes, text_eq_refl,
}

-- What the code relies on of the time format: up to some instant (the year 9999) a formatted
-- instant is read back without its fraction of a second, and the text has no spaces and no line
-- ends and is not empty.
pub record IsRfc3339 (time : Rfc3339) (last : ℕ) : Type 0 where
  pub parse-format : (t : ℕ) → t ≤ last → time.parse (time.format t) ≡ some (t / second * second)
  pub format-IsSolid : (t : ℕ) → IsSolid (time.format t)
  pub format-ne-nil : (t : ℕ) → time.format t ≢ []

trim_left_of_solid : (s t : Text) → s ≢ [] → IsSolid s → trim_left (s ++ t) ≡ s ++ t
unfolding trim_left
trim_left_of_solid [] t h k = absurd (h refl)
trim_left_of_solid (c ∷ s) t h (k, ks) = rw k

abbrev newline : Text
newline = codes "\n"

-- A solid text before the line end is all that stays of it.
trim_right_of_solid : (s : Text) → s ≢ [] → IsSolid s → trim_right (s ++ newline) ≡ s
unfolding trim_right
trim_right_of_solid [] h k = absurd (h refl)
trim_right_of_solid (c ∷ []) h (k, ks) = rw k
trim_right_of_solid (c ∷ d ∷ s) h (k, ks) = ground (arith, trim_right_of_solid (d ∷ s) (λ e. cc) ks)

-- So it is behind any text.
trim_right-append :
    (s t : Text)
    → t ≢ []
    → trim_right (t ++ newline) ≡ t
    → trim_right (s ++ (t ++ newline)) ≡ s ++ t
unfolding trim_right
trim_right-append [] t h k = k
trim_right-append (c ∷ []) [] h k = absurd (h refl)
trim_right-append (c ∷ []) (d ∷ t) h k = ground (arith, k)
trim_right-append (c ∷ d ∷ s) t h k = ground (arith, trim_right-append (d ∷ s) t h k)

trim_space-token_lines :
    (value expires : Text)
    → value ≢ []
    → IsSolid value
    → expires ≢ []
    → IsSolid expires
    → trim_space (token_lines value expires) ≡ value ++ (newline ++ expires)
unfolding trim_space token_lines
trim_space-token_lines value expires hv kv he ke = rw (trim_left_of_solid value _ hv kv) (
    trim_right-append value (10 ∷ expires) (λ e. cc)
      (trim_right-append newline expires he (trim_right_of_solid expires he ke)))

pub IsSolid-Lacks : (s : Text) → IsSolid s → Lacks 10 s
unfolding is_space
IsSolid-Lacks [] h = tt
IsSolid-Lacks (c ∷ s) (h, hs) = (ground arith, IsSolid-Lacks s hs)

-- The token as it is known from its file: whole seconds, and no TTL.
abbrev pub stored : Token → Token
stored t = record { value = t.value; expires = t.expires / second * second; ttl = 0 }

pub lines_of_solid :
    (value expires : Text)
    → value ≢ []
    → IsSolid value
    → expires ≢ []
    → IsSolid expires
    → split_n (codes "\n") 2 (trim_space (token_lines value expires)) ≡ value ∷ expires ∷ []
unfolding split_n
lines_of_solid value expires hv kv he ke =
    rw (trim_space-token_lines value expires hv kv he ke)
      (rw (cut-append 10 [] value expires (IsSolid-Lacks value kv), split_n) refl)

-- A save replaces the file as a whole or leaves it, and touches nothing else but its staged file.
pub save_to_path-IsAtomic :
    (time : Rfc3339) (d : Disk) (t : Token) (path : Text) (o : Outcome)
    → IsAtomic d
        (tmp_path path)
        path
        (token_lines t.value (time.format t.expires))
        (save_to_path time d t path o)
unfolding save_to_path
save_to_path-IsAtomic time d t path o =
    replace_in_directory-IsAtomic d (tmp_path path) path
      (token_lines t.value (time.format t.expires)) o

pub save_to_path_holds :
    (time : Rfc3339) (d : Disk) (t : Token) (path : Text) (o : Outcome)
    → (save_to_path time d t path o).ok ≡ true
    → (save_to_path time d t path o).disk path ≡ some (token_lines t.value (time.format t.expires))
save_to_path_holds time d t path o e = ground (
  arith,
  save_to_path-IsAtomic time d t path o path (staged_ne path (codes ".tmp") (λ e. cc)),
  text_eq_refl path,
)

module _ (time : Rfc3339) (last : ℕ) (laws : IsRfc3339 time last) where
  -- A file that holds the lines of a token is read as that token.
  pub load_from_path_of_lines :
      (d : Disk) (path : Text) (t : Token)
      → t.value ≢ []
      → IsSolid t.value
      → t.expires ≤ last
      → d path ≡ some (token_lines t.value (time.format t.expires))
      → load_from_path time d path ≡ some (stored t)
  unfolding load_from_path
  load_from_path_of_lines d path t hv kv fits e = rw e (
      rw
        (lines_of_solid t.value (time.format t.expires) hv kv (laws.format-ne-nil t.expires)
          (laws.format-IsSolid t.expires))
        (rw (laws.parse-format t.expires fits)))

  -- After a save that reports no error the token is loaded again, its expiry cut to whole seconds,
  -- for a value without spaces and an expiry that the time format covers.
  pub load-save :
      (d : Disk) (path : Text) (t : Token) (o : Outcome)
      → t.value ≢ []
      → IsSolid t.value
      → t.expires ≤ last
      → (save_to_path time d t path o).ok ≡ true
      → load_from_path time (save_to_path time d t path o).disk path ≡ some (stored t)
  load-save d path t o hv kv fits e =
      load_from_path_of_lines _ path t hv kv fits (save_to_path_holds time d t path o e)

-- ===== src/Install/Stamped.antt =====
-- The version stamp of an installed shim.
use op_forward.Go.Strings.{
  cut_prefix, split, replace_all, replace_from, has_prefix, contains, is_space,
}
use op_forward.Go.Strings.Laws.{Lacks, cut_prefix-append}
use op_forward.Go.Strings.Replacing.{
  replace_all_of_Lacks, replace_all-append, split-append, trim_space_of_IsSolid,
}
use op_forward.Auth.Token.Hex.{IsSolid}
use op_forward.OpCheck.Locate.{shim_signature}
use op_forward.Install.{
  shim_head, shim_script, version_mark, real_op_mark, op_forward_mark, before_op_forward,
  shim_template, is_stamp_char, stamp_rune, shim_version_stamp, render_shim, shim_version_prefix,
  parse_lines, parse_shim_version,
}
use op_forward.Prelude.{
  ℕ, ◌≡◌, refl, sym, ap, ◌∙◌, ◌≢◌, inl, inr, true, false, some, List, [], ◌∷◌, ◌++◌, append_assoc,
  arith, Bool-cases, Text, codes, All, All-append,
}

-- The characters that a stamp can have: none of them ends a line or a comment.
abbrev pub IsStampChar : ℕ → Type 0
IsStampChar c = is_stamp_char c ≡ true

stamp_rune-IsStampChar : (c : ℕ) → IsStampChar (stamp_rune c)
stamp_rune-IsStampChar c = elim (Bool-cases (is_stamp_char c)) [
  | inl e ↦ rw e e
  | inr e ↦ rw e refl
]

pub shim_version_stamp-IsStampChar : (v : Text) → All IsStampChar (shim_version_stamp v)
unfolding shim_version_stamp
shim_version_stamp-IsStampChar [] = tt
shim_version_stamp-IsStampChar (c ∷ v) =
    (stamp_rune-IsStampChar c, shim_version_stamp-IsStampChar v)

stamp_same : (v : Text) → All IsStampChar v → shim_version_stamp v ≡ v
unfolding shim_version_stamp
stamp_same [] h = refl
stamp_same (c ∷ v) (h, k) = rw (h, stamp_same v k)

stamp-Lacks : (b : ℕ) → is_stamp_char b ≡ false → (s : Text) → All IsStampChar s → Lacks b s
stamp-Lacks b h [] k = tt
stamp-Lacks b h (c ∷ s) (e, k) = (λ same. ground (arith, h, e, same), stamp-Lacks b h s k)

stamp_char_no_space : (c : ℕ) → IsStampChar c → is_space c ≡ false
unfolding is_space
stamp_char_no_space c h = ground (arith, h)

stamp-IsSolid : (s : Text) → All IsStampChar s → IsSolid s
stamp-IsSolid [] h = tt
stamp-IsSolid (c ∷ s) (h, k) = (stamp_char_no_space c h, stamp-IsSolid s k)

head-Lacks : Lacks b'{' shim_head
unfolding shim_head
head-Lacks = omega arith

-- A placeholder that starts otherwise, and a line end, are passed.
skip_version_mark :
    (new t : Text)
    → replace_all op_forward_mark new (version_mark ++ t)
      ≡ version_mark ++ replace_all op_forward_mark new t
unfolding replace_all replace_from has_prefix cut_prefix
skip_version_mark new t = refl

skip_newline :
    (old new t : Text)
    → replace_all (b'{' ∷ old) new (b'\n' ∷ t) ≡ b'\n' ∷ replace_all (b'{' ∷ old) new t
unfolding replace_all replace_from has_prefix cut_prefix
skip_newline old new t = refl

abbrev after_version : Text
after_version =
    codes "\nREAL_OP=\""
    ++ (real_op_mark ++ (before_op_forward ++ (op_forward_mark ++ shim_script)))

-- Whatever the paths are, the first lines of a shim are those of the template with the stamp.
pub render_shim_head :
    (version bin real : Text)
    → (rest : Text) × (render_shim version bin real
        ≡ shim_head ++ (shim_version_stamp version ++ b'\n' ∷ rest))
unfolding render_shim
render_shim_head version bin real = (
  replace_all real_op_mark real
      (replace_all version_mark stamp (replace_all op_forward_mark bin after_version)),
  ap (λ t. replace_all real_op_mark real (replace_all version_mark stamp t)) first
      ∙ (ap (replace_all real_op_mark real) second ∙ third),
)
  where
    stamp : Text
    stamp = shim_version_stamp version

    r1 : Text
    r1 = replace_all op_forward_mark bin after_version

    first :
        replace_all op_forward_mark bin shim_template
        ≡ shim_head ++ (version_mark ++ b'\n' ∷ replace_all op_forward_mark bin after_version)
    first =
        replace_all_of_Lacks b'{' (codes "{OP_FORWARD_BIN}}") bin shim_head
          (version_mark ++ b'\n' ∷ after_version) head-Lacks
        ∙ ap (λ t. shim_head ++ t)
            (skip_version_mark bin (b'\n' ∷ after_version)
              ∙ ap (λ t. version_mark ++ t)
                  (skip_newline (codes "{OP_FORWARD_BIN}}") bin after_version))

    second :
        replace_all version_mark stamp
          (shim_head ++ (version_mark ++ b'\n' ∷ replace_all op_forward_mark bin after_version))
        ≡ shim_head
          ++ (stamp
              ++ b'\n'
                ∷ replace_all version_mark stamp (replace_all op_forward_mark bin after_version))
    second =
        replace_all_of_Lacks b'{' (codes "{VERSION}}") stamp shim_head (version_mark ++ b'\n' ∷ r1)
          head-Lacks
        ∙ ap (λ t. shim_head ++ t)
            (replace_all-append b'{' (codes "{VERSION}}") stamp (b'\n' ∷ r1)
              ∙ ap (λ t. stamp ++ t) (skip_newline (codes "{VERSION}}") stamp r1))

    third :
        replace_all real_op_mark real (
          shim_head
          ++ (stamp
              ++ b'\n'
                ∷ replace_all version_mark stamp (replace_all op_forward_mark bin after_version)))
        ≡ shim_head
          ++ (stamp
              ++ b'\n'
                ∷ replace_all real_op_mark real (
                    replace_all version_mark stamp (replace_all op_forward_mark bin after_version)))
    third =
        replace_all_of_Lacks b'{' (codes "{REAL_OP}}") real shim_head
          (stamp ++ b'\n' ∷ replace_all version_mark stamp r1) head-Lacks
        ∙ ap (λ t. shim_head ++ t)
            (replace_all_of_Lacks b'{' (codes "{REAL_OP}}") real stamp
                (b'\n' ∷ replace_all version_mark stamp r1)
                (stamp-Lacks b'{' refl stamp (shim_version_stamp-IsStampChar version))
              ∙ ap (λ t. stamp ++ t)
                  (skip_newline (codes "{REAL_OP}}") real (replace_all version_mark stamp r1)))

prefix-Lacks : Lacks b'\n' shim_version_prefix
prefix-Lacks = omega arith

parse_marker :
    (stamp : Text) (lines : List Text)
    → IsSolid stamp
    → parse_lines ((shim_version_prefix ++ stamp) ∷ lines) ≡ some stamp
unfolding parse_lines
parse_marker stamp lines h =
    rw (cut_prefix-append shim_version_prefix stamp, parse_lines)
      (ap some (trim_space_of_IsSolid stamp h))

-- The line of the marker.
parse_marked :
    (stamp rest : Text)
    → Lacks b'\n' stamp
    → IsSolid stamp
    → parse_lines (split b'\n' (shim_version_prefix ++ (stamp ++ b'\n' ∷ rest))) ≡ some stamp
parse_marked stamp rest h k =
    ap (λ t. parse_lines (split b'\n' t))
      (sym (append_assoc shim_version_prefix stamp (b'\n' ∷ rest)))
    ∙ (ap parse_lines (
          split-append b'\n' (shim_version_prefix ++ stamp) rest
            (All-append (λ c. c ≢ b'\n') shim_version_prefix stamp prefix-Lacks h))
        ∙ parse_marker stamp (split b'\n' rest) k)

-- The lines before it are comments.
skip_comments :
    (t : Text)
    → parse_shim_version (shim_head ++ t) ≡ parse_lines (split b'\n' (shim_version_prefix ++ t))
unfolding parse_shim_version shim_head parse_lines split cut_prefix has_prefix
skip_comments t = refl

-- The version that an installed shim records is the stamp of the binary that installed it, whatever
-- that version and the two recorded paths are; a stamp has the characters of release versions only,
-- so it ends no line of the script, and it is the version itself where that has no others.
pub parse_shim_version-render_shim :
    (version bin real : Text)
    → (parse_shim_version (render_shim version bin real) ≡ some (shim_version_stamp version))
      × All IsStampChar (shim_version_stamp version)
      × (All IsStampChar version → shim_version_stamp version ≡ version)
parse_shim_version-render_shim version bin real =
    let stamp = shim_version_stamp version in
    let safe = shim_version_stamp-IsStampChar version in
    let (rest, head) = render_shim_head version bin real in
    (
      ap parse_shim_version head
          ∙ (skip_comments (stamp ++ b'\n' ∷ rest)
              ∙ parse_marked stamp rest (stamp-Lacks b'\n' refl stamp safe)
                  (stamp-IsSolid stamp safe)),
      safe,
      stamp_same version,
    )

-- A rendered shim is one that `IsShim` recognises by its text.
contains_signature : (t : Text) → contains shim_signature (shim_head ++ t) ≡ true
unfolding contains shim_head has_prefix cut_prefix
contains_signature t = refl

pub contains-render_shim :
    (version bin real : Text) → contains shim_signature (render_shim version bin real) ≡ true
contains-render_shim version bin real =
    let (rest, head) = render_shim_head version bin real in
    ap (contains shim_signature) head ∙ contains_signature _

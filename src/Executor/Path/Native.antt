-- ===== src/Executor/Path/Native.antt =====
-- Exactly which paths pass `checkWindowsImage`.
use op_forward.Go.Strings.{to_lower, lower_rune}
use op_forward.Executor.Path.{is_separator, name_from, extend, extension_from, check_windows_image}
use op_forward.Prelude.{
  ℕ, ◌≤◌, ◌≡◌, refl, sym, ap, ◌∙◌, ◌≢◌, ◌↔◌, inl, inr, false, none, [], ◌∷◌, ◌++◌, append-nil,
  append_assoc, arith, ◌==◌, if◌then◌else◌, Bool-cases, Text, codes, text_eq, text_eq_iff,
}

-- The text ends in `.exe`, in any mix of upper and lower case.
abbrev pub EndsInExe : Text → Type 0
EndsInExe path = (front back : Text) × (path ≡ front ++ back) × (to_lower back ≡ codes ".exe")

name_from_suffix : (cur s : Text) → (front : Text) × (cur ++ s ≡ front ++ name_from cur s)
unfolding name_from
name_from_suffix cur [] = ([], append-nil cur)
name_from_suffix cur (c ∷ s) = elim (Bool-cases (is_separator c)) [
  | inl sep ↦
      let (front, e) = name_from_suffix [] s in
      (cur ++ c ∷ front, rw sep (ap (λ t. cur ++ c ∷ t) e ∙ sym (append_assoc cur (c ∷ front) _)))
  | inr plain ↦
      let (front, e) = name_from_suffix (cur ++ c ∷ []) s in
      (front, rw plain (sym (append_assoc cur (c ∷ []) s) ∙ e))
]

extension_from_suffix : (cur s : Text) → (front : Text) × (cur ++ s ≡ front ++ extension_from cur s)
unfolding extension_from
extension_from_suffix cur [] = ([], append-nil cur)
extension_from_suffix [] (c ∷ s) = elim (Bool-cases (c == b'.')) [
  | inl dot ↦ let (front, e) = extension_from_suffix (c ∷ []) s in (front, rw dot e)
  | inr plain ↦
      let (front, e) = extension_from_suffix [] s in (c ∷ front, rw plain (ap (λ t. c ∷ t) e))
]
extension_from_suffix (d ∷ cur) (c ∷ s) = elim (Bool-cases (c == b'.')) [
  | inl dot ↦
      let (front, e) = extension_from_suffix (c ∷ []) s in
      (d ∷ cur ++ front, rw dot (ap (λ t. d ∷ cur ++ t) e ∙ sym (append_assoc (d ∷ cur) front _)))
  | inr plain ↦
      let (front, e) = extension_from_suffix (d ∷ cur ++ c ∷ []) s in
      (front, rw plain (sym (append_assoc (d ∷ cur) (c ∷ []) s) ∙ e))
]

check_windows_image_sound : (path : Text) → check_windows_image path ≡ none → EndsInExe path
unfolding check_windows_image
check_windows_image_sound path h =
    let (front, e) = name_from_suffix [] path in
    let (stem, e') = extension_from_suffix [] (name_from [] path) in
    (
      front ++ stem,
      extension_from [] (name_from [] path),
      e ∙ (ap (λ t. front ++ t) e' ∙ sym (append_assoc front stem _)),
      ground (arith, text_eq_iff (to_lower (extension_from [] (name_from [] path))) (codes ".exe")),
    )

-- A dot and three characters that are neither a dot nor a separator.
abbrev IsExtension : ℕ → ℕ → ℕ → ℕ → Type 0
IsExtension a b c d =
    (a ≡ b'.')
    × ((b ≢ b'.') × (is_separator b ≡ false))
    × ((c ≢ b'.') × (is_separator c ≡ false))
    × ((d ≢ b'.') × (is_separator d ≡ false))

lower_rune-dot : (c : ℕ) → lower_rune c ≡ b'.' → c ≡ b'.'
unfolding lower_rune
lower_rune-dot c h = ground arith

lower_rune_plain :
    (c : ℕ) → b'a' ≤ lower_rune c → lower_rune c ≤ b'z' → (c ≢ b'.') × (is_separator c ≡ false)
unfolding lower_rune
lower_rune_plain c h k = ground arith

module _ (a b c d : ℕ) (x : IsExtension a b c d) where
  name_from-append :
      (cur front : Text)
      → (stem : Text) × (name_from cur (front ++ a ∷ b ∷ c ∷ d ∷ []) ≡ stem ++ a ∷ b ∷ c ∷ d ∷ [])
  unfolding name_from
  name_from-append cur [] =
      let plain : is_separator a ≡ false = ground arith in
      (cur, rw (plain, x.1.1, x.2.1, x.3.1) (simp append_assoc))
  name_from-append cur (e ∷ front) =
      name_from-append (if is_separator e then [] else cur ++ e ∷ []) front

  extension_from-append :
      (cur stem : Text) → extension_from cur (stem ++ a ∷ b ∷ c ∷ d ∷ []) ≡ a ∷ b ∷ c ∷ d ∷ []
  unfolding extension_from
  extension_from-append cur [] = ground arith
  extension_from-append cur (e ∷ stem) =
      extension_from-append (if e == b'.' then e ∷ [] else extend cur e) stem

  check_windows_image_of_extension :
      (front : Text)
      → to_lower (a ∷ b ∷ c ∷ d ∷ []) ≡ codes ".exe"
      → check_windows_image (front ++ a ∷ b ∷ c ∷ d ∷ []) ≡ none
  unfolding check_windows_image text_eq
  check_windows_image_of_extension front h =
      let (stem, e) = name_from-append [] front in rw (e, extension_from-append [] stem, h) refl

IsExtension-of_lower :
    (a b c d : ℕ) → to_lower (a ∷ b ∷ c ∷ d ∷ []) ≡ codes ".exe" → IsExtension a b c d
unfolding to_lower
IsExtension-of_lower a b c d h = (
  lower_rune-dot a (cc),
  lower_rune_plain b (ground arith) (ground arith),
  lower_rune_plain c (ground arith) (ground arith),
  lower_rune_plain d (ground arith) (ground arith),
)

check_windows_image_complete :
    (front back : Text) → to_lower back ≡ codes ".exe" → check_windows_image (front ++ back) ≡ none
check_windows_image_complete front (a ∷ b ∷ c ∷ d ∷ []) h =
    check_windows_image_of_extension a b c d (IsExtension-of_lower a b c d h) front h
check_windows_image_complete front _ h = unfold to_lower in cc

-- `checkWindowsImage` accepts a path exactly if it ends in ".exe" in upper or lower case, so a
-- batch file, a name with trailing dots or spaces and a name with no extension are all refused.
pub check_windows_image_iff : (path : Text) → (check_windows_image path ≡ none) ↔ EndsInExe path
check_windows_image_iff path =
    (check_windows_image_sound path, λ x. rw x.2 (check_windows_image_complete x.0 x.1 x.3))

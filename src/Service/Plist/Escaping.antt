-- ===== src/Service/Plist/Escaping.antt =====
-- How XML reads a text that `xmlText` of cmd/service.go has escaped, and the elements around it.
use std.Path.{subst}
use op_forward.Go.Strings.{has_prefix, trim_prefix}
use op_forward.Service.Plist.{in_character_range, escape_rune, xml_text}
use op_forward.Prelude.{
  ℕ, ◌≡◌, refl, sym, ap, ◌∙◌, inl, inr, true, false, Option, none, some, List, [], ◌∷◌, ◌++◌,
  append_assoc, arith, ◌==◌, if◌then◌else◌, ==_iff, Bool-cases, Text, codes, text_eq, All,
}

-- The character that a reference of XML names; none for an unknown one.
unfoldable pub referenced : Text → Text
unfolding text_eq
referenced name =
    if text_eq name (codes "amp")
    then 38 ∷ []
    else if text_eq name (codes "lt")
    then 60 ∷ []
    else if text_eq name (codes "gt")
    then 62 ∷ []
    else if text_eq name (codes "#34")
    then 34 ∷ []
    else if text_eq name (codes "#39")
    then 39 ∷ []
    else if text_eq name (codes "#x9")
    then 9 ∷ []
    else if text_eq name (codes "#xA")
    then 10 ∷ []
    else if text_eq name (codes "#xD")
    then 13 ∷ []
    else []

-- Character data with its references replaced; the state is the part of a reference that is read.
unfoldable pub character_data : Option Text → Text → Text
character_data state [] = []
character_data none (c ∷ s) = elim (c == 38) [
  | true ↦ character_data (some []) s
  | false ↦ c ∷ character_data none s
]
character_data (some name) (c ∷ s) = elim (c == 59) [
  | true ↦ referenced name ++ character_data none s
  | false ↦ character_data (some (name ++ c ∷ [])) s
]

-- The value of what follows a `<`, if that is the start of a string element.
unfoldable pub string_value : Text → List Text
unfolding trim_prefix
string_value s =
    if has_prefix (codes "string>") s
    then character_data none (trim_prefix (codes "string>") s) ∷ []
    else []

-- The text before the first `<`, and the values of the string elements behind it.
unfoldable pub scan : Text → Text × List Text
scan [] = ([], [])
scan (c ∷ s) = elim (c == 60) [
  | true ↦ ([], string_value (scan s).0 ++ (scan s).1)
  | false ↦ (c ∷ (scan s).0, (scan s).1)
]

-- The values of the string elements of a document, in their order.
abbrev pub string_elements : Text → List Text
string_elements s = (scan s).1

abbrev pub IsXmlText : Text → Type 0
IsXmlText = All (λ c. in_character_range c ≡ true)

-- A proof about one escaped character, by the nine ways in which it is written.
module _ {ℓ} (P : ℕ → Text → Type ℓ) where
  at_value : (v c : ℕ) → (c == v) ≡ true → P v (escape_rune v) → P c (escape_rune c)
  at_value v c same p = subst (λ x. P x (escape_rune x)) (sym ((==_iff c v).0 same)) p

  escape_rune_cases :
      P 34 (codes "&#34;")
      → P 39 (codes "&#39;")
      → P 38 (codes "&amp;")
      → P 60 (codes "&lt;")
      → P 62 (codes "&gt;")
      → P 9 (codes "&#x9;")
      → P 10 (codes "&#xA;")
      → P 13 (codes "&#xD;")
      → ((c : ℕ) → (c == 38) ≡ false → (c == 60) ≡ false → P c (c ∷ []))
      → (c : ℕ) → in_character_range c ≡ true
      → P c (escape_rune c)
  unfolding escape_rune
  escape_rune_cases quote single and less more tab line return plain c ok =
      elim (Bool-cases (c == 34)) [
        | inl e ↦ at_value 34 c e quote
        | inr n34 ↦ elim (Bool-cases (c == 39)) [
          | inl e ↦ at_value 39 c e single
          | inr n39 ↦ elim (Bool-cases (c == 38)) [
            | inl e ↦ at_value 38 c e and
            | inr n38 ↦ elim (Bool-cases (c == 60)) [
              | inl e ↦ at_value 60 c e less
              | inr n60 ↦ elim (Bool-cases (c == 62)) [
                | inl e ↦ at_value 62 c e more
                | inr n62 ↦ elim (Bool-cases (c == 9)) [
                  | inl e ↦ at_value 9 c e tab
                  | inr n9 ↦ elim (Bool-cases (c == 10)) [
                    | inl e ↦ at_value 10 c e line
                    | inr n10 ↦ elim (Bool-cases (c == 13)) [
                      | inl e ↦ at_value 13 c e return
                      | inr n13 ↦ rw (n34, n39, n38, n60, n62, n9, n10, n13, ok) (plain c n38 n60)
                    ]
                  ]
                ]
              ]
            ]
          ]
        ]
      ]

escaped_read :
    (c : ℕ)
    → in_character_range c ≡ true
    → (s : Text) → character_data none (escape_rune c ++ s) ≡ c ∷ character_data none s
unfolding character_data referenced text_eq
escaped_read =
    escape_rune_cases (λ c t. (s : Text) → character_data none (t ++ s) ≡ c ∷ character_data none s)
      (λ s. refl) (λ s. refl) (λ s. refl) (λ s. refl) (λ s. refl) (λ s. refl) (λ s. refl)
      (λ s. refl) (λ c n38 n60 s. ground (arith, n38))

escaped_scan :
    (c : ℕ)
    → in_character_range c ≡ true
    → (s : Text) → scan (escape_rune c ++ s) ≡ (escape_rune c ++ (scan s).0, (scan s).1)
unfolding scan
escaped_scan =
    escape_rune_cases (λ c t. (s : Text) → scan (t ++ s) ≡ (t ++ (scan s).0, (scan s).1))
      (λ s. refl) (λ s. refl) (λ s. refl) (λ s. refl) (λ s. refl) (λ s. refl) (λ s. refl)
      (λ s. refl) (λ c n38 n60 s. ground (arith, n60))

-- XML reads an escaped text back.
pub character_data-xml_text : (s : Text) → IsXmlText s → character_data none (xml_text s) ≡ s
unfolding xml_text character_data
character_data-xml_text [] ok = refl
character_data-xml_text (c ∷ s) (here, there) =
    escaped_read c here (xml_text s) ∙ ap (λ t. c ∷ t) (character_data-xml_text s there)

-- An escaped text has no `<`: the scan goes on behind it.
pub scan-xml_text :
    (s t : Text) → IsXmlText s → scan (xml_text s ++ t) ≡ (xml_text s ++ (scan t).0, (scan t).1)
unfolding xml_text
scan-xml_text [] t ok = refl
scan-xml_text (c ∷ s) t (here, there) =
    let rest = scan-xml_text s t there in
    let first = escaped_scan c here (xml_text s ++ t) in
    ap scan (append_assoc (escape_rune c) (xml_text s) t)
    ∙ first
    ∙ rw rest
        (ap (λ x. (x, (scan t).1)) (sym (append_assoc (escape_rune c) (xml_text s) (scan t).0)))

-- ===== src/Go/Flag.antt =====
-- The package `flag`: `FlagSet.Parse` with its errors returned.
pub mod Invariant
use op_forward.Go.Strings.{cut}
use op_forward.Prelude.{
  ℕ, Bool, true, false, ◌||◌, not, Option, none, some, List, [], ◌∷◌, ◌==◌, if◌then◌else◌, Text,
  codes, text_eq,
}

-- The flags of a command, which fill a record: whether a name is a flag, and then whether it is a
-- Boolean one, and what the value does to the record; `none` is an invalid value.
pub record FlagSet {ℓ} (S : Type ℓ) : Type ℓ where
  pub is_bool : Text → Option Bool
  pub set : Text → Text → S → Option S

-- What `Parse` ends with: the record, the names that were set and `Args`, or an error.
pub data Given {ℓ} (S : Type ℓ) : Type ℓ where
  given : S → List Text → List Text → Given S
  err_help err_usage : Given S

-- An argument as `parseOne` reads it: no flag, the end of the flags, or a flag with its value.
pub data Word : Type 0 where
  no_flag end_of_flags bad_syntax : Word
  named : Text → Option Text → Word

abbrev value_of : Text → Option (Text × Text) → Word
value_of name none = named name none
value_of name (some (before, value)) = named before (some value)

abbrev before_equals : ℕ → Option (Text × Text) → Option (Text × Text)
before_equals c none = none
before_equals c (some (before, value)) = some (c ∷ before, value)

-- The name and the value; an equals sign in the first place is an error.
abbrev name_and_value : Text → Word
name_and_value [] = bad_syntax
name_and_value (c ∷ s) =
    if (c == b'-') || (c == b'=')
    then bad_syntax
    else value_of (c ∷ s) (before_equals c (cut (codes "=") s))

abbrev behind_two : Text → Word
behind_two [] = end_of_flags
behind_two (c ∷ s) = name_and_value (c ∷ s)

unfoldable pub word : Text → Word
unfolding cut
word [] = no_flag
word (c ∷ []) = no_flag
word (c ∷ c' ∷ s) =
    if not (c == b'-')
    then no_flag
    else if c' == b'-'
    then behind_two s
    else name_and_value (c' ∷ s)

abbrev undefined : {S : Type 0} → Text → Given S
undefined name =
    if text_eq name (codes "help") || text_eq name (codes "h") then err_help else err_usage

abbrev or_true : Option Text → Text
or_true none = codes "true"
or_true (some value) = value

abbrev pub by_word :
    {S : Type 0} → Given S → Given S → (Text → Option Text → Given S) → Word → Given S
by_word here behind flag no_flag = here
by_word here behind flag end_of_flags = behind
by_word here behind flag bad_syntax = err_usage
by_word here behind flag (named name value) = flag name value

abbrev pub typed : {S : Type 0} → Option S → (S → Given S) → Given S
typed none k = err_usage
typed (some s) k = k s

module _ {S : Type 0} (fs : FlagSet S) where
  -- A flag that is not Boolean takes the next argument if it has no value of its own: `go` goes on
  -- behind the flag, `take` behind the next argument.
  abbrev pub with_flag :
      S → Text → (S → Given S) → (Option (S → Given S) × Text) → Option Text → Option Bool → Given S
  with_flag s name go take value none = undefined name
  with_flag s name go take value (some true) = typed (fs.set name (or_true value) s) go
  with_flag s name go take (some v) (some false) = typed (fs.set name v s) go
  with_flag s name go (none, next) none (some false) = err_usage
  with_flag s name go (some take, next) none (some false) = typed (fs.set name next s) take

  -- `Parse` behind the flags that `seen` lists.
  unfoldable pub parse : S → List Text → List Text → Given S
  unfolding word
  parse s seen [] = given s seen []
  parse s seen (a ∷ []) =
      by_word (given s seen (a ∷ [])) (given s seen [])
        (λ name value.
          with_flag s name (λ s'. given s' (name ∷ seen) []) (none, []) value (fs.is_bool name))
        (word a)
  parse s seen (a ∷ b ∷ rest) =
      by_word (given s seen (a ∷ b ∷ rest)) (given s seen (b ∷ rest))
        (λ name value.
          with_flag s name (λ s'. parse s' (name ∷ seen) (b ∷ rest))
            (some (λ s'. parse s' (name ∷ seen) rest), b) value (fs.is_bool name))
        (word a)

-- Whether `Visit` passes a name.
unfoldable pub was_set : List Text → Text → Bool
unfolding text_eq
was_set [] name = false
was_set (n ∷ seen) name = text_eq n name || was_set seen name

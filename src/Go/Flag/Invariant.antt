-- ===== src/Go/Flag/Invariant.antt =====
-- What every flag that is typed keeps holds behind `Parse`.
use op_forward.Prelude.{
  ◌≡◌, refl, Bool, true, false, ◌||◌, Option, none, some, List, [], ◌∷◌, if◌then◌else◌, Text, codes,
  text_eq,
}
use std.Path.{subst}
use op_forward.Go.Flag.{
  FlagSet, Given, given, err_help, err_usage, Word, no_flag, end_of_flags, bad_syntax, named,
  undefined, or_true, by_word, typed, with_flag, word, parse,
}

module _ {S : Type 0} (fs : FlagSet S) (P : S → List Text → Type 0)
    (keeps : (s s' : S) (seen : List Text) (name value : Text) (b : Bool)
      → fs.is_bool name ≡ some b
      → fs.set name value s ≡ some s'
      → P s seen
      → P s' (name ∷ seen)) where
  -- What is given, if anything is, has the property.
  abbrev Holds : Given S → Type 0
  Holds (given s seen args) = P s seen
  Holds err_help = Unit
  Holds err_usage = Unit

  abbrev Continues : List Text → Option (S → Given S) → Type 0
  Continues seen none = Unit
  Continues seen (some f) = (s : S) → P s seen → Holds (f s)

  undefined-Holds : (name : Text) → Holds (undefined name)
  undefined-Holds name = go (text_eq name (codes "help") || text_eq name (codes "h"))
    where
      go : (b : Bool) → Holds (if b then err_help else err_usage)
      go true = tt
      go false = tt

  by_word-Holds :
      (here behind : Given S) (flag : Text → Option Text → Given S) (w : Word)
      → Holds here
      → Holds behind
      → ((name : Text) (value : Option Text) → Holds (flag name value))
      → Holds (by_word here behind flag w)
  by_word-Holds here behind flag no_flag h k f = h
  by_word-Holds here behind flag end_of_flags h k f = k
  by_word-Holds here behind flag bad_syntax h k f = tt
  by_word-Holds here behind flag (named name value) h k f = f name value

  typed-Holds :
      (o : Option S) (k : S → Given S) → ((s : S) → o ≡ some s → Holds (k s)) → Holds (typed o k)
  typed-Holds none k h = tt
  typed-Holds (some s) k h = h s refl

  with_flag-Holds :
      (s : S) (seen : List Text) (name : Text) (go : S → Given S) (take : Option (S → Given S))
      (next : Text) (value : Option Text) (b : Option Bool)
      → fs.is_bool name ≡ b
      → P s seen
      → ((s' : S) → P s' (name ∷ seen) → Holds (go s'))
      → Continues (name ∷ seen) take
      → Holds (with_flag fs s name go (take, next) value b)
  with_flag-Holds s seen name go take next value none e h k l = undefined-Holds name
  with_flag-Holds s seen name go take next value (some true) e h k l =
      typed-Holds (fs.set name (or_true value) s) go
        (λ s' set. k s' (keeps s s' seen name (or_true value) true e set h))
  with_flag-Holds s seen name go take next (some v) (some false) e h k l =
      typed-Holds (fs.set name v s) go (λ s' set. k s' (keeps s s' seen name v false e set h))
  with_flag-Holds s seen name go none next none (some false) e h k l = tt
  with_flag-Holds s seen name go (some f) next none (some false) e h k l =
      typed-Holds (fs.set name next s) f (λ s' set. l s' (keeps s s' seen name next false e set h))

  parse-Holds : (s : S) (seen args : List Text) → P s seen → Holds (parse fs s seen args)
  unfolding parse
  parse-Holds s seen [] h = h
  parse-Holds s seen (a ∷ []) h =
      by_word-Holds (given s seen (a ∷ [])) (given s seen []) _ (word a) h h λ name value.
        with_flag-Holds s seen name (λ s'. given s' (name ∷ seen) []) none [] value
          (fs.is_bool name) refl h (λ s' h'. h') tt
  parse-Holds s seen (a ∷ b ∷ rest) h =
      by_word-Holds (given s seen (a ∷ b ∷ rest)) (given s seen (b ∷ rest)) _ (word a) h h
        λ name value.
          with_flag-Holds s seen name (λ s'. parse fs s' (name ∷ seen) (b ∷ rest))
            (some (λ s'. parse fs s' (name ∷ seen) rest)) b value (fs.is_bool name) refl h
            (λ s' h'. parse-Holds s' (name ∷ seen) (b ∷ rest) h')
            (λ s' h'. parse-Holds s' (name ∷ seen) rest h')

  -- What holds with no flag typed and is kept by each of them holds of all that is typed.
  pub parse_inv :
      (s s' : S) (args seen rest : List Text)
      → P s []
      → parse fs s [] args ≡ given s' seen rest
      → P s' seen
  parse_inv s s' args seen rest h e = subst Holds e (parse-Holds s [] args h)

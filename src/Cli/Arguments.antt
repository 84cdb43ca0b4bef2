-- ===== src/Cli/Arguments.antt =====
-- parseArgs: what an accepted command line is like.
use crmtsi_app.Common.{
  ◌≡◌, refl, String, Bool, true, false, List, [], ◌∷◌, ◌++◌, Option, none, some, Result, ok, err,
  ◌>>◌, require, Text, text_eq, codes, every, All, arith, Bool-cases, inl, inr,
}
use crmtsi_app.Cli.{
  secret_options, has_text, before_equals, starts_with_dash, is_secret_option, Global, no_options,
  Token, secret, word, help, version, json, yes, deep, unknown, valued, classify, store,
  value_error, is_value, Parsed, loop, parse_args,
}

text_eq-dash :
    (u t : Text) → starts_with_dash u ≡ true → starts_with_dash t ≡ false → text_eq u t ≡ false
unfolding text_eq
text_eq-dash [] t h k = cc
text_eq-dash (c ∷ u) [] h k = refl
text_eq-dash (c ∷ u) (d ∷ t) h k = ground arith

has_text-dash :
    (names : List String) (t : Text)
    → every (λ s. starts_with_dash (codes s)) names ≡ true
    → starts_with_dash t ≡ false
    → has_text names t ≡ false
unfolding has_text
has_text-dash [] t h k = refl
has_text-dash (s ∷ names) t h k = ground (arith, text_eq-dash (codes s) t, has_text-dash names t)

before_equals-dash :
    (t : Text) → starts_with_dash t ≡ false → starts_with_dash (before_equals t) ≡ false
unfolding before_equals
before_equals-dash [] h = refl
before_equals-dash (c ∷ t) h = ground arith

-- A value is no secret option.
is_value-is_secret_option : (v : Text) → is_value v ≡ true → is_secret_option v ≡ false
unfolding is_secret_option
is_value-is_secret_option v h =
    has_text-dash secret_options (before_equals v) refl (before_equals-dash v (ground arith))

-- Not a secret option.
abbrev pub IsPlain : Text → Type 0
IsPlain t = is_secret_option t ≡ false

require-ok :
    {A : Type 0} (b : Bool) (code : String) (r : Result A) (a : A)
    → (require b code >> r) ≡ ok a
    → (b ≡ true) × (r ≡ ok a)
require-ok true code r a h = (refl, h)
require-ok false code r a h = cc

classify-secret : (t : Text) → is_secret_option t ≡ true → classify t ≡ secret
unfolding classify
classify-secret t h = rw h refl

-- What the loop does with a token of a kind.
abbrev next : Global → List Text → Text → List Text → Token → Result Parsed
next g command t tokens secret = err "SECRET_IN_ARGV"
next g command t tokens word = loop g (command ++ t ∷ []) none tokens
next g command t tokens help = loop (record g { help = true }) command none tokens
next g command t tokens version = loop (record g { version = true }) command none tokens
next g command t tokens json = loop (record g { json = true }) command none tokens
next g command t tokens yes = loop (record g { yes = true }) command none tokens
next g command t tokens deep = loop (record g { deep = true }) command none tokens
next g command t tokens unknown = err "UNKNOWN_GLOBAL_OPTION"
next g command t tokens (valued option (some v)) =
    require (is_value v) (value_error option) >> loop (store option v g) command none tokens
next g command t tokens (valued option none) = loop g command (some option) tokens

clash :
    (g : Global) (command : List Text) (t : Text) (tokens : List Text) (p : Parsed) (k : Token)
    → k ≡ secret
    → next g command t tokens k ≡ ok p
    → ⊥
clash g command t tokens p k is_secret h = cc

-- Whatever the kind of a token, the loop goes over the tokens after it.
next-IsPlain :
    (g : Global) (command : List Text) (t : Text) (tokens : List Text) (p : Parsed)
    → ((g' : Global) (command' : List Text) (waiting : Option Text)
        → loop g' command' waiting tokens ≡ ok p
        → All IsPlain tokens)
    → (k : Token) → next g command t tokens k ≡ ok p
    → All IsPlain tokens
next-IsPlain g command t tokens p over secret h = cc
next-IsPlain g command t tokens p over unknown h = cc
next-IsPlain g command t tokens p over (valued option (some v)) h =
    over _ _ _
      (require-ok (is_value v) (value_error option) (loop (store option v g) command none tokens) p
        h).1
next-IsPlain g command t tokens p over (valued option none) h = over _ _ _ h
next-IsPlain g command t tokens p over _ h = over _ _ _ h

loop-IsPlain :
    (g : Global) (command : List Text) (waiting : Option Text) (tokens : List Text) (p : Parsed)
    → loop g command waiting tokens ≡ ok p
    → All IsPlain tokens
unfolding loop
loop-IsPlain g command none [] p e = tt
loop-IsPlain g command (some option) [] p e = tt
loop-IsPlain g command (some option) (v ∷ tokens) p e =
    let (value, rest) =
      require-ok (is_value v) (value_error option) (loop (store option v g) command none tokens) p
        e in
    (is_value-is_secret_option v value, loop-IsPlain (store option v g) command none tokens p rest)
loop-IsPlain g command none (t ∷ tokens) p e = elim (Bool-cases (is_secret_option t)) [
  | inl hit ↦ absurd (clash g command t tokens p (classify t) (classify-secret t hit) e)
  | inr miss ↦ (
    miss,
    next-IsPlain g command t tokens p (λ g' c' w' h. loop-IsPlain g' c' w' tokens p h) (classify t)
        e,
  )
]

-- No accepted command line has a secret option in any place, also not as a value of another option.
pub parse_args-IsPlain : (argv : List Text) (p : Parsed) → parse_args argv ≡ ok p → All IsPlain argv
unfolding parse_args
parse_args-IsPlain argv p e = loop-IsPlain no_options [] none argv p e

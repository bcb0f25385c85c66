-- ===== src/Start/Getopt.antt =====
-- `getopt` with short options, as glibc has it, and the loops over what it returns.
use dicon.Base.{
  ℕ, Option, none, some, List, [], ◌∷◌, ◌++◌, ◌==◌, ◌≡◌, refl, arith, ap, ◌∙◌, if◌then◌else◌, All,
}
use mathlib.Core.Path.{subst}
use dicon.Wire.{Bytes}

-- What a call returns: a letter, a letter with its argument, or '?'.
pub data Opt : Type 0 where
  flag : ℕ → Opt
  valued : ℕ → Bytes → Opt
  unknown : Opt

pub data Kind : Type 0 where
  no_letter plain_letter letter_with_arg : Kind

abbrev kind_before : Bytes → Kind
kind_before [] = plain_letter
kind_before (o ∷ os) = if o == b':' then letter_with_arg else plain_letter

-- What the string of options says of a letter.
unfoldable pub kind_of : (optstring : Bytes) → ℕ → Kind
kind_of [] c = no_letter
kind_of (o ∷ os) c =
    let later = kind_of os c in
    if c == b':' then no_letter else if o == c then kind_before os else later

abbrev with_rest : Opt → List Opt × Option ℕ → List Opt × Option ℕ
with_rest o (opts, pending) = (o ∷ opts, pending)

abbrev argument_of : ℕ → Bytes → List Opt × Option ℕ
argument_of c [] = ([], some c)
argument_of c (d ∷ ds) = (valued c (d ∷ ds) ∷ [], none)

-- The letters of one word: a letter with an argument takes the rest of the word, or the next word.
unfoldable pub letters : (optstring : Bytes) → Bytes → List Opt × Option ℕ
letters optstring [] = ([], none)
letters optstring (c ∷ cs) =
    let rest = letters optstring cs in
    elim (kind_of optstring c) [
      | no_letter ↦ with_rest unknown rest
      | plain_letter ↦ with_rest (flag c) rest
      | letter_with_arg ↦ argument_of c cs
    ]

pub data Word : Type 0 where
  end_mark operand : Word
  cluster : Bytes → Word

abbrev dashed : ℕ → Bytes → Word
dashed d [] = if d == b'-' then end_mark else cluster (d ∷ [])
dashed d (c ∷ cs) = cluster (d ∷ c ∷ cs)

unfoldable pub word_of : Bytes → Word
word_of [] = operand
word_of (c ∷ []) = operand
word_of (c ∷ d ∷ cs) = if c == b'-' then dashed d cs else operand

-- All calls on the words behind the program's name; a letter may wait for its argument. Words that are no
-- options are passed over, and a missing argument is '?'.
unfoldable pub options : (optstring : Bytes) → (pending : Option ℕ) → List Bytes → List Opt
options optstring none [] = []
options optstring (some c) [] = unknown ∷ []
options optstring (some c) (w ∷ ws) = valued c w ∷ options optstring none ws
options optstring none (w ∷ ws) = elim (word_of w) [
  | end_mark ↦ []
  | operand ↦ options optstring none ws
  | cluster cs ↦ let read = letters optstring cs in read.0 ++ options optstring read.1 ws
]

-- What a program does with its arguments: it shows its help and exits, it meets a number for which `atoi`
-- is undefined, or it goes on.
pub data Parsed (A : Type 0) : Type 0 where
  help_and_exit undefined : Parsed A
  go_on : A → Parsed A

abbrev pub and_then : {A B : Type 0} → Parsed A → (A → Parsed B) → Parsed B
and_then help_and_exit f = help_and_exit
and_then undefined f = undefined
and_then (go_on a) f = f a

-- The loop over the options.
unfoldable pub each_option : {A : Type 0} → (Opt → A → Parsed A) → List Opt → A → Parsed A
each_option step [] a = go_on a
each_option step (o ∷ opts) a = and_then (step o a) (λ a'. each_option step opts a')

abbrev value_or : {A : Type 0} → A → Parsed A → A
value_or a help_and_exit = a
value_or a undefined = a
value_or a (go_on b) = b

pub go_on_injective : {A : Type 0} {a b : A} → go_on a ≡ go_on b → a ≡ b
go_on_injective {a} e = ap (value_or a) e

go_on_of_and_then :
    {A : Type 0} (p : Parsed A) {f : A → Parsed A} {b : A}
    → and_then p f ≡ go_on b
    → (a : A) × (p ≡ go_on a) × (f a ≡ go_on b)
go_on_of_and_then help_and_exit e = ground (arith, e)
go_on_of_and_then undefined e = ground (arith, e)
go_on_of_and_then (go_on a) e = (a, refl, e)

abbrev pub IsUnknown : Opt → Type 0
IsUnknown o = o ≡ unknown

-- A program that does nothing for '?' passes over what it does not know.
pub each_option-unknown :
    {A : Type 0} (step : Opt → A → Parsed A) (opts : List Opt) (a : A)
    → ((b : A) → step unknown b ≡ go_on b)
    → All IsUnknown opts
    → each_option step opts a ≡ go_on a
unfolding each_option
each_option-unknown step [] a passes all = refl
each_option-unknown step (o ∷ opts) a passes (is, all) =
    ap (λ p. and_then p (λ a'. each_option step opts a')) (ap (λ x. step x a) is ∙ passes a)
    ∙ each_option-unknown step opts a passes all

-- What every option keeps holds after the loop.
pub each_option-keeps :
    {A : Type 0} (P : A → Type 0) (step : Opt → A → Parsed A) (opts : List Opt) (a b : A)
    → ((o : Opt) (c d : A) → step o c ≡ go_on d → P c → P d)
    → each_option step opts a ≡ go_on b
    → P a
    → P b
unfolding each_option
each_option-keeps P step [] a b keeps is holds = subst P (go_on_injective is) holds
each_option-keeps P step (o ∷ opts) a b keeps is holds =
    let (c, at_first, later) = go_on_of_and_then (step o a) is in
    each_option-keeps P step opts c b keeps later (keeps o a c at_first holds)

-- ===== src/CommandLine/Advance.antt =====
-- Each call of OptionParser::Next() takes an argument, and finds an option with the value it needs.
use mpdscribble.Base.{
  ℕ, zero, suc, ◌+◌, ◌<◌, ◌≤◌, ◌≡◌, refl, Bool, true, false, ◌&&◌, List, [], ◌∷◌, ◌++◌, Option,
  none, some, Bytes, length, is_some, arith, ◌==◌, if◌then◌else◌, Bool-cases, sym, subst,
  length-append, inl, inr,
}
use mpdscribble.Util.OptionParser.{
  OptionDef, Identified, identified, not_identified, check_shift_value, try_long, after_long,
  identify_long, identify_short, has_short_option, identify_option, second, is_option, Result,
  at_option, at_end, refused, with_remaining, next_in,
}

-- The option of an index is there, and a value too if it needs one.
abbrev pub Suits : List OptionDef → ℕ → Option Bytes → Type 0
Suits [] index value = ⊥
Suits (i ∷ options) zero value = i.has_value ≡ true → is_some value ≡ true
Suits (i ∷ options) (suc index) value = Suits options index value

-- An option found from an index on suits the options from there, and leaves no more arguments.
abbrev SuitsFrom : List OptionDef → ℕ → ℕ → Identified → Type 0
SuitsFrom options start count (identified index value args) =
    (k : ℕ) × (index ≡ start + k) × Suits options k value × (length args ≤ count)
SuitsFrom options start count (not_identified e) = Unit

SuitsFrom-later :
    (i : OptionDef) (options : List OptionDef) (start count : ℕ) (r : Identified)
    → SuitsFrom options (suc start) count r
    → SuitsFrom (i ∷ options) start count r
SuitsFrom-later i options start count (identified index value args) (k, e, s, h) =
    (suc k, omega (arith, e), s, h)
SuitsFrom-later i options start count (not_identified e) s = tt

SuitsFrom-if :
    (options : List OptionDef) (start count : ℕ) (b : Bool) (r q : Identified)
    → SuitsFrom options start count r
    → SuitsFrom options start count q
    → SuitsFrom options start count (if b then r else q)
SuitsFrom-if options start count true r q u v = u
SuitsFrom-if options start count false r q u v = v

-- An option that takes the argument behind it, or none.
check_shift_value-SuitsFrom :
    (s : Bytes) (i : OptionDef) (options : List OptionDef) (index : ℕ) (args : List Bytes)
    → SuitsFrom (i ∷ options) index (length args) (check_shift_value s i index args)
unfolding check_shift_value
check_shift_value-SuitsFrom s i options index [] = elim (Bool-cases i.has_value) [
  | inl e ↦ rw e tt
  | inr e ↦ rw e (0, omega arith, (λ c. absurd (ground arith)), omega arith)
]
check_shift_value-SuitsFrom s i options index (a ∷ args) = elim (Bool-cases i.has_value) [
  | inl e ↦ rw e (0, omega arith, (λ c. refl), omega arith)
  | inr e ↦ rw e (0, omega arith, (λ c. absurd (ground arith)), omega arith)
]

try_long-SuitsFrom :
    (s : Bytes) (i : OptionDef) (options : List OptionDef) (index : ℕ) (args : List Bytes)
    (t : Option Bytes) (r : Identified)
    → SuitsFrom options (suc index) (length args) r
    → SuitsFrom (i ∷ options) index (length args) (try_long s i index args t r)
unfolding try_long
try_long-SuitsFrom s i options index args none r v =
    SuitsFrom-later i options index (length args) r v
try_long-SuitsFrom s i options index args (some []) r v =
    check_shift_value-SuitsFrom s i options index args
try_long-SuitsFrom s i options index args (some (c ∷ t)) r v =
    SuitsFrom-if (i ∷ options) index (length args) (c == b'=') _ r
      (0, omega arith, (λ e. refl), omega arith) (SuitsFrom-later i options index (length args) r v)

identify_long-SuitsFrom :
    (s : Bytes) (options : List OptionDef) (index : ℕ) (args : List Bytes)
    → SuitsFrom options index (length args) (identify_long s options index args)
unfolding identify_long
identify_long-SuitsFrom s [] index args = tt
identify_long-SuitsFrom s (i ∷ options) index args =
    try_long-SuitsFrom s i options index args (after_long s i) _
      (identify_long-SuitsFrom s options (suc index) args)

identify_short-SuitsFrom :
    (s : Bytes) (ch : ℕ) (options : List OptionDef) (index : ℕ) (args : List Bytes)
    → SuitsFrom options index (length args) (identify_short s ch options index args)
unfolding identify_short
identify_short-SuitsFrom s ch [] index args = tt
identify_short-SuitsFrom s ch (i ∷ options) index args =
    SuitsFrom-if (i ∷ options) index (length args) (has_short_option i && ch == i.short_option) _ _
      (check_shift_value-SuitsFrom s i options index args)
      (SuitsFrom-later i options index (length args) _
        (identify_short-SuitsFrom s ch options (suc index) args))

identify_option-SuitsFrom :
    (options : List OptionDef) (s : Bytes) (args : List Bytes)
    → SuitsFrom options 0 (length args) (identify_option options s args)
unfolding identify_option
identify_option-SuitsFrom options s args =
    SuitsFrom-if options 0 (length args) (second s == b'-') _ _
      (identify_long-SuitsFrom s options 0 args)
      (SuitsFrom-if options 0 (length args) (length s == 2) _ _
        (identify_short-SuitsFrom s (second s) options 0 args) tt)

-- What Next() returns: an option that suits, fewer arguments, and no more arguments and remaining
-- ones than there were, so that it never writes where it has not read.
abbrev pub Advances : List OptionDef → ℕ → ℕ → Result → Type 0
Advances options count kept (at_option index value parser) =
    Suits options index value
    × (length parser.args < count)
    × (length parser.args + length parser.remaining ≤ count + kept)
Advances options count kept (at_end remaining) = length remaining ≤ count + kept
Advances options count kept (refused e) = Unit

with_remaining-Advances :
    (options : List OptionDef) (count : ℕ) (remaining : List Bytes) (r : Identified)
    → SuitsFrom options 0 count r
    → Advances options (suc count) (length remaining) (with_remaining remaining r)
with_remaining-Advances options count remaining (identified index value args) (k, e, s, h) =
    let same_index : index ≡ k = omega (arith, e) in
    (subst (λ n. Suits options n value) (sym same_index) s, omega arith, omega arith)
with_remaining-Advances options count remaining (not_identified e) v = tt

Advances-stray :
    (options : List OptionDef) (count : ℕ) (arg : Bytes) (remaining : List Bytes) (r : Result)
    → Advances options count (length (remaining ++ arg ∷ [])) r
    → Advances options (suc count) (length remaining) r
Advances-stray options count arg remaining (at_option index value parser) (s, h, k) =
    (s, omega arith, omega (arith, length-append remaining (arg ∷ [])))
Advances-stray options count arg remaining (at_end rest) h =
    omega (arith, length-append remaining (arg ∷ []))
Advances-stray options count arg remaining (refused e) v = tt

pub next_in-Advances :
    (options : List OptionDef) (args remaining : List Bytes)
    → Advances options (length args) (length remaining) (next_in options args remaining)
unfolding next_in
next_in-Advances options [] remaining = omega arith
next_in-Advances options (arg ∷ args) remaining = elim (Bool-cases (is_option arg)) [
  | inl e ↦ rw e (
      with_remaining-Advances options (length args) remaining _
        (identify_option-SuitsFrom options arg args))
  | inr e ↦ rw e (
      Advances-stray options (length args) arg remaining _
        (next_in-Advances options args (remaining ++ arg ∷ [])))
]

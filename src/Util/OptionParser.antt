-- ===== src/Util/OptionParser.antt =====
-- util/OptionParser.cxx, util/OptionParser.hxx, util/OptionDef.hxx: the options among the arguments.
use mpdscribble.Base.{
  ℕ, suc, Bool, false, ◌&&◌, not, List, [], ◌∷◌, ◌++◌, Option, none, some, Bytes, length, drop,
  starts_with, ◌==◌, if◌then◌else◌,
}

-- class OptionDef; the short option is 0 if there is none
pub record OptionDef : Type 0 where
  pub long_option : Option Bytes
  pub short_option : ℕ
  pub has_value : Bool
  pub desc : Option Bytes

abbrev pub has_short_option : OptionDef → Bool
has_short_option i = not (i.short_option == 0)

-- The exceptions, with the argument they name.
pub data OptionError : Type 0 where
  value_expected unknown_option : Bytes → OptionError

-- What IdentifyOption() makes of an option: its index, its value and the arguments behind it.
pub data Identified : Type 0 where
  identified : ℕ → Option Bytes → List Bytes → Identified
  not_identified : OptionError → Identified

-- StringAfterPrefix()
unfoldable pub string_after_prefix : Bytes → Bytes → Option Bytes
string_after_prefix haystack needle =
    if starts_with haystack needle then some (drop (length needle) haystack) else none

-- CheckShiftValue(), for the option of an index
unfoldable pub check_shift_value : Bytes → OptionDef → ℕ → List Bytes → Identified
check_shift_value s option index args =
    if not option.has_value then identified index none args else elim args [
      | [] ↦ not_identified (value_expected s)
      | value ∷ args ↦ identified index (some value) args
    ]

-- the body of the first loop of IdentifyOption(), with what the loop does if it goes on
unfoldable pub try_long :
    Bytes → OptionDef → ℕ → List Bytes → Option Bytes → Identified → Identified
unfolding check_shift_value
try_long s i index args none next_option = next_option
try_long s i index args (some []) next_option = check_shift_value s i index args
try_long s i index args (some (c ∷ t)) next_option =
    if c == b'=' then identified index (some t) args else next_option

-- the part of an argument behind the name of an option, if it has a name
abbrev pub after_long : Bytes → OptionDef → Option Bytes
after_long s i = elim i.long_option [
  | none ↦ none
  | some long ↦ string_after_prefix (drop 2 s) long
]

-- the first loop of IdentifyOption(), from the option of an index on
unfoldable pub identify_long : Bytes → List OptionDef → ℕ → List Bytes → Identified
unfolding try_long
identify_long s [] index args = not_identified (unknown_option s)
identify_long s (i ∷ options) index args =
    try_long s i index args (after_long s i) (identify_long s options (suc index) args)

-- the second loop of IdentifyOption(), from the option of an index on
unfoldable pub identify_short : Bytes → ℕ → List OptionDef → ℕ → List Bytes → Identified
unfolding check_shift_value
identify_short s ch [] index args = not_identified (unknown_option s)
identify_short s ch (i ∷ options) index args =
    let next_option = identify_short s ch options (suc index) args in
    if has_short_option i && ch == i.short_option
    then check_shift_value s i index args
    else next_option

-- the character behind the first, 0 at the end of the string
abbrev pub second : Bytes → ℕ
second [] = 0
second (c ∷ []) = 0
second (c ∷ d ∷ s) = d

-- IdentifyOption()
unfoldable pub identify_option : List OptionDef → Bytes → List Bytes → Identified
unfolding identify_long identify_short
identify_option options s args =
    if second s == b'-'
    then identify_long s options 0 args
    else if length s == 2
    then identify_short s (second s) options 0 args
    else not_identified (unknown_option s)

abbrev pub is_option : Bytes → Bool
is_option [] = false
is_option (c ∷ s) = c == b'-'

-- class OptionParser: the arguments not yet read, and those that are no options
pub record OptionParser : Type 0 where
  pub args : List Bytes
  pub remaining : List Bytes

-- What Next() returns; the index is -1 at the end.
pub data Result : Type 0 where
  at_option : ℕ → Option Bytes → OptionParser → Result
  at_end : List Bytes → Result
  refused : OptionError → Result

abbrev pub with_remaining : List Bytes → Identified → Result
with_remaining remaining (identified index value args) =
    at_option index value (record { args = args; remaining = remaining })
with_remaining remaining (not_identified e) = refused e

-- Next()
unfoldable pub next_in : List OptionDef → List Bytes → List Bytes → Result
unfolding identify_option
next_in options [] remaining = at_end remaining
next_in options (arg ∷ args) remaining =
    let more = next_in options args (remaining ++ arg ∷ []) in
    if is_option arg then with_remaining remaining (identify_option options arg args) else more

unfoldable pub next : List OptionDef → OptionParser → Result
next options parser = next_in options parser.args parser.remaining

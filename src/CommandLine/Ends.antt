-- ===== src/CommandLine/Ends.antt =====
-- The loop over the options ends, and reads no null pointer.
use mpdscribble.Base.{
  ℕ, zero, suc, ◌<◌, ◌≡◌, refl, true, List, [], ◌∷◌, Option, none, some, Bytes, length, is_some,
  get_elem?, arith,
}
use mpdscribble.CommandLine.{
  Outcome, parsed, exits, throws, null_value, bad_index, endless, option_defs, handle_option,
  check_remaining, parse_options, parse_cmdline, CommandOption, set_option, set_value,
  handle_result, enumerators, option_verbose, option_conf, option_pidfile, option_daemon_user,
  option_log, option_host, option_port, option_proxy,
}
use mpdscribble.ReadConfig.Types.{Config}
use mpdscribble.Util.OptionParser.{
  OptionDef, Result, at_option, at_end, refused, next, OptionParser,
}
use mpdscribble.CommandLine.Advance.{Suits, Advances, next_in-Advances}

-- The loop has come to an end, and no null pointer was used as a value, nor an index without option.
abbrev pub IsProper : Outcome → Type 0
IsProper (parsed config) = Unit
IsProper (exits option) = Unit
IsProper (throws e) = Unit
IsProper null_value = ⊥
IsProper bad_index = ⊥
IsProper endless = ⊥

-- What the option does with its value is proper, if it has one that it needs.
abbrev HandlesProperly : OptionDef → CommandOption → Type 0
HandlesProperly i o =
    (value : Option Bytes) (config : Config) (rest : Config → Outcome)
    → (i.has_value ≡ true → is_some value ≡ true)
    → ((config : Config) → IsProper (rest config))
    → IsProper (handle_option (some o) value config rest)

abbrev HandleProperly : List OptionDef → List CommandOption → Type 0
HandleProperly [] os = Unit
HandleProperly (i ∷ options) [] = ⊥
HandleProperly (i ∷ options) (o ∷ os) = HandlesProperly i o × HandleProperly options os

handle_option-get :
    (options : List OptionDef) (os : List CommandOption)
    → HandleProperly options os
    → (index : ℕ) (value : Option Bytes) (config : Config) (rest : Config → Outcome)
    → Suits options index value
    → ((config : Config) → IsProper (rest config))
    → IsProper (handle_option (get_elem? os index) value config rest)
handle_option-get [] os h index value config rest s v = absurd s
handle_option-get (i ∷ options) [] h index value config rest s v = absurd h
handle_option-get (i ∷ options) (o ∷ os) (h, k) zero value config rest s v = h value config rest s v
handle_option-get (i ∷ options) (o ∷ os) (h, k) (suc index) value config rest s v =
    handle_option-get options os k index value config rest s v

set_value-IsProper :
    (o : CommandOption) (value : Option Bytes) (config : Config) (rest : Config → Outcome)
    → (true ≡ true → is_some value ≡ true)
    → ((config : Config) → IsProper (rest config))
    → IsProper (set_value o value config rest)
set_value-IsProper o none config rest s v = absurd (ground (arith, s refl))
set_value-IsProper o (some value) config rest s v = v (set_option o value config)

option_defs-HandleProperly : HandleProperly option_defs enumerators
unfolding handle_option
option_defs-HandleProperly = (
  (λ value config rest s v. tt),
  (
    (λ value config rest s v. v _),
    (
      set_value-IsProper option_verbose,
      (
        set_value-IsProper option_conf,
        (
          set_value-IsProper option_pidfile,
          (
            set_value-IsProper option_daemon_user,
            (
              set_value-IsProper option_log,
              (
                set_value-IsProper option_host,
                (
                  set_value-IsProper option_port,
                  (set_value-IsProper option_proxy, ((λ value config rest s v. tt), tt)),
                ),
              ),
            ),
          ),
        ),
      ),
    ),
  ),
)

check_remaining-IsProper :
    (remaining : List Bytes) (config : Config) → IsProper (check_remaining remaining config)
unfolding check_remaining
check_remaining-IsProper [] config = tt
check_remaining-IsProper (first ∷ remaining) config = tt

handle_result-IsProper :
    (count kept : ℕ) (r : Result) (config : Config) (rest : Config → OptionParser → Outcome)
    → Advances option_defs count kept r
    → ((config : Config) (parser : OptionParser)
        → length parser.args < count
        → IsProper (rest config parser))
    → IsProper (handle_result r config rest)
unfolding handle_result
handle_result-IsProper count kept (at_option index value parser) config rest (s, h, k) v =
    handle_option-get option_defs enumerators option_defs-HandleProperly index value config _ s
      (λ config. v config parser h)
handle_result-IsProper count kept (at_end remaining) config rest h v =
    check_remaining-IsProper remaining config
handle_result-IsProper count kept (refused e) config rest h v = tt

parse_options-IsProper :
    (fuel : ℕ) (config : Config) (parser : OptionParser)
    → length parser.args < fuel
    → IsProper (parse_options fuel config parser)
unfolding parse_options next
parse_options-IsProper zero config parser h = elim h [ ]
parse_options-IsProper (suc fuel) config parser h =
    handle_result-IsProper (length parser.args) (length parser.remaining) _ config _
      (next_in-Advances option_defs parser.args parser.remaining)
      (λ config parser k. parse_options-IsProper fuel config parser (omega arith))

-- Parsing the command line ends for every list of arguments: with a configuration, the version or the
-- help, or an exception. It needs one round for an argument and one more, and it never uses a value
-- that is a null pointer.
pub parse_cmdline-IsProper :
    (config : Config) (args : List Bytes) → IsProper (parse_cmdline config args)
unfolding parse_cmdline
parse_cmdline-IsProper config args =
    parse_options-IsProper (suc (length args)) config _ (omega arith)

-- ===== src/CommandLine/Words.antt =====
-- Command lines as they are meant, and what parse_cmdline() makes of them.
use mpdscribble.Base.{
  ℕ, zero, suc, ◌<◌, ◌≡◌, refl, true, false, List, [], ◌∷◌, ◌++◌, Bytes, length, ◌∙◌, codes, arith,
}
use mpdscribble.CommandLine.{
  CommandOption, Outcome, parsed, throws, exits, option_version, option_help, handle_option,
  handle_result, check_remaining, parse_options, parse_cmdline, set_option, option_verbose,
  option_conf, option_pidfile, option_daemon_user, option_log, option_host, option_port,
  option_proxy,
}
use mpdscribble.ReadConfig.Types.{Config}
use mpdscribble.Util.OptionParser.{
  identify_option, identify_long, identify_short, try_long, string_after_prefix, check_shift_value,
  is_option, next_in, next, unknown_option,
}

-- The options that need a value.
pub data Setting : Type 0 where
  verbose conf pidfile daemon_user log host port proxy : Setting

abbrev name_of : Setting → Bytes
name_of verbose = codes "verbose"
name_of conf = codes "conf"
name_of pidfile = codes "pidfile"
name_of daemon_user = codes "daemon-user"
name_of log = codes "log"
name_of host = codes "host"
name_of port = codes "port"
name_of proxy = codes "proxy"

abbrev option_of : Setting → CommandOption
option_of verbose = option_verbose
option_of conf = option_conf
option_of pidfile = option_pidfile
option_of daemon_user = option_daemon_user
option_of log = option_log
option_of host = option_host
option_of port = option_port
option_of proxy = option_proxy

-- `--name value`, `--name=value`, `-v value`, the options without a value, and an argument that is no
-- option
pub data Word : Type 0 where
  apart joined : Setting → Bytes → Word
  short_verbose : Bytes → Word
  no_daemon short_no_daemon version short_version help short_help : Word
  stray : Bytes → Word

abbrev args_of : Word → List Bytes
args_of (apart s value) = (b'-' ∷ b'-' ∷ name_of s) ∷ value ∷ []
args_of (joined s value) = (b'-' ∷ b'-' ∷ name_of s ++ b'=' ∷ value) ∷ []
args_of (short_verbose value) = (b'-' ∷ b'v' ∷ []) ∷ value ∷ []
args_of no_daemon = codes "--no-daemon" ∷ []
args_of short_no_daemon = codes "-D" ∷ []
args_of version = codes "--version" ∷ []
args_of short_version = codes "-V" ∷ []
args_of help = codes "--help" ∷ []
args_of short_help = codes "-h" ∷ []
args_of (stray arg) = arg ∷ []

-- The arguments of a command line.
abbrev pub all_args : List Word → List Bytes
all_args [] = []
all_args (w ∷ ws) = args_of w ++ all_args ws

-- The end of the command line: an argument that was no option is an error, but only here.
abbrev finish : List Bytes → Config → Outcome
finish [] config = parsed config
finish (first ∷ more) config = throws (unknown_option first)

-- What the words mean, one after another, behind the arguments that were no options.
abbrev pub meaning : List Word → List Bytes → Config → Outcome
meaning [] before config = finish before config
meaning (apart s value ∷ ws) before config =
    meaning ws before (set_option (option_of s) value config)
meaning (joined s value ∷ ws) before config =
    meaning ws before (set_option (option_of s) value config)
meaning (short_verbose value ∷ ws) before config =
    meaning ws before (set_option option_verbose value config)
meaning (no_daemon ∷ ws) before config = meaning ws before (record config { no_daemon = true })
meaning (short_no_daemon ∷ ws) before config =
    meaning ws before (record config { no_daemon = true })
meaning (version ∷ ws) before config = exits option_version
meaning (short_version ∷ ws) before config = exits option_version
meaning (help ∷ ws) before config = exits option_help
meaning (short_help ∷ ws) before config = exits option_help
meaning (stray arg ∷ ws) before config = meaning ws (before ++ arg ∷ []) config

-- A stray argument does not begin with a dash.
abbrev IsPlain : Word → Type 0
IsPlain (stray arg) = is_option arg ≡ false
IsPlain _ = Unit

abbrev pub ArePlain : List Word → Type 0
ArePlain [] = Unit
ArePlain (w ∷ ws) = IsPlain w × ArePlain ws

module _ (fuel : ℕ) (config : Config) (args remaining : List Bytes) where
  abbrev after : Config → Outcome
  after c = parse_options fuel c (record { args = args; remaining = remaining })

  parse_apart :
      (s : Setting) (value : Bytes)
      → parse_options
          (suc fuel)
          config
          (record { args = args_of (apart s value) ++ args; remaining = remaining })
        ≡ after (set_option (option_of s) value config)
  unfolding parse_options next next_in identify_option identify_long try_long string_after_prefix
      check_shift_value handle_result handle_option
  parse_apart verbose value = refl
  parse_apart conf value = refl
  parse_apart pidfile value = refl
  parse_apart daemon_user value = refl
  parse_apart log value = refl
  parse_apart host value = refl
  parse_apart port value = refl
  parse_apart proxy value = refl

  parse_joined :
      (s : Setting) (value : Bytes)
      → parse_options
          (suc fuel)
          config
          (record { args = args_of (joined s value) ++ args; remaining = remaining })
        ≡ after (set_option (option_of s) value config)
  unfolding parse_options next next_in identify_option identify_long try_long string_after_prefix
      check_shift_value handle_result handle_option
  parse_joined verbose value = refl
  parse_joined conf value = refl
  parse_joined pidfile value = refl
  parse_joined daemon_user value = refl
  parse_joined log value = refl
  parse_joined host value = refl
  parse_joined port value = refl
  parse_joined proxy value = refl

  parse_short_verbose :
      (value : Bytes)
      → parse_options
          (suc fuel)
          config
          (record { args = args_of (short_verbose value) ++ args; remaining = remaining })
        ≡ after (set_option option_verbose value config)
  unfolding parse_options next next_in identify_option identify_short check_shift_value
      handle_result handle_option
  parse_short_verbose value = refl

  parse_stray :
      (arg : Bytes)
      → is_option arg ≡ false
      → parse_options (suc fuel) config (record { args = arg ∷ args; remaining = remaining })
        ≡ parse_options
            (suc fuel)
            config
            (record { args = args; remaining = remaining ++ arg ∷ [] })
  unfolding parse_options next next_in
  parse_stray arg e = rw (e, next_in) refl

check_remaining-finish :
    (remaining : List Bytes) (config : Config)
    → check_remaining remaining config ≡ finish remaining config
unfolding check_remaining
check_remaining-finish [] config = refl
check_remaining-finish (first ∷ remaining) config = refl

parse_options-nil :
    (fuel : ℕ) (config : Config) (remaining : List Bytes)
    → parse_options (suc fuel) config (record { args = []; remaining = remaining })
      ≡ finish remaining config
unfolding parse_options next next_in handle_result
parse_options-nil fuel config remaining = check_remaining-finish remaining config

parse_options-meaning :
    (ws : List Word) (fuel : ℕ) (config : Config) (remaining : List Bytes)
    → ArePlain ws
    → length (all_args ws) < fuel
    → parse_options fuel config (record { args = all_args ws; remaining = remaining })
      ≡ meaning ws remaining config
unfolding parse_options next next_in identify_option identify_long identify_short try_long
    string_after_prefix check_shift_value handle_result handle_option
parse_options-meaning ws zero config remaining p h = elim h [ ]
parse_options-meaning [] (suc fuel) config remaining p h = parse_options-nil fuel config remaining
parse_options-meaning (stray arg ∷ ws) (suc fuel) config remaining (p, q) h =
    parse_stray fuel config (all_args ws) remaining arg p
    ∙ parse_options-meaning ws (suc fuel) config (remaining ++ arg ∷ []) q (omega arith)
parse_options-meaning (apart s value ∷ ws) (suc fuel) config remaining (p, q) h =
    parse_apart fuel config (all_args ws) remaining s value
    ∙ parse_options-meaning ws fuel _ remaining q (omega arith)
parse_options-meaning (joined s value ∷ ws) (suc fuel) config remaining (p, q) h =
    parse_joined fuel config (all_args ws) remaining s value
    ∙ parse_options-meaning ws fuel _ remaining q (omega arith)
parse_options-meaning (short_verbose value ∷ ws) (suc fuel) config remaining (p, q) h =
    parse_short_verbose fuel config (all_args ws) remaining value
    ∙ parse_options-meaning ws fuel _ remaining q (omega arith)
parse_options-meaning (no_daemon ∷ ws) (suc fuel) config remaining (p, q) h =
    parse_options-meaning ws fuel _ remaining q (omega arith)
parse_options-meaning (short_no_daemon ∷ ws) (suc fuel) config remaining (p, q) h =
    parse_options-meaning ws fuel _ remaining q (omega arith)
parse_options-meaning (version ∷ ws) (suc fuel) config remaining (p, q) h = refl
parse_options-meaning (short_version ∷ ws) (suc fuel) config remaining (p, q) h = refl
parse_options-meaning (help ∷ ws) (suc fuel) config remaining (p, q) h = refl
parse_options-meaning (short_help ∷ ws) (suc fuel) config remaining (p, q) h = refl

pub parse_cmdline-meaning :
    (ws : List Word) (config : Config)
    → ArePlain ws
    → parse_cmdline config (all_args ws) ≡ meaning ws [] config
unfolding parse_cmdline
parse_cmdline-meaning ws config p =
    parse_options-meaning ws (suc (length (all_args ws))) config [] p (omega arith)

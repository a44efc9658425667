-- ===== src/CommandLine.antt =====
-- CommandLine.cxx: the options of the command line.
pub mod Words
pub mod Advance
pub mod Ends
mod Tests
use mpdscribble.Base.{
  ℕ, zero, suc, Bool, true, false, List, [], ◌∷◌, Option, none, some, Bytes, length, codes,
  get_elem?,
}
use mpdscribble.Base.Int.{ℤ, to_unsigned}
use mpdscribble.ReadConfig.Types.{Config}
use mpdscribble.Text.Decimal.{atoi}
use mpdscribble.Util.OptionParser.{
  OptionDef, OptionError, unknown_option, OptionParser, Result, at_option, at_end, refused, next,
}

-- `enum Option`
pub data CommandOption : Type 0 where
  option_version option_no_daemon option_verbose option_conf option_pidfile : CommandOption
  option_daemon_user option_log option_host option_port option_proxy option_help : CommandOption

abbrev define : Bytes → ℕ → Bool → Bytes → OptionDef
define long short has_value desc = record {
  long_option = some long;
  short_option = short;
  has_value = has_value;
  desc = some desc;
}

-- `option_defs`
abbrev pub option_defs : List OptionDef
option_defs =
    define (codes "version") b'V' false (codes "print version number")
    ∷ define (codes "no-daemon") b'D' false (codes "don't daemonize")
    ∷ define (codes "verbose") b'v' true (codes "verbosity (0-2, default 2)")
    ∷ define (codes "conf") 0 true (codes "load configuration from this file")
    ∷ define (codes "pidfile") 0 true (codes "write the process id to this file")
    ∷ define (codes "daemon-user") 0 true (codes "run daemon as this user")
    ∷ define (codes "log") 0 true (codes "log file or 'syslog'")
    ∷ define (codes "host") 0 true (codes "MPD host name to connect to, or Unix domain socket path")
    ∷ define (codes "port") 0 true (codes "MPD port to connect to")
    ∷ define (codes "proxy") 0 true (codes "HTTP proxy URI")
    ∷ define (codes "help") b'h' false (codes "show help options")
    ∷ []

abbrev pub enumerators : List CommandOption
enumerators =
    option_version ∷ option_no_daemon ∷ option_verbose ∷ option_conf ∷ option_pidfile
    ∷ option_daemon_user ∷ option_log ∷ option_host ∷ option_port ∷ option_proxy ∷ option_help ∷ []

-- the cast from an index to `enum Option`
abbrev pub option_at : ℕ → Option CommandOption
option_at index = get_elem? enumerators index

-- What the command line leads to; `null_value` is a use of a value that is a null pointer,
-- `bad_index` one of no option, and `endless` that the fuel has run out.
pub data Outcome : Type 0 where
  parsed : Config → Outcome
  exits : CommandOption → Outcome
  throws : OptionError → Outcome
  null_value bad_index endless : Outcome

-- An option that needs a value, and what it does with it.
unfoldable pub set_option : CommandOption → Bytes → Config → Config
set_option option_verbose value config = record config { verbose = atoi value }
set_option option_conf value config = record config { conf = value }
set_option option_pidfile value config = record config { pidfile = value }
set_option option_daemon_user value config = record config { daemon_user = value }
set_option option_log value config = record config { log = value }
set_option option_host value config = record config { host = value }
set_option option_port value config = record config { port = to_unsigned (atoi value) }
set_option option_proxy value config = record config { proxy = value }
set_option _ value config = config

abbrev pub set_value : CommandOption → Option Bytes → Config → (Config → Outcome) → Outcome
set_value o none config rest = null_value
set_value o (some value) config rest = rest (set_option o value config)

-- the body of the loop of parse_cmdline(), with what comes behind it
unfoldable pub handle_option :
    Option CommandOption → Option Bytes → Config → (Config → Outcome) → Outcome
unfolding set_option
handle_option none value config rest = bad_index
handle_option (some option_version) value config rest = exits option_version
handle_option (some option_help) value config rest = exits option_help
handle_option (some option_no_daemon) value config rest = rest (record config { no_daemon = true })
handle_option (some o) value config rest = set_value o value config rest

-- the end of parse_cmdline()
unfoldable pub check_remaining : List Bytes → Config → Outcome
check_remaining [] config = parsed config
check_remaining (first ∷ remaining) config = throws (unknown_option first)

-- one round of the loop of parse_cmdline(), with the rounds behind it
unfoldable pub handle_result : Result → Config → (Config → OptionParser → Outcome) → Outcome
unfolding handle_option check_remaining
handle_result (at_option index value parser) config rest =
    handle_option (option_at index) value config (λ config. rest config parser)
handle_result (at_end remaining) config rest = check_remaining remaining config
handle_result (refused e) config rest = throws e

-- the loop of parse_cmdline()
unfoldable pub parse_options : ℕ → Config → OptionParser → Outcome
parse_options zero config parser = endless
parse_options (suc fuel) config parser =
    handle_result (next option_defs parser) config (parse_options fuel)

-- parse_cmdline(), for the arguments behind the name of the program
unfoldable pub parse_cmdline : Config → List Bytes → Outcome
unfolding parse_options
parse_cmdline config args =
    parse_options (suc (length args)) config (record { args = args; remaining = [] })

-- ===== src/CommandLine/Tests.antt =====
-- Tests of the command line.
use mpdscribble.Base.{◌≡◌, refl, false, List, [], ◌∷◌, codes}
use mpdscribble.Base.Int.{negsuc}
use mpdscribble.CommandLine.{parsed, throws, exits, option_version, parse_cmdline, handle_result}
use mpdscribble.CommandLine.Ends.{parse_cmdline-IsProper, IsProper}
use mpdscribble.CommandLine.Words.{
  Word, apart, joined, short_no_daemon, stray, port, host, all_args, meaning, parse_cmdline-meaning,
}
use mpdscribble.ReadConfig.Types.{Config, file_unknown}
use mpdscribble.Text.Decimal.{atoi}
use mpdscribble.Util.OptionParser.{
  unknown_option, value_expected, next, next_in, string_after_prefix,
}

abbrev no_config : Config
no_config = record {
  no_daemon = false;
  pidfile = [];
  daemon_user = [];
  log = [];
  conf = [];
  host = [];
  proxy = [];
  port = 0;
  journal_interval = 600;
  verbose = negsuc 0;
  loc = file_unknown;
  scrobblers = [];
}

abbrev some_words : List Word
some_words =
    apart host (codes "music")
    ∷ stray (codes "extra")
    ∷ short_no_daemon
    ∷ joined port (codes "6601")
    ∷ joined host (codes "-x=y")
    ∷ []

parse_cmdline-meaning_example :
    parse_cmdline no_config (all_args some_words) ≡ meaning some_words [] no_config
parse_cmdline-meaning_example =
    parse_cmdline-meaning some_words no_config (tt, (refl, (tt, (tt, (tt, tt)))))

parse_cmdline-IsProper_example :
    IsProper (parse_cmdline no_config (codes "x" ∷ codes "--conf" ∷ []))
parse_cmdline-IsProper_example = parse_cmdline-IsProper no_config (codes "x" ∷ codes "--conf" ∷ [])

lacking_value :
    parse_cmdline no_config (codes "x" ∷ codes "--conf" ∷ [])
    ≡ throws (value_expected (codes "--conf"))
unfolding parse_cmdline handle_result next next_in string_after_prefix atoi
lacking_value = refl

unknown_name :
    parse_cmdline no_config (codes "--hos=x" ∷ []) ≡ throws (unknown_option (codes "--hos=x"))
unfolding parse_cmdline handle_result next next_in string_after_prefix atoi
unknown_name = refl

stray_last : parse_cmdline no_config (codes "x" ∷ codes "-V" ∷ []) ≡ exits option_version
unfolding parse_cmdline handle_result next next_in string_after_prefix atoi
stray_last = refl

negative_verbosity :
    parse_cmdline no_config (codes "--verbose=-2" ∷ [])
    ≡ parsed (record no_config { verbose = negsuc 1 })
unfolding parse_cmdline handle_result next next_in string_after_prefix atoi
negative_verbosity = refl

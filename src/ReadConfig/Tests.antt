-- ===== src/ReadConfig/Tests.antt =====
-- A configuration from the command line and a file, and the theorems at concrete inputs.
use mpdscribble.Base.{◌≡◌, refl, false, [], ◌∷◌, none, some, arith, codes}
use mpdscribble.Base.Int.{negsuc}
use mpdscribble.IniFile.{IniFile, IniSection}
use mpdscribble.IniFile.Maps.{find}
use mpdscribble.ReadConfig.{file_read_config, load_settings}
use mpdscribble.ReadConfig.Types.{Config, Surroundings, file_unknown}
use mpdscribble.ReadConfig.Complete.{IsComplete, file_read_config-IsComplete}
use mpdscribble.ReadConfig.Strtol.{strtol}
use mpdscribble.ReadConfig.Values.{LoadedIs, load_settings_port}

abbrev config : Config
config = record {
  no_daemon = false;
  pidfile = [];
  daemon_user = [];
  log = [];
  conf = codes "/c";
  host = codes "music";
  proxy = [];
  port = 7000;
  journal_interval = 600;
  verbose = negsuc 0;
  loc = file_unknown;
  scrobblers = [];
}

abbrev surroundings : Surroundings
surroundings = record {
  xdg_config_home = none;
  xdg_cache_home = none;
  home = some (codes "/home/u");
  http_proxy = none;
  exists = λ path. false;
  booted = false;
  file_conf = codes "/etc/mpdscribble.conf";
  contents = λ path. some (codes "host = other\nport = 6600\n[file]\nfile = /log\n");
}

file_read_config-IsComplete_example :
    LoadedIs (IsComplete config) (file_read_config surroundings config)
file_read_config-IsComplete_example = file_read_config-IsComplete surroundings config tt

abbrev section : IniSection
section = (codes "port", codes "6600") ∷ []

abbrev file : IniFile
file = ([], section) ∷ []

number_read : strtol (codes " -12x") ≡ some (negsuc 11, codes "x")
unfolding strtol
number_read = refl

load_settings_port_example : LoadedIs (λ c. c.port ≡ 6600) (load_settings file config)
unfolding find strtol
load_settings_port_example =
    load_settings_port file (codes "6600") section 6600 config refl refl refl (omega arith)

-- ===== src/ReadConfig.antt =====
-- ReadConfig.cxx and Config.hxx: the configuration from the command line and the file.
pub mod Strtol
pub mod Types
pub mod Paths
pub mod Values
pub mod Scrobblers
pub mod Complete
mod Tests
use mpdscribble.Base.{
  ℕ, Bool, true, false, not, ◌&&◌, ◌||◌, List, [], ◌∷◌, ◌++◌, Option, none, some, Bytes, c_str,
  codes, is_empty, is_some, ◌==◌, if◌then◌else◌,
}
use mpdscribble.Base.Int.{ℤ, pos, negsuc, to_int}
use mpdscribble.IniFile.{
  IniFile, IniSection, IniError, Read, file_read, error_on_line, read_undefined, read_ini_file,
}
use mpdscribble.IniFile.Maps.{find}
use mpdscribble.ReadConfig.Strtol.{strtol}
use mpdscribble.Scrobbler.State.{ScrobblerConfig}
use mpdscribble.ReadConfig.Types.{
  FileLocation, file_etc, file_home, file_unknown, Config, Surroundings, ConfigError, null_home,
  cannot_open, bad_line, bad_iterator, not_a_number, negative_setting, neither_file_nor_url,
  no_username, no_password, no_configuration, no_scrobbler, Loaded, loaded, failed, ◌>>=◌,
}
use mpdscribble.ReadConfig.Paths.{
  choose_path, default_path, get_default_config_path, get_default_log_path, get_home_cache_path,
  get_default_cache_path,
}

-- GetStdString()
unfoldable pub get_std_string : IniSection → Bytes → Bytes
get_std_string section key = elim (find key section) [ none ↦ [] | some value ↦ value ]

-- load_string(): the new value
unfoldable pub load_string : IniFile → Bytes → Bytes → Bytes
unfolding get_std_string
load_string file name value =
    if not (is_empty value)
    then value
    else elim (find [] file) [ none ↦ value | some section ↦ get_std_string section name ]

abbrev pub is_minus_one : ℤ → Bool
is_minus_one (pos n) = false
is_minus_one (negsuc n) = n == 0

-- the number in a string, as load_integer() stores it in an `int`
unfoldable pub parse_number : Bytes → Loaded ℤ
parse_number s = elim (strtol s) [
  | none ↦ failed (not_a_number s)
  | some (value, rest) ↦ if is_empty rest then loaded (to_int value) else failed (not_a_number s)
]

-- load_integer(): what it returns, and the new value
unfoldable pub load_integer : IniFile → Bytes → ℤ → Loaded (Bool × ℤ)
unfolding parse_number
load_integer file name value =
    if not (is_minus_one value) then loaded (false, value) else elim (find [] file) [
      | none ↦ loaded (false, value)
      | some section ↦ elim (find name section) [
        | none ↦ loaded (false, value)
        | some s ↦ parse_number (c_str s) >>= (λ n. loaded (true, n))
      ]
    ]

-- the end of load_unsigned()
unfoldable pub as_unsigned : Bytes → ℕ → Bool × ℤ → Loaded (Bool × ℕ)
as_unsigned name old (false, n) = loaded (false, old)
as_unsigned name old (true, pos n) = loaded (true, n)
as_unsigned name old (true, negsuc n) = failed (negative_setting name)

-- load_unsigned(): what it returns, and the new value
unfoldable pub load_unsigned : IniFile → Bytes → ℕ → Loaded (Bool × ℕ)
unfolding load_integer as_unsigned
load_unsigned file name old = load_integer file name (negsuc 0) >>= as_unsigned name old

-- load_scrobbler_config(), from the user name on, for what it has made so far
unfoldable pub load_account : IniSection → ScrobblerConfig → Loaded ScrobblerConfig
unfolding get_std_string
load_account section scrobbler =
    if not (is_empty scrobbler.file)
    then loaded scrobbler
    else let username = get_std_string section (codes "username") in
      let password = get_std_string section (codes "password") in
      if is_empty username
      then failed no_username
      else if is_empty password
      then failed no_password
      else loaded (record scrobbler { username = username; password = password })

-- the part of load_scrobbler_config() that finds the server or the log file
unfoldable pub load_target : Bytes → IniSection → Loaded ScrobblerConfig
unfolding get_std_string
load_target [] section = loaded (record {
  name = codes "last.fm";
  url = codes "https://post.audioscrobbler.com/";
  username = [];
  password = [];
  journal = [];
  file = [];
})
load_target (c ∷ section_name) section =
    let file = get_std_string section (codes "file") in
    let url = if is_empty file then get_std_string section (codes "url") else [] in
    if is_empty file && is_empty url
    then failed (neither_file_nor_url (c ∷ section_name))
    else loaded (record {
      name = c ∷ section_name;
      url = url;
      username = [];
      password = [];
      journal = [];
      file = file;
    })

module _ (env : Surroundings) where
  -- the journal in load_scrobbler_config()
  unfoldable pub journal_path : Config → Bytes → IniSection → Bytes
  unfolding get_std_string get_default_cache_path
  journal_path config section_name section =
      let journal = get_std_string section (codes "journal") in
      let cache = get_std_string section (codes "cache") in
      if is_empty journal && is_empty section_name
      then if is_empty cache then get_default_cache_path env config.loc else cache
      else journal

  -- load_scrobbler_config()
  unfoldable pub load_scrobbler_config : Config → Bytes → IniSection → Loaded ScrobblerConfig
  load_scrobbler_config config section_name section = do
    target ← load_target section_name section
    account ← load_account section target
    loaded (record account { journal = journal_path config section_name section })

  -- the loop of load_config_file() over the sections
  unfoldable pub load_sections : IniFile → Config → Loaded Config
  load_sections [] config = loaded config
  load_sections ((section_name, section) ∷ file) config =
      if is_empty section_name && not (is_some (find (codes "username") section))
      then load_sections file config
      else load_scrobbler_config config section_name section
        >>= (λ s. load_sections file (record config { scrobblers = s ∷ config.scrobblers }))

-- the settings that are strings, and the numbers as they were loaded
unfoldable pub with_numbers : IniFile → Config → ℕ → ℕ → ℤ → Config
with_numbers file config port journal_interval verbose = record config {
  pidfile = load_string file (codes "pidfile") config.pidfile;
  daemon_user = load_string file (codes "daemon_user") config.daemon_user;
  log = load_string file (codes "log") config.log;
  host = load_string file (codes "host") config.host;
  port = port;
  proxy = load_string file (codes "proxy") config.proxy;
  journal_interval = journal_interval;
  verbose = verbose;
}

-- the second name of the journal interval
unfoldable pub load_cache_interval : IniFile → Bool × ℕ → Loaded (Bool × ℕ)
load_cache_interval file (true, journal) = loaded (true, journal)
load_cache_interval file (false, journal) = load_unsigned file (codes "cache_interval") journal

-- the settings that load_config_file() reads before the sections
unfoldable pub load_settings : IniFile → Config → Loaded Config
load_settings file config = do
  (port_set, port) ← load_unsigned file (codes "port") config.port
  journal ← load_unsigned file (codes "journal_interval") config.journal_interval
  (cache_set, cache) ← load_cache_interval file journal
  (verbose_set, verbose) ← load_integer file (codes "verbose") config.verbose
  loaded (with_numbers file config port cache verbose)

abbrev pub as_file : Read → Loaded IniFile
as_file (file_read file) = loaded file
as_file (error_on_line line_no e) = failed (bad_line line_no e)
as_file read_undefined = failed bad_iterator

abbrev pub read_path : Bytes → Option Bytes → Loaded IniFile
read_path path none = failed (cannot_open path)
read_path path (some bytes) = as_file (read_ini_file bytes)

module _ (env : Surroundings) where
  -- load_config_file()
  unfoldable pub load_config_file : Bytes → Config → Loaded Config
  load_config_file path config = do
    file ← read_path path (env.contents path)
    settings ← load_settings file config
    load_sections env file settings

  -- the defaults at the end of file_read_config()
  unfoldable pub set_defaults : Config → Loaded Config
  unfolding get_default_log_path
  set_defaults config =
      if is_empty config.scrobblers
      then failed no_scrobbler
      else loaded (record config {
        log = if is_empty config.log then get_default_log_path env else config.log;
        proxy =
            if is_empty config.proxy
            then elim env.http_proxy [ none ↦ [] | some proxy ↦ proxy ]
            else config.proxy;
        verbose = if is_minus_one config.verbose then pos 1 else config.verbose;
      })

  -- the path in file_read_config()
  unfoldable pub place_config : Config → Loaded (Config × Bytes)
  place_config config =
      if is_empty config.conf
      then get_default_config_path env config
      else loaded (config, config.conf)

  -- the test for a path in file_read_config(), and load_config_file()
  unfoldable pub load_placed : Config × Bytes → Loaded Config
  load_placed (config, path) =
      if is_empty path
      then failed no_configuration
      else load_config_file path (record config { conf = path })

  -- file_read_config()
  unfoldable pub file_read_config : Config → Loaded Config
  file_read_config config = do
    placed ← place_config config
    read ← load_placed placed
    set_defaults read

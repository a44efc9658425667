-- ===== src/ReadConfig/Paths.antt =====
-- The paths that are taken where none is given.
use mpdscribble.Base.{
  not, ◌&&◌, ◌||◌, [], ◌++◌, Option, none, some, Bytes, codes, is_empty, if◌then◌else◌,
}
use mpdscribble.ReadConfig.Types.{
  FileLocation, file_etc, file_home, file_unknown, Config, Surroundings, null_home, Loaded, loaded,
  failed,
}

module _ (env : Surroundings) where
  -- the end of get_default_config_path(), on the path in the home directory
  unfoldable pub choose_path : Bytes → Config → Loaded (Config × Bytes)
  choose_path file config =
      if env.exists file
      then loaded (record config { loc = file_home }, file)
      else if not (env.exists env.file_conf)
      then loaded (config, [])
      else loaded (record config { loc = file_etc }, env.file_conf)

  abbrev modern_path : Option Bytes → Bytes → Bytes
  modern_path none home = home ++ codes "/.config/mpdscribble/mpdscribble.conf"
  modern_path (some xdg) home = xdg ++ codes "/mpdscribble/mpdscribble.conf"

  -- get_default_config_path() on the value of HOME
  unfoldable pub default_path : Option Bytes → Config → Loaded (Config × Bytes)
  default_path none config = failed null_home
  default_path (some home) config =
      let modern = modern_path env.xdg_config_home home in
      let legacy = home ++ codes "/.mpdscribble/mpdscribble.conf" in
      choose_path (if env.exists legacy && not (env.exists modern) then legacy else modern) config

  -- get_default_config_path(), which also sets `config.loc`
  unfoldable pub get_default_config_path : Config → Loaded (Config × Bytes)
  get_default_config_path config = default_path env.home config

  -- get_default_log_path()
  unfoldable pub get_default_log_path : Bytes
  get_default_log_path = if env.booted then codes "-" else codes "syslog"

  abbrev under : Option Bytes → Bytes → Bytes
  under none path = []
  under (some directory) path = directory ++ path

  -- GetHomeCachePath()
  unfoldable pub get_home_cache_path : Bytes
  get_home_cache_path =
      let xdg_path = under env.xdg_cache_home (codes "/mpdscribble/mpdscribble.cache") in
      let legacy_path = under env.home (codes "/.mpdscribble/mpdscribble.cache") in
      if is_empty xdg_path
        || not (is_empty legacy_path) && not (env.exists xdg_path) && env.exists legacy_path
      then legacy_path
      else xdg_path

  -- get_default_cache_path()
  unfoldable pub get_default_cache_path : FileLocation → Bytes
  unfolding get_home_cache_path
  get_default_cache_path file_home = get_home_cache_path
  get_default_cache_path file_etc = codes "/var/cache/mpdscribble/mpdscribble.cache"
  get_default_cache_path file_unknown = []

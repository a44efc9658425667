-- ===== src/ReadConfig/Types.antt =====
-- Config.hxx, what ReadConfig.cxx reads from outside, and its exceptions.
use mpdscribble.Base.{ℕ, Bool, List, Option, Bytes}
use mpdscribble.Base.Int.{ℤ}
use mpdscribble.IniFile.{IniError}
use mpdscribble.Scrobbler.State.{ScrobblerConfig}

-- `enum file_location`
pub data FileLocation : Type 0 where
  file_etc file_home file_unknown : FileLocation

-- struct Config
pub record Config : Type 0 where
  pub no_daemon : Bool
  pub pidfile : Bytes
  pub daemon_user : Bytes
  pub log : Bytes
  pub conf : Bytes
  pub host : Bytes
  pub proxy : Bytes
  pub port : ℕ
  pub journal_interval : ℕ
  pub verbose : ℤ
  pub loc : FileLocation
  pub scrobblers : List ScrobblerConfig

-- What is read from outside: getenv(), file_exists(), sd_booted(), the path FILE_CONF of the build, and
-- the bytes of a file, `none` if fopen() fails.
pub record Surroundings : Type 0 where
  pub xdg_config_home : Option Bytes
  pub xdg_cache_home : Option Bytes
  pub home : Option Bytes
  pub http_proxy : Option Bytes
  pub exists : Bytes → Bool
  pub booted : Bool
  pub file_conf : Bytes
  pub contents : Bytes → Option Bytes

-- The exceptions, in the order of the code; `null_home` is that of `std::string(nullptr)`.
pub data ConfigError : Type 0 where
  null_home : ConfigError
  cannot_open : Bytes → ConfigError
  bad_line : ℕ → IniError → ConfigError
  bad_iterator : ConfigError
  not_a_number : Bytes → ConfigError
  negative_setting : Bytes → ConfigError
  neither_file_nor_url : Bytes → ConfigError
  no_username no_password no_configuration no_scrobbler : ConfigError

pub data Loaded {ℓ} (A : Type ℓ) : Type ℓ where
  loaded : A → Loaded A
  failed : ConfigError → Loaded A

infixl 5 ◌>>=◌
abbrev pub ◌>>=◌ {ℓ κ} : {A : Type ℓ} {B : Type κ} → Loaded A → (A → Loaded B) → Loaded B
loaded a >>= f = f a
failed e >>= f = failed e

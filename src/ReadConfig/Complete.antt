-- ===== src/ReadConfig/Complete.antt =====
-- What file_read_config() returns.
use mpdscribble.Base.{
  ◌≡◌, refl, Bool, true, false, not, [], Option, none, some, arith, Bytes, is_empty, if◌then◌else◌,
  Bool-cases, inl, inr, ap,
}
use mpdscribble.Base.Int.{ℤ, pos}
use mpdscribble.IniFile.{IniFile}
use mpdscribble.ReadConfig.{
  load_sections, load_settings, read_path, load_config_file, set_defaults, file_read_config,
  place_config, load_placed, is_minus_one,
}
use mpdscribble.ReadConfig.Types.{Config, Surroundings, FileLocation, Loaded, file_home, file_etc}
use mpdscribble.ReadConfig.Paths.{get_default_config_path, choose_path, default_path}
use mpdscribble.ReadConfig.Values.{
  LoadedIs, LoadedIs-bind, LoadedIs-weaken, every_loaded, Prefers, Prefers-trans, Settles,
  load_settings-Settles,
}
use mpdscribble.ReadConfig.Scrobblers.{AllUsable, Fills, load_sections-Fills}

Fills-Prefers : (config c : Config) → Fills config c → Prefers config c
Fills-Prefers config c (u, e) = record {
  pidfile = λ _. ap (λ (x : Config). x.pidfile) e;
  daemon_user = λ _. ap (λ (x : Config). x.daemon_user) e;
  log = λ _. ap (λ (x : Config). x.log) e;
  conf = λ _. ap (λ (x : Config). x.conf) e;
  host = λ _. ap (λ (x : Config). x.host) e;
  proxy = λ _. ap (λ (x : Config). x.proxy) e;
  verbose = λ _. ap (λ (x : Config). x.verbose) e;
}

-- A configuration prefers the command line, and its scrobblers are usable.
abbrev Reads : Config → Config → Type 0
Reads config c = Prefers config c × AllUsable c.scrobblers

-- A configuration that is complete: there is a scrobbler, and the verbosity is set.
abbrev pub IsComplete : Config → Config → Type 0
IsComplete config c =
    Prefers config c
    × AllUsable c.scrobblers
    × (is_empty c.scrobblers ≡ false)
    × (is_minus_one c.verbose ≡ false)

load_config_file-Reads :
    (env : Surroundings) (path : Bytes) (config : Config)
    → AllUsable config.scrobblers
    → LoadedIs (Reads config) (load_config_file env path config)
unfolding load_config_file
load_config_file-Reads env path config v =
    LoadedIs-bind (λ _. Unit {0}) (Reads config) (read_path path (env.contents path)) _
      (every_loaded (λ _. Unit {0}) (read_path path (env.contents path)) (λ _. tt))
      (λ (file : IniFile) _.
        LoadedIs-bind (Settles config) (Reads config) (load_settings file config) _
          (load_settings-Settles file config)
          (λ (c : Config) (p, e, _).
            LoadedIs-weaken (Fills c) (Reads config) (load_sections env file c)
              (load_sections-Fills env file c (rw e v))
              (λ d f. (Prefers-trans config c d p (Fills-Prefers c d f), f.0))))

Prefers-conf :
    (config : Config) (path : Bytes)
    → (is_empty config.conf ≡ false → path ≡ config.conf)
    → Prefers config (record config { conf = path })
Prefers-conf config path h = record {
  pidfile = λ _. refl;
  daemon_user = λ _. refl;
  log = λ _. refl;
  conf = h;
  host = λ _. refl;
  proxy = λ _. refl;
  verbose = λ _. refl;
}

load_placed-Reads :
    (env : Surroundings) (config : Config) (path : Bytes)
    → AllUsable config.scrobblers
    → (is_empty config.conf ≡ false → path ≡ config.conf)
    → LoadedIs (Reads config) (load_placed env (config, path))
unfolding load_placed
load_placed-Reads env config path v h = elim (Bool-cases (is_empty path)) [
  | inl e ↦ rw e tt
  | inr e ↦
      let placed = record config { conf = path } in
      rw e (
        LoadedIs-weaken (Reads placed) (Reads config) (load_config_file env path placed)
          (load_config_file-Reads env path placed v)
          (λ d (q, u). (Prefers-trans config placed d (Prefers-conf config path h) q, u)))
]

one_if_unset : (n : ℤ) → is_minus_one (if is_minus_one n then pos 1 else n) ≡ false
one_if_unset n = elim (Bool-cases (is_minus_one n)) [ inl e ↦ rw e refl | inr e ↦ rw e e ]

set_defaults-IsComplete :
    (env : Surroundings) (config c : Config)
    → Reads config c
    → LoadedIs (IsComplete config) (set_defaults env c)
unfolding set_defaults
set_defaults-IsComplete env config c (p, u) = elim (Bool-cases (is_empty c.scrobblers)) [
  | inl e ↦ rw e tt
  | inr e ↦ rw e (
    Prefers-trans config c _ p (record {
      pidfile = λ _. refl;
      daemon_user = λ _. refl;
      log = λ k. rw k refl;
      conf = λ _. refl;
      host = λ _. refl;
      proxy = λ k. rw k refl;
      verbose = λ k. rw k refl;
    }),
    u,
    e,
    one_if_unset c.verbose,
  )
]

-- what file_read_config() knows of its path
abbrev Placed : Config → Config × Bytes → Type 0
Placed config (c, path) =
    AllUsable c.scrobblers × Prefers config c × (is_empty c.conf ≡ false → path ≡ c.conf)

Placed-loc :
    (config : Config) (loc : FileLocation) (path : Bytes)
    → AllUsable config.scrobblers
    → (is_empty config.conf ≡ false → path ≡ config.conf)
    → Placed config (record config { loc = loc }, path)
Placed-loc config loc path v h = (
  v,
  record {
    pidfile = λ _. refl;
    daemon_user = λ _. refl;
    log = λ _. refl;
    conf = λ _. refl;
    host = λ _. refl;
    proxy = λ _. refl;
    verbose = λ _. refl;
  },
  h,
)

LoadedIs-if :
    {A : Type 0} (P : A → Type 0) (b : Bool) (m n : Loaded A)
    → LoadedIs P m
    → LoadedIs P n
    → LoadedIs P (if b then m else n)
LoadedIs-if P true m n p q = p
LoadedIs-if P false m n p q = q

choose_path-Placed :
    (env : Surroundings) (file : Bytes) (config : Config)
    → AllUsable config.scrobblers
    → is_empty config.conf ≡ true
    → LoadedIs (Placed config) (choose_path env file config)
unfolding choose_path
choose_path-Placed env file config v e =
    LoadedIs-if (Placed config) (env.exists file) _ _
      (Placed-loc config file_home file v (λ d. absurd (ground arith)))
      (LoadedIs-if (Placed config) (not (env.exists env.file_conf)) _ _
        (Placed-loc config config.loc [] v (λ d. absurd (ground arith)))
        (Placed-loc config file_etc env.file_conf v (λ d. absurd (ground arith))))

default_path-Placed :
    (env : Surroundings) (home : Option Bytes) (config : Config)
    → AllUsable config.scrobblers
    → is_empty config.conf ≡ true
    → LoadedIs (Placed config) (default_path env home config)
unfolding default_path
default_path-Placed env none config v e = tt
default_path-Placed env (some home) config v e = choose_path-Placed env _ config v e

place_config-Placed :
    (env : Surroundings) (config : Config)
    → AllUsable config.scrobblers
    → LoadedIs (Placed config) (place_config env config)
unfolding place_config get_default_config_path
place_config-Placed env config v = elim (Bool-cases (is_empty config.conf)) [
  | inl e ↦ rw e (default_path-Placed env env.home config v e)
  | inr e ↦ rw e (Placed-loc config config.loc config.conf v (λ _. refl))
]

-- Reading the configuration keeps every string and the verbosity that the command line has set; if it
-- ends without an exception there is a scrobbler, each has a log file, or an URL with a user name and
-- a password, and the verbosity is set.
pub file_read_config-IsComplete :
    (env : Surroundings) (config : Config)
    → AllUsable config.scrobblers
    → LoadedIs (IsComplete config) (file_read_config env config)
unfolding file_read_config
file_read_config-IsComplete env config v =
    LoadedIs-bind (Placed config) (IsComplete config) (place_config env config) _
      (place_config-Placed env config v)
      (λ (r : Config × Bytes) (u, p, h).
        LoadedIs-bind (Reads r.0) (IsComplete config) (load_placed env r) _
          (load_placed-Reads env r.0 r.1 u h)
          (λ (c : Config) (q, w).
            set_defaults-IsComplete env config c (Prefers-trans config r.0 c p q, w)))

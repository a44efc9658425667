-- ===== src/ReadConfig/Values.antt =====
-- Which value of a setting wins.
use mpdscribble.Base.{
  ℕ, ◌≡◌, refl, Bool, true, false, [], some, arith, Bytes, codes, is_empty, ◌<◌, ◌^◌, Bool-cases,
  ap, ◌∙◌, c_str, inl, inr,
}
use mpdscribble.Base.Int.{ℤ, pos, to_int}
use mpdscribble.IniFile.{IniFile, IniSection}
use mpdscribble.IniFile.Maps.{find}
use mpdscribble.ReadConfig.{
  load_string, load_integer, load_unsigned, load_settings, is_minus_one, with_numbers,
  load_cache_interval, parse_number, as_unsigned,
}
use mpdscribble.ReadConfig.Types.{Config, Loaded, loaded, failed, ◌>>=◌}
use mpdscribble.ReadConfig.Strtol.{strtol}

-- A value that is loaded has a property.
abbrev pub LoadedIs {ℓ κ} : {A : Type ℓ} → (A → Type κ) → Loaded A → Type κ
LoadedIs P (loaded a) = P a
LoadedIs P (failed e) = Unit

pub LoadedIs-bind :
    {A B : Type 0} (P : A → Type 0) (Q : B → Type 0) (m : Loaded A) (f : A → Loaded B)
    → LoadedIs P m
    → ((a : A) → P a → LoadedIs Q (f a))
    → LoadedIs Q (m >>= f)
LoadedIs-bind P Q (loaded a) f p h = h a p
LoadedIs-bind P Q (failed e) f p h = tt

pub LoadedIs-weaken :
    {A : Type 0} (P Q : A → Type 0) (m : Loaded A)
    → LoadedIs P m
    → ((a : A) → P a → Q a)
    → LoadedIs Q m
LoadedIs-weaken P Q (loaded a) p h = h a p
LoadedIs-weaken P Q (failed e) p h = tt

-- The settings of the command line stay what they are.
pub record Prefers (config c : Config) : Type 0 where
  pub pidfile : is_empty config.pidfile ≡ false → c.pidfile ≡ config.pidfile
  pub daemon_user : is_empty config.daemon_user ≡ false → c.daemon_user ≡ config.daemon_user
  pub log : is_empty config.log ≡ false → c.log ≡ config.log
  pub conf : is_empty config.conf ≡ false → c.conf ≡ config.conf
  pub host : is_empty config.host ≡ false → c.host ≡ config.host
  pub proxy : is_empty config.proxy ≡ false → c.proxy ≡ config.proxy
  pub verbose : is_minus_one config.verbose ≡ false → c.verbose ≡ config.verbose

pub Prefers-trans : (a b c : Config) → Prefers a b → Prefers b c → Prefers a c
Prefers-trans a b c v w = record {
  pidfile = λ h. w.pidfile (ap is_empty (v.pidfile h) ∙ h) ∙ v.pidfile h;
  daemon_user = λ h. w.daemon_user (ap is_empty (v.daemon_user h) ∙ h) ∙ v.daemon_user h;
  log = λ h. w.log (ap is_empty (v.log h) ∙ h) ∙ v.log h;
  conf = λ h. w.conf (ap is_empty (v.conf h) ∙ h) ∙ v.conf h;
  host = λ h. w.host (ap is_empty (v.host h) ∙ h) ∙ v.host h;
  proxy = λ h. w.proxy (ap is_empty (v.proxy h) ∙ h) ∙ v.proxy h;
  verbose = λ h. w.verbose (ap is_minus_one (v.verbose h) ∙ h) ∙ v.verbose h;
}

pub every_loaded : {A : Type 0} (P : A → Type 0) (m : Loaded A) → ((a : A) → P a) → LoadedIs P m
every_loaded P (loaded a) h = h a
every_loaded P (failed e) h = tt

every_loaded_bind :
    {A B : Type 0} (P : B → Type 0) (m : Loaded A) (f : A → Loaded B)
    → ((a : A) → LoadedIs P (f a))
    → LoadedIs P (m >>= f)
every_loaded_bind P (loaded a) f h = h a
every_loaded_bind P (failed e) f h = tt

load_string-kept :
    (file : IniFile) (name value : Bytes)
    → is_empty value ≡ false
    → load_string file name value ≡ value
unfolding load_string
load_string-kept file name value h = rw h refl

load_integer-kept :
    (file : IniFile) (name : Bytes) (value : ℤ)
    → LoadedIs (λ r. is_minus_one value ≡ false → r.1 ≡ value) (load_integer file name value)
unfolding load_integer
load_integer-kept file name value = elim (Bool-cases (is_minus_one value)) [
  | inl e ↦
      every_loaded (λ r. is_minus_one value ≡ false → r.1 ≡ value) _ (λ r h. absurd (ground arith))
  | inr e ↦ rw e (λ h. refl)
]

-- what load_config_file() leaves before it reads the sections
abbrev pub Settles : Config → Config → Type 0
Settles config c = Prefers config c × (c.scrobblers ≡ config.scrobblers) × (c.conf ≡ config.conf)

with_numbers-Settles :
    (file : IniFile) (config : Config) (port journal : ℕ) (verbose : ℤ)
    → (is_minus_one config.verbose ≡ false → verbose ≡ config.verbose)
    → Settles config (with_numbers file config port journal verbose)
unfolding with_numbers
with_numbers-Settles file config port journal verbose h = (
  record {
    pidfile = load_string-kept file (codes "pidfile") config.pidfile;
    daemon_user = load_string-kept file (codes "daemon_user") config.daemon_user;
    log = load_string-kept file (codes "log") config.log;
    conf = λ _. refl;
    host = load_string-kept file (codes "host") config.host;
    proxy = load_string-kept file (codes "proxy") config.proxy;
    verbose = h;
  },
  refl,
  refl,
)

pub load_settings-Settles :
    (file : IniFile) (config : Config) → LoadedIs (Settles config) (load_settings file config)
unfolding load_settings
load_settings-Settles file config =
    LoadedIs-bind (λ _. Unit {0}) (Settles config) (load_unsigned file (codes "port") config.port) _
      (every_loaded (λ _. Unit {0}) (load_unsigned file (codes "port") config.port) (λ _. tt))
      (λ (port : Bool × ℕ) _.
        LoadedIs-bind (λ _. Unit {0}) (Settles config)
          (load_unsigned file (codes "journal_interval") config.journal_interval) _
          (every_loaded (λ _. Unit {0})
            (load_unsigned file (codes "journal_interval") config.journal_interval) (λ _. tt))
          (λ (journal : Bool × ℕ) _.
            LoadedIs-bind (λ _. Unit {0}) (Settles config) (load_cache_interval file journal) _
              (every_loaded (λ _. Unit {0}) (load_cache_interval file journal) (λ _. tt))
              (λ (cache : Bool × ℕ) _.
                LoadedIs-bind
                  (λ (r : Bool × ℤ). is_minus_one config.verbose ≡ false → r.1 ≡ config.verbose)
                  (Settles config) (load_integer file (codes "verbose") config.verbose) _
                  (load_integer-kept file (codes "verbose") config.verbose)
                  (λ (verbose : Bool × ℤ) h.
                    with_numbers-Settles file config port.1 cache.1 verbose.1 h))))

to_int_small : (n : ℕ) → n < 2 ^ 31 → to_int (pos n) ≡ pos n
to_int_small n h = ground arith

parse_number_small :
    (text : Bytes) (n : ℕ)
    → strtol text ≡ some (pos n, [])
    → n < 2 ^ 31
    → parse_number text ≡ loaded (pos n)
unfolding parse_number
parse_number_small text n h b = rw (h, parse_number) (ap loaded (to_int_small n b))

load_unsigned_overrides :
    (file : IniFile) (name text : Bytes) (section : IniSection) (old n : ℕ)
    → find [] file ≡ some section
    → find name section ≡ some text
    → strtol (c_str text) ≡ some (pos n, [])
    → n < 2 ^ 31
    → load_unsigned file name old ≡ loaded (true, n)
unfolding load_unsigned load_integer as_unsigned
load_unsigned_overrides file name text section old n f g h b =
    rw f (rw g (rw (parse_number_small (c_str text) n h b, ◌>>=◌) refl))

-- A port in the file replaces the port of the command line, whatever it is.
pub load_settings_port :
    (file : IniFile) (text : Bytes) (section : IniSection) (n : ℕ) (config : Config)
    → find [] file ≡ some section
    → find (codes "port") section ≡ some text
    → strtol (c_str text) ≡ some (pos n, [])
    → n < 2 ^ 31
    → LoadedIs (λ c. c.port ≡ n) (load_settings file config)
unfolding load_settings with_numbers
load_settings_port file text section n config f g h b =
    rw (load_unsigned_overrides file (codes "port") text section config.port n f g h b) (
      every_loaded_bind (λ c. c.port ≡ n)
        (load_unsigned file (codes "journal_interval") config.journal_interval) _
        (λ (journal : Bool × ℕ).
          every_loaded_bind (λ c. c.port ≡ n) (load_cache_interval file journal) _
            (λ (cache : Bool × ℕ).
              every_loaded_bind (λ c. c.port ≡ n)
                (load_integer file (codes "verbose") config.verbose) _ (λ _. refl))))

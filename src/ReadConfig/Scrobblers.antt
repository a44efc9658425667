-- ===== src/ReadConfig/Scrobblers.antt =====
-- The scrobblers of a configuration that was read.
use mpdscribble.Base.{
  ◌≡◌, refl, Bool, true, not, ◌&&◌, ◌||◌, List, [], ◌∷◌, arith, Bytes, codes, is_empty, is_some,
  Bool-cases, inl, inr,
}
use mpdscribble.IniFile.{IniFile, IniSection}
use mpdscribble.IniFile.Maps.{find}
use mpdscribble.ReadConfig.{load_account, load_target, load_scrobbler_config, load_sections}
use mpdscribble.ReadConfig.Types.{Config, Surroundings}
use mpdscribble.ReadConfig.Values.{LoadedIs, LoadedIs-bind}
use mpdscribble.Scrobbler.State.{ScrobblerConfig}

-- A scrobbler has a log file, or a server with an account.
abbrev pub is_usable : ScrobblerConfig → Bool
is_usable s =
    not (is_empty s.file)
    || not (is_empty s.url) && (not (is_empty s.username) && not (is_empty s.password))

abbrev pub AllUsable : List ScrobblerConfig → Type 0
AllUsable [] = Unit
AllUsable (s ∷ scrobblers) = (is_usable s ≡ true) × AllUsable scrobblers

abbrev HasTarget : ScrobblerConfig → Type 0
HasTarget s = (not (is_empty s.file) || not (is_empty s.url)) ≡ true

load_target-HasTarget :
    (section_name : Bytes) (section : IniSection)
    → LoadedIs HasTarget (load_target section_name section)
unfolding load_target
load_target-HasTarget [] section = refl
load_target-HasTarget (c ∷ section_name) section = ground arith

load_account-usable :
    (section : IniSection) (s : ScrobblerConfig)
    → HasTarget s
    → LoadedIs (λ t. is_usable t ≡ true) (load_account section s)
unfolding load_account
load_account-usable section s h = ground arith

load_scrobbler_config-usable :
    (env : Surroundings) (config : Config) (section_name : Bytes) (section : IniSection)
    → LoadedIs (λ t. is_usable t ≡ true) (load_scrobbler_config env config section_name section)
unfolding load_scrobbler_config
load_scrobbler_config-usable env config section_name section =
    LoadedIs-bind HasTarget (λ t. is_usable t ≡ true) (load_target section_name section) _
      (load_target-HasTarget section_name section)
      (λ s h.
        LoadedIs-bind (λ t. is_usable t ≡ true) (λ t. is_usable t ≡ true) (load_account section s) _
          (load_account-usable section s h) (λ t u. u))

-- what the loop over the sections leaves: only the scrobblers change
abbrev pub Fills : Config → Config → Type 0
Fills config c =
    AllUsable c.scrobblers × (record c { scrobblers = [] } ≡ record config { scrobblers = [] })

pub load_sections-Fills :
    (env : Surroundings) (file : IniFile) (config : Config)
    → AllUsable config.scrobblers
    → LoadedIs (Fills config) (load_sections env file config)
unfolding load_sections
load_sections-Fills env [] config v = (v, refl)
load_sections-Fills env ((section_name, section) ∷ file) config v =
    elim (Bool-cases (is_empty section_name && not (is_some (find (codes "username") section)))) [
      | inl e ↦ rw e (load_sections-Fills env file config v)
      | inr e ↦ rw e (
          LoadedIs-bind (λ t. is_usable t ≡ true) (Fills config) _ _
            (load_scrobbler_config-usable env config section_name section)
            (λ s u.
              load_sections-Fills env file (record config { scrobblers = s ∷ config.scrobblers })
                (u, v)))
    ]

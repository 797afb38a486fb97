-- ===== src/TfCfg.antt =====
-- `TestFrameworkCfg` of framework/helpers/tf_cfg.py over the dicts of a `ConfigParser`: names of options
-- are kept in lower case, and the options of the section DEFAULT are those of each section too. Its
-- interpolation of `%` is a parameter.
pub mod Defaults
pub mod Logging
use tempesta_test.Base.{
  Bool, true, false, not, List, [], ◌∷◌, ◌++◌, Option, none, some, if◌then◌else◌, Result, ok, raise,
  ◌>>=◌, ◌>>◌, check, key_error, value_error, plain_exception,
}
use tempesta_test.Text.{Text, codes, same, lower, int_of}
use tempesta_test.Template.{Properties}

abbrev pub Section : Type 0
Section = List (Text × Text)

-- The sections by their names, in their order.
abbrev pub Config : Type 0
Config = List (Text × Section)

-- A dict of texts: what a key has, and what it is given.
module _ {ℓ} {V : Type ℓ} where
  unfoldable pub find : Text → List (Text × V) → Option V
  find k [] = none
  find k ((j, v) ∷ d) = if same j k then some v else find k d

  unfoldable pub put : Text → V → List (Text × V) → List (Text × V)
  put k v [] = (k, v) ∷ []
  put k v ((j, w) ∷ d) = let rest = put k v d in if same j k then (j, v) ∷ d else (j, w) ∷ rest

-- What `BasicInterpolation` makes of a value, among the options of its section, and whether it allows a
-- value to be set.
pub record Interpolation : Type 0 where
  pub before_get : Section → Text → Result Text
  pub before_set : Text → Bool

-- The section DEFAULT is always there.
unfoldable pub section_of : Text → Config → Option Section
unfolding find
section_of name config = elim (find name config) [
  | some s ↦ some s
  | none ↦ if same name (codes "DEFAULT") then some [] else none
]

abbrev pub or_nil : Option Section → Section
or_nil none = []
or_nil (some s) = s

-- The options that a section has, with the defaults behind its own.
unfoldable pub options_of : Section → Config → Section
unfolding section_of
options_of s config = s ++ or_nil (section_of (codes "DEFAULT") config)

-- The value of an option as it stands.
unfoldable pub get_option : Text → Text → Config → Option Text
unfolding options_of section_of find
get_option section opt config = elim (section_of section config) [
  | none ↦ none
  | some s ↦ find (lower opt) (options_of s config)
]

-- `populate_properties`: `user_properties.update(kvs)`.
unfoldable pub populate_properties : Properties → Properties → Properties
unfolding put
populate_properties [] user = user
populate_properties ((k, v) ∷ kvs) user = populate_properties kvs (put k v user)

module _ (p : Interpolation) where
  -- `get`, and `self.config[section][opt]`
  unfoldable pub get : Text → Text → Config → Result Text
  unfolding get_option options_of section_of
  get section opt config = elim (get_option section opt config) [
    | none ↦ raise key_error
    | some v ↦ p.before_get (options_of (or_nil (section_of section config)) config) v
  ]

  -- `set_option`
  unfoldable pub set_option : Text → Text → Text → Config → Result Config
  unfolding section_of put
  set_option section opt value config = elim (section_of section config) [
    | none ↦ raise key_error
    | some s ↦
        check (p.before_set value) value_error >> ok (put section (put (lower opt) value s) config)
  ]

  -- `get_binary`
  unfoldable pub get_binary : Text → Text → Config → Result Text
  unfolding get_option get
  get_binary section binary config = elim (get_option section binary config) [
    | none ↦ ok binary
    | some v ↦ get section binary config
  ]

  -- `set_duration`: whether the value is a number, with the configuration then.
  unfoldable pub set_duration : Text → Config → Result (Bool × Config)
  unfolding set_option
  set_duration val config = elim (int_of 10 val) [
    | none ↦ ok (false, config)
    | some n ↦ set_option (codes "General") (codes "Duration") val config >>= λ c. ok (true, c)
  ]

  -- The loop over the keys of a section.
  unfoldable pub section_kvs : Text → Config → Section → Properties → Result Properties
  unfolding get put
  section_kvs section config [] kvs = ok kvs
  section_kvs section config ((key, raw) ∷ l) kvs = get section key config >>= λ value.
      section_kvs section config l (put (lower section ++ codes "_" ++ key) value kvs)

  unfoldable pub sections_kvs : List Text → Config → Properties → Result Properties
  unfolding section_kvs section_of options_of
  sections_kvs [] config kvs = ok kvs
  sections_kvs (name ∷ l) config kvs = elim (section_of name config) [
    | none ↦ raise key_error
    | some s ↦ section_kvs name config (options_of s config) kvs >>= sections_kvs l config
  ]

  -- `__fill_kvs`
  unfoldable pub fill_kvs : Config → Properties → Result Properties
  unfolding sections_kvs
  fill_kvs = sections_kvs (
      codes "General"
      ∷ codes "Client"
      ∷ codes "Tempesta"
      ∷ codes "Server"
      ∷ codes "TFW_Logger"
      ∷ [])

  -- A list of options that are set one after the other.
  unfoldable pub set_options : List (Text × Text × Text) → Config → Result Config
  unfolding set_option
  set_options [] config = ok config
  set_options ((section, opt, value) ∷ l) config =
      set_option section opt value config >>= λ c. set_options l c

  -- `__update_config_for_remote_setup`, with the four variables of the environment; `sys.exit` is
  -- `plain_exception` here.
  unfoldable pub update_config_for_remote_setup :
      Option Text → Option Text → Option Text → Option Text → Config → Result Config
  unfolding set_options
  update_config_for_remote_setup (some host_ip) (some host_ipv6) (some remote_ip)
        (some remote_ipv6) =
      set_options (
        (codes "General", codes "ip", remote_ip)
        ∷ (codes "General", codes "ipv6", remote_ipv6)
        ∷ (codes "Client", codes "ip", remote_ip)
        ∷ (codes "Client", codes "ipv6", remote_ipv6)
        ∷ (codes "Tempesta", codes "ip", host_ip)
        ∷ (codes "Tempesta", codes "ipv6", host_ipv6)
        ∷ (codes "Tempesta", codes "hostname", host_ip)
        ∷ (codes "Server", codes "ip", remote_ip)
        ∷ (codes "Server", codes "ipv6", remote_ipv6)
        ∷ (codes "TFW_Logger", codes "clickhouse_host", host_ip)
        ∷ [])
  update_config_for_remote_setup _ _ _ _ = λ config. raise plain_exception

  -- The loop of `check`, with `os.path.normpath`.
  unfoldable pub normalize : (Text → Text) → List (Text × Text) → Config → Result Config
  unfolding get set_option
  normalize normpath [] config = ok config
  normalize normpath ((section, opt) ∷ l) config = do
    path ← get section opt config
    c ← set_option section opt (normpath path) config
    normalize normpath l c

  -- `check`, where the configuration was read or not; `ConfigError` is `plain_exception` here.
  unfoldable pub check_config : (Text → Text) → Bool → Config → Result Config
  unfolding normalize get
  check_config normpath was_read config = do
    check was_read plain_exception
    c ←
        normalize normpath
          ((codes "Client", codes "workdir")
            ∷ (codes "Tempesta", codes "workdir")
            ∷ (codes "Tempesta", codes "srcdir")
            ∷ (codes "Server", codes "workdir")
            ∷ [])
          config
    hostname ← get (codes "Client") (codes "hostname") c
    check (same hostname (codes "localhost")) plain_exception >> ok c

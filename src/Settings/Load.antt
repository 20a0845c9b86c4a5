-- ===== src/Settings/Load.antt =====
-- Load of internal/config/config.go. The environment, the file system and the YAML library are
-- parameters.
use wb_test_task.Base.{◌≡◌, refl, sym, Option, none, some, if◌then◌else◌}
use wb_test_task.Base.Text.{Text, codes}
use wb_test_task.Runtime.{Error, Result, ok, err}
use wb_test_task.Normalizer.{is_empty}
use wb_test_task.Settings.{Settings, Problem, default_config, validate}

pub data LoadResult : Type 0 where
  loaded : Settings → LoadResult
  unreadable unparsable : Text → Error → LoadResult
  invalid : Problem → LoadResult

-- The environment variable CONFIG_PATH, os.ReadFile, and yaml.Unmarshal into a configuration.
pub record Sources : Type 0 where
  pub config_path : Text
  pub read_file : Text → Result Text
  pub unmarshal : Text → Settings → Result Settings

abbrev validated : Settings → Option Problem → LoadResult
validated c none = loaded c
validated c (some problem) = invalid problem

abbrev unmarshalled : Text → Result Settings → LoadResult
unmarshalled path (err e) = unparsable path e
unmarshalled path (ok c) = validated c (validate c)

abbrev after_read : Sources → Text → Result Text → LoadResult
after_read sources path (err e) = unreadable path e
after_read sources path (ok text) = unmarshalled path (sources.unmarshal text default_config)

-- Load
unfoldable pub load_config : Sources → Text → LoadResult
unfolding validate default_config
load_config sources path =
    let given = if is_empty path then sources.config_path else path in
    let chosen = if is_empty given then codes "config.example.yaml" else given in
    after_read sources chosen (sources.read_file chosen)

-- What Load gives has been validated.
pub load_config-validate :
    (sources : Sources) (path : Text) (c : Settings)
    → load_config sources path ≡ loaded c
    → validate c ≡ none
unfolding load_config
load_config-validate sources path c h = from_read (sources.read_file chosen) h
  where
    given : Text
    given = if is_empty path then sources.config_path else path

    chosen : Text
    chosen = if is_empty given then codes "config.example.yaml" else given

    from_validated :
        (d : Settings) (o : Option Problem)
        → validate d ≡ o
        → validated d o ≡ loaded c
        → validate c ≡ none
    from_validated d none e k = let same : d ≡ c = cc in rw (sym same) e
    from_validated d (some problem) e k = cc

    from_unmarshalled : (r : Result Settings) → unmarshalled chosen r ≡ loaded c → validate c ≡ none
    from_unmarshalled (err e) k = cc
    from_unmarshalled (ok d) k = from_validated d (validate d) refl k

    from_read : (r : Result Text) → after_read sources chosen r ≡ loaded c → validate c ≡ none
    from_read (err e) k = cc
    from_read (ok text) k = from_unmarshalled (sources.unmarshal text default_config) k

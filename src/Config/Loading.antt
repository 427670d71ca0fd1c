-- ===== src/Config/Loading.antt =====
-- internal/config/config.go, `Load` and `LoadFromFile`: what is done with the outcomes of viper, which
-- are arguments.
use syncmesh.Common.{◌⊎◌, inl, inr, String, Option, maybe, ◌==◌, if◌then◌else◌}
use syncmesh.Config.{Config}
use syncmesh.Config.Validation.{ConfigError, validate}

pub data ReadResult : Type 0 where
  read not_found failed : ReadResult

pub data LoadError : Type 0 where
  not_read not_unmarshalled : LoadError
  not_valid : ConfigError → LoadError

unfoldable pub checked_config : Config → LoadError ⊎ Config
checked_config c = maybe (validate c) (inr c) λ e. inl (LoadError.not_valid e)

-- `Load`: a missing file is no error; `generated` is the id made of the host's name and the process's.
unfoldable pub load : ReadResult → Option Config → String → LoadError ⊎ Config
load ReadResult.failed unmarshalled generated = inl LoadError.not_read
load _ unmarshalled generated =
    maybe unmarshalled (inl LoadError.not_unmarshalled)
      λ c. checked_config (record c { node_id = if c.node_id == "" then generated else c.node_id })

-- `LoadFromFile`, which makes no id.
unfoldable pub load_from_file : ReadResult → Option Config → LoadError ⊎ Config
load_from_file ReadResult.read unmarshalled =
    maybe unmarshalled (inl LoadError.not_unmarshalled) checked_config
load_from_file _ unmarshalled = inl LoadError.not_read

-- ===== src/Startup/Load.antt =====
-- `LoadJoinConfig` of internal/config/config.go and `loadProcessorConfig` of cmd/processor/main.go.
pub mod Paths
use confluo.Prelude.{
  Text, Option, none, some, List, [], ◌∷◌, ltb, length, is_empty, not, ◌&&◌, is_some, if◌then◌else◌,
}
use confluo.Fault.{Result, ok, err, text, wrapf, ◌>>=◌}
use confluo.Config.{JoinConfig, ProcessorConfig}

-- What the files hold, by their paths, and `json.Unmarshal` into the two types.
pub record Sources : Type 0 where
  pub read_file : Text → Result Text
  pub unmarshal_join : Text → Result JoinConfig
  pub unmarshal_processor : Text → Result ProcessorConfig

-- An error that is wrapped with the path.
abbrev pub naming {ℓ} : {A : Type ℓ} → confluo.Prelude.String → Text → Result A → Result A
naming format path (ok a) = ok a
naming format path (err e) = err (wrapf format (text path ∷ []) e)

-- `LoadJoinConfig`
unfoldable pub load_join_config : Sources → Text → Result JoinConfig
load_join_config f path = naming "load join config from %s" path (f.read_file path) >>= λ contents.
    naming "load join config from %s" path (f.unmarshal_join contents)

-- The loop over `config_paths`, which appends to the configurations so far.
unfoldable pub load_paths : Sources → List Text → Result (List (Option JoinConfig))
unfolding load_join_config
load_paths f [] = ok []
load_paths f (p ∷ ps) = naming "load %s" p (load_join_config f p) >>= λ jc.
    load_paths f ps >>= λ jcs. ok (some jc ∷ jcs)

abbrev pub with_single : Sources → ProcessorConfig → Result ProcessorConfig
with_single f cfg =
    if not (is_some cfg.join_config) && not (is_empty cfg.config_path)
    then (load_join_config f cfg.config_path >>= λ jc. ok (record cfg { join_config = some jc }))
    else ok cfg

abbrev pub with_several : Sources → ProcessorConfig → Result ProcessorConfig
with_several f cfg =
    if is_empty cfg.join_configs && not (is_empty cfg.config_paths)
    then (load_paths f cfg.config_paths >>= λ jcs. ok (record cfg { join_configs = jcs }))
    else ok cfg

-- `loadProcessorConfig`
unfoldable pub load_processor_config : Sources → Text → Result ProcessorConfig
unfolding load_paths
load_processor_config f path = f.read_file path >>= λ contents.
    f.unmarshal_processor contents >>= λ cfg. with_single f cfg >>= λ cfg1. with_several f cfg1

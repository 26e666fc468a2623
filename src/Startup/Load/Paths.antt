-- ===== src/Startup/Load/Paths.antt =====
-- Where the configurations of a loaded processor come from.
use confluo.Prelude.{
  ◌≡◌, refl, sym, ap, ◌∙◌, Text, Option, none, some, List, [], ◌∷◌, is_empty, true, false,
  Bool-cases, arith, inl, inr,
}
use mathlib.Core.Path.{subst}
use confluo.Fault.{ok, Result-cases}
use confluo.Config.{JoinConfig, ProcessorConfig}
use confluo.Startup.Load.{
  Sources, load_join_config, load_paths, load_processor_config, with_single, with_several,
}

-- Each configuration is that of the path at its place.
abbrev pub ComeFrom : Sources → List Text → List (Option JoinConfig) → Type 0
ComeFrom f [] [] = Unit
ComeFrom f (p ∷ ps) (some jc ∷ jcs) = (load_join_config f p ≡ ok jc) × ComeFrom f ps jcs
ComeFrom f _ _ = ⊥

load_paths-ComeFrom :
    (f : Sources) (ps : List Text) (jcs : List (Option JoinConfig))
    → load_paths f ps ≡ ok jcs
    → ComeFrom f ps jcs
unfolding load_paths
load_paths-ComeFrom f [] [] e = tt
load_paths-ComeFrom f [] (o ∷ os) e = cc
load_paths-ComeFrom f (p ∷ ps) jcs e = elim (Result-cases (load_join_config f p)) [
  | inl (jc, l) ↦ elim (Result-cases (load_paths f ps)) [
    | inl (rest, r) ↦
        let same : some jc ∷ rest ≡ jcs = ground (arith, l, r) in
        rw (← same) (l, load_paths-ComeFrom f ps rest r)
    | inr (x, r) ↦ absurd (ground (arith, l, r))
  ]
  | inr (x, l) ↦ absurd (ground (arith, l))
]

-- The configuration of a single join: inline, or that of `config_path`, or none.
abbrev pub SingleFrom : Sources → Text → Option JoinConfig → Option JoinConfig → Type 0
SingleFrom f path (some jc) o = o ≡ some jc
SingleFrom f path none none = is_empty path ≡ true
SingleFrom f path none (some jc) = (is_empty path ≡ false) × (load_join_config f path ≡ ok jc)

-- The configurations of several joins: inline, or those of `config_paths`, in order.
abbrev pub SeveralFrom :
    Sources → List Text → List (Option JoinConfig) → List (Option JoinConfig) → Type 0
SeveralFrom f paths [] os = ComeFrom f paths os
SeveralFrom f paths (o ∷ os) os' = os' ≡ o ∷ os

-- What is loaded is the file's configuration with the two join settings filled in.
pub record LoadedFrom (f : Sources) (path : Text) (cfg : ProcessorConfig) : Type 0 where
  pub raw : ProcessorConfig
  pub contents : Text
  pub read : f.read_file path ≡ ok contents
  pub parsed : f.unmarshal_processor contents ≡ ok raw
  pub filled : cfg ≡ record raw { join_config = cfg.join_config; join_configs = cfg.join_configs }
  pub single : SingleFrom f raw.config_path raw.join_config cfg.join_config
  pub several : SeveralFrom f raw.config_paths raw.join_configs cfg.join_configs

single_lem :
    (f : Sources) (raw cfg1 : ProcessorConfig) (o : Option JoinConfig)
    → raw.join_config ≡ o
    → with_single f raw ≡ ok cfg1
    → (cfg1 ≡ record raw { join_config = cfg1.join_config })
      × SingleFrom f raw.config_path o cfg1.join_config
single_lem f raw cfg1 (some jc) e h =
    let same : raw ≡ cfg1 = ground (arith, e) in rw (← same) (refl, e)
single_lem f raw cfg1 none e h = elim (Bool-cases (is_empty raw.config_path)) [
  | inl blank ↦ let same : raw ≡ cfg1 = ground (arith, e, blank) in rw (← same) (refl, rw e blank)
  | inr path ↦ elim (Result-cases (load_join_config f raw.config_path)) [
    | inl (jc, l) ↦
        let same : record raw { join_config = some jc } ≡ cfg1 = ground (arith, e, path, l) in
        rw (← same) (refl, (path, l))
    | inr (x, l) ↦ absurd (ground (arith, e, path, l))
  ]
]

several_lem :
    (f : Sources) (raw cfg : ProcessorConfig) (os : List (Option JoinConfig))
    → raw.join_configs ≡ os
    → with_several f raw ≡ ok cfg
    → (cfg ≡ record raw { join_configs = cfg.join_configs })
      × SeveralFrom f raw.config_paths os cfg.join_configs
several_lem f raw cfg (o ∷ os) e h =
    let same : raw ≡ cfg = ground (arith, e) in rw (← same) (refl, e)
several_lem f raw cfg [] e h = elim (Bool-cases (is_empty raw.config_paths)) [
  | inl blank ↦
      let same : raw ≡ cfg = ground (arith, e, blank) in
      rw (← same) (refl, rw e (empty_paths raw.config_paths blank))
  | inr paths ↦ elim (Result-cases (load_paths f raw.config_paths)) [
    | inl (jcs, l) ↦
        let same : record raw { join_configs = jcs } ≡ cfg = ground (arith, e, paths, l) in
        rw (← same) (refl, load_paths-ComeFrom f raw.config_paths jcs l)
    | inr (x, l) ↦ absurd (ground (arith, e, paths, l))
  ]
]
  where
    empty_paths : (ps : List Text) → is_empty ps ≡ true → ComeFrom f ps []
    empty_paths [] b = tt
    empty_paths (p ∷ ps) b = cc

-- A configuration that `loadProcessorConfig` returns is that of the file with the join settings
-- filled in: an inline setting stays, and without one the join comes from `config_path` if this is
-- given, and the several joins from `config_paths`, one for each path and in order.
pub load_processor_config-LoadedFrom :
    (f : Sources) (path : Text) (cfg : ProcessorConfig)
    → load_processor_config f path ≡ ok cfg
    → LoadedFrom f path cfg
unfolding load_processor_config
load_processor_config-LoadedFrom f path cfg h = elim (Result-cases (f.read_file path)) [
  | inr (x, e) ↦ absurd (ground (arith, e))
  | inl (contents, e) ↦ elim (Result-cases (f.unmarshal_processor contents)) [
    | inr (x, u) ↦ absurd (ground (arith, e, u))
    | inl (raw, u) ↦ elim (Result-cases (with_single f raw)) [
      | inr (x, s) ↦ absurd (ground (arith, e, u, s))
      | inl (cfg1, s) ↦
          let (p, q) = single_lem f raw cfg1 raw.join_config refl s in
          let (r, t) = several_lem f cfg1 cfg cfg1.join_configs refl (ground (arith, e, u, s)) in
          let same = ap (λ (c : ProcessorConfig). c.join_config) r in
          record {
            raw = raw;
            contents = contents;
            read = e;
            parsed = u;
            filled =
                r
                ∙ ap (λ (c : ProcessorConfig). record c { join_configs = cfg.join_configs }) p
                ∙ ap (λ o. record raw { join_config = o; join_configs = cfg.join_configs })
                    (sym same);
            single = rw same q;
            several =
                subst
                  (λ (c : ProcessorConfig).
                    SeveralFrom f c.config_paths c.join_configs cfg.join_configs)
                  p t;
          }
    ]
  ]
]

-- ===== src/Startup/Check.antt =====
-- The checks at the start of `run` in cmd/processor/main.go.
use confluo.Prelude.{
  ◌≡◌, ◌↔◌, refl, arith, Bool, true, false, Option, none, some, List, [], ◌∷◌, is_empty, inl, inr,
  if◌then◌else◌,
}
use confluo.Fault.{Error, errorf, text, Result, ok, err, wrapf, Result-cases}
use confluo.Config.{JoinConfig, ProcessorConfig, multi_config}
use confluo.Config.Validate.{validate_join_config}
use confluo.Config.Validate.Sound.{IsValid, validate_join_config-IsValid}

-- `log.Fatal` ends the process with a message; a nil pointer that is read ends it with a panic.
pub data Check : Type 0 where
  passes : Check
  fatal : Error → Check
  panics : Check

-- `log.Fatalf("invalid join config %q: %v", jc.Name, err)`, which reads the name through the pointer.
abbrev pub after_invalid : Option JoinConfig → Error → Check
after_invalid none e = panics
after_invalid (some jc) e = fatal (wrapf "invalid join config %q" (text jc.name ∷ []) e)

abbrev pub after_validation : Option JoinConfig → Result (Unit {0}) → Check → Check
after_validation o (ok u) rest = rest
after_validation o (err e) rest = after_invalid o e

unfoldable pub check_several : List (Option JoinConfig) → Check
check_several [] = passes
check_several (o ∷ os) = after_validation o (validate_join_config o) (check_several os)

abbrev pub after_single : Result (Unit {0}) → Check
after_single (ok u) = passes
after_single (err e) = fatal (wrapf "invalid join config" [] e)

abbrev pub check_single : Option JoinConfig → Check
check_single none = fatal (errorf "join_config or config_path required" [])
check_single (some jc) = after_single (validate_join_config (some jc))

unfoldable pub check_config : ProcessorConfig → Check
unfolding check_several multi_config
check_config cfg =
    if multi_config cfg
    then (if is_empty cfg.join_configs
        then fatal (errorf "join_configs or config_paths required for multi-config" [])
        else check_several cfg.join_configs)
    else check_single cfg.join_config

abbrev pub AllValid : List (Option JoinConfig) → Type 0
AllValid [] = Unit
AllValid (none ∷ os) = ⊥
AllValid (some jc ∷ os) = IsValid jc × AllValid os

-- Every configuration that the processor will serve is there and keeps the rules.
abbrev pub IsServed : Bool → ProcessorConfig → Type 0
IsServed true cfg = AllValid cfg.join_configs
IsServed false cfg = (jc : JoinConfig) × (cfg.join_config ≡ some jc) × IsValid jc

nil_fails : (os : List (Option JoinConfig)) → check_several (none ∷ os) ≡ panics
unfolding check_several validate_join_config
nil_fails os = refl

several_valid : (os : List (Option JoinConfig)) → check_several os ≡ passes → AllValid os
unfolding check_several
several_valid [] h = tt
several_valid (none ∷ os) h = cc (nil_fails os, h)
several_valid (some jc ∷ os) h = elim (Result-cases (validate_join_config (some jc))) [
  | inl (u, v) ↦ ((validate_join_config-IsValid jc).0 v, several_valid os (rw v at h))
  | inr (e, v) ↦ cc (rw v at h)
]

valid_several : (os : List (Option JoinConfig)) → AllValid os → check_several os ≡ passes
unfolding check_several
valid_several [] h = refl
valid_several (none ∷ os) h = absurd h
valid_several (some jc ∷ os) h = rw ((validate_join_config-IsValid jc).1 h.0) (valid_several os h.1)

check_single-IsValid :
    (o : Option JoinConfig)
    → check_single o ≡ passes ↔ ((jc : JoinConfig) × (o ≡ some jc) × IsValid jc)
check_single-IsValid none = ((λ h. cc), (λ v. cc (v.1)))
check_single-IsValid (some jc) = elim (Result-cases (validate_join_config (some jc))) [
  | inl (u, v) ↦ ((λ h. (jc, refl, (validate_join_config-IsValid jc).0 v)), (λ x. rw v refl))
  | inr (e, v) ↦ (
    (λ h. cc (rw v at h)),
    (λ x.
        let same : x.0 ≡ jc = ground (arith, x.1) in
        cc ((validate_join_config-IsValid jc).1 (rw same at (x.2)))),
  )
]

not_empty : (cfg : ProcessorConfig) → multi_config cfg ≡ true → is_empty cfg.join_configs ≡ false
unfolding multi_config
not_empty cfg e = ground arith

served :
    (cfg : ProcessorConfig) (b : Bool)
    → multi_config cfg ≡ b
    → check_config cfg ≡ passes ↔ IsServed b cfg
unfolding check_config
served cfg true e =
    let filled = not_empty cfg e in
    rw (e, filled) (several_valid cfg.join_configs, valid_several cfg.join_configs)
served cfg false e = rw e (check_single-IsValid cfg.join_config)

-- The checks pass exactly when every configuration that the processor will serve is there and valid:
-- the several ones if there are any, and otherwise the single one.
pub check_config-IsServed :
    (cfg : ProcessorConfig) → check_config cfg ≡ passes ↔ IsServed (multi_config cfg) cfg
check_config-IsServed cfg = served cfg (multi_config cfg) refl

-- ===== src/Logger/Global.antt =====
-- The global logger of internal/logger/logger.go, which the parts use that are given none: it starts
-- as a default, and `SetGlobal` replaces it. The lock of `SetGlobal` makes one step of it.
use confluo.Prelude.{
  ℕ, Text, ◌≡◌, ◌≤◌, true, is_some, codes, Option, none, some, List, [], ◌∷◌, arith,
}
use confluo.Logger.{Impl, Formatting, Anys, log_drops_pairs, level_info, level_error}
use confluo.Logger.Methods.{methods, new_from_env, level_le}

-- `Global` at the start.
abbrev pub default_logger : Impl
default_logger = record { level = level_info; format = codes "text" }

-- `SetGlobal`
abbrev set_global : Impl → Impl → Impl
set_global l global = l

-- What the parts of the process do with the loggers of this package.
pub data Use : Type 0 where
  from_env : Text → Text → Use
  makes : ℕ → Text → Use

-- The global logger behind one use: `NewFromEnv` sets it, and `New` leaves it.
abbrev use_step : (Text → Text) → Use → Impl → Impl
use_step normalise (from_env log_level log_format) global =
    set_global (new_from_env normalise log_level log_format) global
use_step normalise (makes level format) global = global

-- The global logger behind some uses, newest first.
unfoldable pub global_after : (Text → Text) → List Use → Impl
global_after normalise [] = default_logger
global_after normalise (u ∷ us) = use_step normalise u (global_after normalise us)

-- `if log == nil { log = logger.Global }`
abbrev pub or_global : Impl → Option Impl → Impl
or_global global none = global
or_global global (some l) = l

module _ (normalise : Text → Text) where
  global_level : (us : List Use) → (global_after normalise us).level ≤ level_error
  unfolding global_after
  global_level [] = omega arith
  global_level (from_env a b ∷ us) = level_le normalise a b
  global_level (makes l f ∷ us) = global_level us

  -- However often the process makes loggers from an environment or with a level, even with one above
  -- all messages: a part that is given no logger writes every error.
  pub or_global_errors :
      (us : List Use) (f : Formatting) (msg : Text) (keyvals : Anys)
      → is_some ((methods f (or_global (global_after normalise us) none)).error msg keyvals) ≡ true
  unfolding methods
  or_global_errors us f msg keyvals = ground (
    arith,
    (log_drops_pairs f (global_after normalise us) level_error (codes "error") msg keyvals).0,
    global_level us,
  )

-- ===== src/Runtime/Settings.antt =====
-- The settings of core/runtime.py, and `build_runtime`. `float(text)` and `repr(text)` are arguments.
use trilith.Prelude.{
  ℕ, String, ◌<>◌, Bool, false, List, [], ◌∷◌, Option, none, some, any, is_empty, if◌then◌else◌,
  ◌==◌, string_eq, strip,
}
use trilith.Exec.{Error, Result, ok, err, value_error, ◌>>=◌}
use trilith.Python.{Python}
use trilith.Floats.{Floats}
use trilith.Database.{Db}
use trilith.Database.Backend.{purge_expired}
use trilith.Events.{EventLog}
use trilith.Runtime.{Runtime}

-- `db or os.environ.get("TRILITH_DB_PATH", "trilith.db")`
unfoldable pub resolve_db_path : Option String → Option String → String
resolve_db_path db env = elim (given db) [
  | some path ↦ path
  | none ↦ elim env [ none ↦ "trilith.db" | some path ↦ path ]
]
  where
    given : Option String → Option String
    given none = none
    given (some path) = if is_empty path then none else some path

-- the argument of `AuthEnforcer`, or the environment
unfoldable pub resolve_require_auth : Python → Option Bool → Option String → Bool
resolve_require_auth py (some b) env = b
resolve_require_auth py none none = false
resolve_require_auth py none (some flag) =
    any (λ s. s == py.lower flag) ("1" ∷ "true" ∷ "yes" ∷ "on" ∷ [])

-- the spellings that mean no floor
abbrev floor_disabled : List String
floor_disabled = "off" ∷ "none" ∷ "disabled" ∷ "-inf" ∷ "-infinity" ∷ []

module _ (fl : Floats) (py : Python) (minus_infinity : fl.F) (parse_float : String → Option fl.F)
    (repr : String → String) where
  open fl use {F, zero as nought}

  abbrev invalid_floor : String → Error
  invalid_floor raw = value_error (
      "min score must be a number, or one of ['-inf', '-infinity', 'disabled', 'none', 'off']; got "
      <> repr raw)

  abbrev read_number : String → Option F → Result F
  read_number raw none = err (invalid_floor raw)
  read_number raw (some x) = ok x

  unfoldable pub parse_min_score : String → Result F
  parse_min_score raw =
      let spelling = py.lower (strip raw) in
      if any (λ s. s == spelling) floor_disabled
      then ok minus_infinity
      else read_number raw (parse_float spelling)

  abbrev blamed : Result F → Result F
  blamed (ok x) = ok x
  blamed (err (value_error reason)) = err (value_error ("TRILITH_MIN_SCORE is invalid: " <> reason))
  blamed (err e) = err e

  -- from the argument, the environment, or the default
  unfoldable pub resolve_min_score : Option F → Option String → Result F
  resolve_min_score (some x) env = ok x
  resolve_min_score none none = ok nought
  resolve_min_score none (some raw) =
      if is_empty (strip raw) then ok nought else blamed (parse_min_score (strip raw))

  -- What `build_runtime` makes of its settings over an opened database: the runtime, the floor of the
  -- governor, and whether auth is required. Rows that have expired are deleted at the start.
  unfoldable pub build_runtime :
      ℕ
      → Option Bool
      → Option F
      → (String → Option String)
      → EventLog
      → Db
      → Result (Runtime × (F × Bool))
  build_runtime now require_auth min_score env events db = do
    floor ← resolve_min_score min_score (env "TRILITH_MIN_SCORE")
    ok (
      record { db = (purge_expired now none db).0; events = events },
      (floor, resolve_require_auth py require_auth (env "TRILITH_REQUIRE_AUTH")),
    )

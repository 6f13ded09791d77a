-- ===== src/Util/Context.antt =====
-- pkg/util/context.go and pkg/util/log.go. A context is the list of its values, the last one first;
-- what zerolog says of a logger is an argument.
use integresql.Prelude.{Bool, false, Option, none, some, ◌∷◌, Text, codes, if◌then◌else◌}
use integresql.Prelude.Assoc.{Assoc, lookup}

-- A value of a context: a string, a bool, or of another type.
pub data Value : Type 0 where
  text : Text → Value
  boolean : Bool → Value
  other : Value

abbrev pub Context : Type 0
Context = Assoc Value

-- `RequestIDFromContext`: none where it returns an error.
unfoldable pub request_id_from_context : Context → Option Text
unfolding lookup
request_id_from_context ctx = elim (lookup (codes "request_id") ctx) [
  | some (text id) ↦ some id
  | _ ↦ none
]

unfoldable pub should_disable_logger : Context → Bool
unfolding lookup
should_disable_logger ctx = elim (lookup (codes "disable_logger") ctx) [
  | some (boolean should_disable) ↦ should_disable
  | _ ↦ false
]

unfoldable pub disable_logger : Context → Bool → Context
disable_logger ctx should_disable = (codes "disable_logger", boolean should_disable) ∷ ctx

-- `LogFromContext`: `l` is the logger of the context, and `disabled` whether its level is.
unfoldable pub log_from_context {ℓ} : {Logger : Type ℓ} → Logger → Logger → Bool → Context → Logger
unfolding should_disable_logger
log_from_context global l disabled ctx =
    if disabled then (if should_disable_logger ctx then l else global) else l

-- `LogLevelFromString`, with `zerolog.ParseLevel` and its debug level.
unfoldable pub log_level_from_string {ℓ} :
    {Level : Type ℓ} → (Text → Option Level) → Level → Text → Level
log_level_from_string parse_level debug s = elim (parse_level s) [ some l ↦ l | none ↦ debug ]

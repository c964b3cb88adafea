-- ===== src/Pro5/Commands.antt =====
-- The commands of pro5.py: `read_toml`, `schema_probe` and `main`. Files and processes are
-- parameters. The limits on time are left out, except the check of the argument.
use durable_threads.Prelude.{
  ℕ, Text, lit, Bool, true, false, not, ◌&&◌, ◌||◌, Option, none, some, List, [], ◌∷◌, ok, err,
  ◌>>=◌, ◌>>◌, raise_if, if◌then◌else◌, ℤ, pos, ltb, leb_ℤ, eq_ℤ, starts_with,
}
use durable_threads.Errors.{
  Error, Res, value_error, os_error, runtime_error, class_name, is_value_error,
}
use durable_threads.Json.{Json}
use durable_threads.Pro5.Audit.{Audit, audit_config}
use durable_threads.Pro5.Rpc.{Message, Line, opened}
use durable_threads.Pro5.Probe.{ProbeResult, probe_metadata}

-- A file of TOML: its size, and its table once it is read.
pub record TomlFile : Type 0 where
  pub size : Res ℕ
  pub table : Res Json

unfoldable pub read_toml : TomlFile → Res Json
read_toml file = do
  size ← file.size
  raise_if (ltb 2000000 size) (value_error "configuration is too large")
  file.table

-- `needle in text`.
unfoldable pub is_within : Text → Text → Bool
unfolding starts_with
is_within needle [] = starts_with [] needle
is_within needle (c ∷ t) = starts_with (c ∷ t) needle || is_within needle t

-- The files of the schema: the size of each, and its text once it is read.
unfoldable pub any_mention : Text → List (ℕ × Res Text) → Res Bool
unfolding is_within
any_mention needle [] = ok false
any_mention needle ((size, content) ∷ files) =
    let rest = any_mention needle files in
    if ltb size 20000000
    then (do text ← content; if is_within needle text then ok true else rest)
    else rest

pub data Schema : Type 0 where
  unavailable : Schema
  schema_only : Bool → Schema

-- `schema_probe`, with the exit code of the process and the files that it wrote.
unfoldable pub schema_probe : Res ℤ → List (ℕ × Res Text) → Res Schema
unfolding any_mention lit
schema_probe (err e) files = err e
schema_probe (ok code) files =
    if eq_ℤ code (pos 0)
    then (do found ← any_mention (lit "turn/settings/update") files; ok (schema_only found))
    else ok unavailable

pub data Command : Type 0 where
  profile : Command
  schema : Res ℤ → List (ℕ × Res Text) → Command
  audit : TomlFile → Option Text → Command
  -- The limit on time in thousandths of a second, and the schema that is asked for with it.
  probe : (List Message → ℕ → Line) → ℤ → Option (Res ℤ × List (ℕ × Res Text)) → Command

-- What a command prints: a result, or the class of what it raised.
pub data Printed : Type 0 where
  profiles : Printed
  schema_report : Schema → Printed
  audit_report : Audit → Printed
  probe_report : ProbeResult → Option Schema → Printed
  failure : Text → Printed

abbrev requested_schema : Option (Res ℤ × List (ℕ × Res Text)) → Res (Option Schema)
requested_schema none = ok none
requested_schema (some (exit, files)) = do s ← schema_probe exit files; ok (some s)

-- The body of the `try`.
unfoldable pub run_command : ℤ → Command → Res Printed
unfolding schema_probe read_toml audit_config probe_metadata
run_command now profile = ok profiles
run_command now (schema exit files) = do s ← schema_probe exit files; ok (schema_report s)
run_command now (audit file name) = do
  config ← read_toml file
  a ← audit_config config name
  ok (audit_report a)
run_command now (probe process timeout wanted) = do
  raise_if (not (leb_ℤ (pos 1000) timeout && leb_ℤ timeout (pos 120000)))
      (value_error "timeout must be between 1 and 120 seconds")
  r ← (probe_metadata process now opened).0
  s ← requested_schema wanted
  ok (probe_report r s)

-- `except (OSError, RuntimeError, ValueError, ...)`.
unfoldable pub is_reported : Error → Bool
unfolding is_value_error
is_reported (os_error m) = true
is_reported (runtime_error m) = true
is_reported e = is_value_error e

-- `main`: the exit code and what is printed; an exception of another class leaves it.
unfoldable pub main : ℤ → Command → Res (ℤ × Printed)
unfolding run_command is_reported class_name lit
main now command = settled (run_command now command)
  where
    settled : Res Printed → Res (ℤ × Printed)
    settled (ok printed) = ok (pos 0, printed)
    settled (err e) = if is_reported e then ok (pos 2, failure (lit (class_name e))) else err e

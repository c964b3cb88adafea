-- ===== src/Errors.antt =====
-- The exceptions of the package, one constructor for a class. An exception keeps the fixed part of its message; the values
-- that an f-string puts into it are left out.
use durable_threads.Prelude.{String, Bool, true, false, Result}

pub data Error : Type 0 where
  value_error type_error key_error index_error runtime_error os_error : String → Error
  decision_error execution_error evidence_error packet_error config_error : String → Error
  provider_error ledger_busy_error ledger_state_error overflow_error : String → Error

abbrev pub Res {ℓ} : Type ℓ → Type ℓ
Res A = Result Error A

-- `except ValueError`: the subclasses of `ValueError` that the package declares are caught too.
unfoldable pub is_value_error : Error → Bool
is_value_error (value_error m) = true
is_value_error (evidence_error m) = true
is_value_error (packet_error m) = true
is_value_error (config_error m) = true
is_value_error (provider_error m) = true
is_value_error (ledger_state_error m) = true
is_value_error e = false

-- `type(error).__name__`.
unfoldable pub class_name : Error → String
class_name (value_error m) = "ValueError"
class_name (type_error m) = "TypeError"
class_name (key_error m) = "KeyError"
class_name (index_error m) = "IndexError"
class_name (runtime_error m) = "RuntimeError"
class_name (os_error m) = "OSError"
class_name (decision_error m) = "DecisionError"
class_name (execution_error m) = "ExecutionError"
class_name (evidence_error m) = "EvidenceError"
class_name (packet_error m) = "PacketError"
class_name (config_error m) = "ConfigError"
class_name (provider_error m) = "ProviderError"
class_name (ledger_busy_error m) = "LedgerBusyError"
class_name (ledger_state_error m) = "LedgerStateError"
class_name (overflow_error m) = "OverflowError"

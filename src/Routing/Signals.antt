-- ===== src/Routing/Signals.antt =====
-- `_ROLE_SIGNALS` of src/durable_threads/routing.py: the words that ask for a role.
use durable_threads.Prelude.{codes, [], ◌∷◌}
use durable_threads.Regex.{Regex, word, seq, char, in_set}
use durable_threads.Risk.{whole, prefixed}

-- `_ROLE_SIGNALS`.
unfoldable pub test_signal : Regex
test_signal = whole (
    word "coverage"
    ∷ word "debug"
    ∷ word "failure"
    ∷ word "failing"
    ∷ word "flaky"
    ∷ word "lint"
    ∷ word "regression"
    ∷ word "test"
    ∷ word "tests"
    ∷ word "testing"
    ∷ word "typecheck"
    ∷ [])

unfoldable pub research_signal : Regex
research_signal = whole (
    seq (word "analy") (seq (char (in_set (codes "sz"))) (word "e"))
    ∷ word "audit"
    ∷ word "compare"
    ∷ word "document"
    ∷ word "documentation"
    ∷ word "docs"
    ∷ word "investigate"
    ∷ word "research"
    ∷ word "readme"
    ∷ [])

unfoldable pub security_signal : Regex
security_signal = prefixed (
    word "auth"
    ∷ word "authorization"
    ∷ word "hardening"
    ∷ word "permission"
    ∷ word "privacy"
    ∷ word "secret"
    ∷ word "security"
    ∷ word "threat"
    ∷ word "vulnerab"
    ∷ [])

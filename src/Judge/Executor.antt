-- ===== src/Judge/Executor.antt =====
-- internal/judge/executor.go: the limits and the request of one execution. Negative numbers, which
-- are refused like 0, are left out.
use code_duel.Base.{
  ℕ, ◌==◌, ltb, leb, Bytes, Bool, true, false, not, ◌&&◌, ◌||◌, Option, none, some, List,
  if◌then◌else◌, length,
}
use code_duel.Db.{Language, python, cpp, java, other_language}
use code_duel.Judge.Store.{TestCase}
use code_duel.World.{
  Error, invalid_limits, unsupported_language, invalid_source, invalid_tests, Env,
}

pub record Limits : Type 0 where
  pub max_code_bytes : ℕ
  pub max_output_bytes : ℕ
  pub compile_timeout : ℕ
  pub test_timeout : ℕ
  pub total_timeout : ℕ
  pub cleanup_timeout : ℕ
  pub nano_cpus : ℕ
  pub memory_bytes : ℕ
  pub memory_swap : ℕ
  pub pid_limit : ℕ
  pub workspace_bytes : ℕ
  pub tmpfs_bytes : ℕ

-- `Limits.Validate`
abbrev pub positive : ℕ → Bool
positive n = ltb 0 n

unfoldable pub valid_limits : Limits → Bool
valid_limits l =
    (positive l.max_code_bytes && positive l.max_output_bytes)
    && (positive l.compile_timeout
        && positive l.test_timeout
        && positive l.total_timeout
        && positive l.cleanup_timeout)
    && (leb l.compile_timeout l.total_timeout && leb l.test_timeout l.total_timeout)
    && (positive l.nano_cpus
        && positive l.memory_bytes
        && positive l.pid_limit
        && positive l.workspace_bytes
        && positive l.tmpfs_bytes)
    && leb l.memory_bytes l.memory_swap

-- The request that an executor takes; that of internal/judge/service.go has the executor's limits.
pub record LimitedRequest : Type 0 where
  pub language : Language
  pub source : Bytes
  pub tests : List TestCase
  pub limits : Limits

abbrev pub supported : Language → Bool
supported python = true
supported cpp = true
supported java = true
supported (other_language name) = false

-- `ExecutionRequest.Validate`: `none`, or why the request is refused.
unfoldable pub validate_request : Env → LimitedRequest → Option Error
unfolding valid_limits
validate_request e r =
    if not (valid_limits r.limits)
    then some invalid_limits
    else if not (supported r.language)
    then some unsupported_language
    else if length r.source == 0 || ltb r.limits.max_code_bytes (length r.source)
    then some invalid_source
    else if not (e.utf8_valid r.source)
    then some invalid_source
    else if length r.tests == 0
    then some invalid_tests
    else none

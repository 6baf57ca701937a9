-- ===== src/Config.antt =====
-- internal/config/config.go: the settings of the roles and their validation. Durations are in
-- nanoseconds, as time.Duration has them. Negative numbers, which are refused like 0, are left out.
pub mod Load
pub mod Sound
use code_duel.Base.{
  ℕ, ◌+◌, ◌*◌, ◌%◌, ◌==◌, ltb, leb, Bytes, bytes_eq, codes, Bool, true, not, ◌&&◌, ◌||◌, Option,
  List, [], length,
}
use code_duel.Judge.Executor.{Limits, positive}
use code_duel.Reaper.Leases.{ReaperConfig}

abbrev pub judge_executor_docker : Bytes
judge_executor_docker = codes "docker"

abbrev pub judge_executor_kubernetes : Bytes
judge_executor_kubernetes = codes "kubernetes"

abbrev pub judge_setup_margin : ℕ
judge_setup_margin = 5000000000

pub record JudgeConfig : Type 0 where
  pub concurrency : ℕ
  pub max_code_bytes : ℕ
  pub max_output_bytes : ℕ
  pub compile_timeout : ℕ
  pub test_timeout : ℕ
  pub total_timeout : ℕ
  pub cleanup_timeout : ℕ
  pub attempt_lease : ℕ
  pub nano_cpus : ℕ
  pub memory_bytes : ℕ
  pub memory_swap_bytes : ℕ
  pub pid_limit : ℕ
  pub workspace_bytes : ℕ
  pub tmpfs_bytes : ℕ
  pub python_image : Bytes
  pub cpp_image : Bytes
  pub java_image : Bytes
  pub sandbox_runtime : Bytes
  pub executor : Bytes
  pub k8s_namespace : Bytes
  pub k8s_runtime_class : Bytes
  pub k8s_node_selector : List (Bytes × Bytes)
  pub k8s_toleration_key : Bytes
  pub k8s_toleration_value : Bytes

abbrev pub is_set : Bytes → Bool
is_set text = not (bytes_eq text [])

-- The `switch` on the executor.
unfoldable pub valid_executor : JudgeConfig → Bool
unfolding bytes_eq
valid_executor c =
    bytes_eq c.executor []
    || bytes_eq c.executor judge_executor_docker
    || (bytes_eq c.executor judge_executor_kubernetes
        && is_set c.k8s_namespace
        && is_set c.k8s_runtime_class)

abbrev pub int64_modulus : ℕ
int64_modulus = 0x1_0000_0000_0000_0000

abbrev pub int64_bound : ℕ
int64_bound = 0x8000_0000_0000_0000

-- Whether a sum of int64 is less than a positive limit. The sum wraps around, and is negative from
-- `int64_bound` on.
abbrev pub int64_below : ℕ → ℕ → Bool
int64_below sum limit = leb int64_bound (sum % int64_modulus) || ltb (sum % int64_modulus) limit

-- `JudgeConfig.Validate`, the checks in their order.
unfoldable pub valid_judge : JudgeConfig → Bool
unfolding valid_executor
valid_judge c =
    positive c.concurrency
    && (leb 65536 c.max_code_bytes && positive c.max_output_bytes)
    && (positive c.compile_timeout
        && positive c.test_timeout
        && positive c.total_timeout
        && positive c.cleanup_timeout)
    && (leb c.compile_timeout c.total_timeout && leb c.test_timeout c.total_timeout)
    && int64_below (c.total_timeout + 2 * c.cleanup_timeout + judge_setup_margin) c.attempt_lease
    && (positive c.nano_cpus
        && positive c.memory_bytes
        && positive c.pid_limit
        && positive c.workspace_bytes
        && positive c.tmpfs_bytes)
    && leb c.memory_bytes c.memory_swap_bytes
    && (is_set c.python_image && is_set c.cpp_image && is_set c.java_image)
    && valid_executor c

-- `ReaperConfig.Validate`
unfoldable pub valid_reaper : ℕ → ReaperConfig → Bool
valid_reaper attempt_lease c =
    positive c.interval
    && positive c.max_attempts
    && positive c.batch_size
    && positive c.stream_min_idle
    && ltb attempt_lease c.stream_min_idle

-- `limitsFromConfig` of internal/judge/executor.go.
abbrev pub limits_from_config : JudgeConfig → Limits
limits_from_config c = record {
  max_code_bytes = c.max_code_bytes;
  max_output_bytes = c.max_output_bytes;
  compile_timeout = c.compile_timeout;
  test_timeout = c.test_timeout;
  total_timeout = c.total_timeout;
  cleanup_timeout = c.cleanup_timeout;
  nano_cpus = c.nano_cpus;
  memory_bytes = c.memory_bytes;
  memory_swap = c.memory_swap_bytes;
  pid_limit = c.pid_limit;
  workspace_bytes = c.workspace_bytes;
  tmpfs_bytes = c.tmpfs_bytes;
}

pub record MatchConfig : Type 0 where
  pub duration : ℕ
  pub submission_dispatch_interval : ℕ
  pub submission_reenqueue_after : ℕ

-- `Config`, with the fields of its sections for authentication, PostgreSQL, Redis, logs and gateway.
pub record Config : Type 0 where
  pub app_env : Bytes
  pub token_ttl : ℕ
  pub dsn : Bytes
  pub redis_url : Bytes
  pub redis_addr : Bytes
  pub match_config : MatchConfig
  pub log_level : Bytes
  pub log_format : Bytes
  pub gateway_addr : Bytes
  pub jwt_secret : Bytes
  pub judge : JudgeConfig
  pub reaper : ReaperConfig

-- `ValidateForRole`
unfoldable pub valid_for_role : (Bytes → Bytes) → Config → Bytes → Bool
unfolding bytes_eq
valid_for_role trim_space c role =
    not (bytes_eq role (codes "gateway"))
    || not (bytes_eq c.app_env (codes "production"))
    || (not (bytes_eq c.jwt_secret (codes "codeduel-dev-secret"))
        && leb 32 (length c.jwt_secret)
        && bytes_eq c.jwt_secret (trim_space c.jwt_secret))

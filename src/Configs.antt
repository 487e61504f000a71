-- ===== src/Configs.antt =====
-- The flags and their defaults: `init` of internal/configs/config.go, `GetDBConnString` there, the
-- flags of pkg/minio/minio.go, and internal/logger/logger.go. The flag and configuration libraries,
-- pflag and viper, act on a world of type `W`.
use integrity_sum.Base.{ℕ, Bool, false, List, [], ◌∷◌, ◌++◌, Option, none, some, Bytes, codes}
use integrity_sum.Base.Map.{Map}
use integrity_sum.Strings.Decimal.{ℤ, format_int}

-- The type of a flag, with its default; a duration is in seconds.
pub data Setting : Type 0 where
  text : Bytes → Setting
  switch : Bool → Setting
  number : ℕ → Setting
  duration : ℕ → Setting
  strings : List Bytes → Setting
  string_map : Map Bytes → Setting

-- A flag set: names and defaults.
abbrev pub FlagSet : Type 0
FlagSet = Map Setting

abbrev pub duration_time : ℕ
duration_time = 30

abbrev pub algorithm : Bytes
algorithm = codes "SHA256"

abbrev pub monitor_opts : Bytes
monitor_opts = []

abbrev pub cluster_name : Bytes
cluster_name = codes "local"

abbrev pub proc_dir : Bytes
proc_dir = codes "/proc"

abbrev pub fs_log : FlagSet
fs_log = (codes "verbose", text (codes "info")) ∷ []

abbrev pub fs_sum : ℕ → FlagSet
fs_sum num_cpu =
    (codes "proc-dir", text proc_dir)
    ∷ (codes "duration-time", duration duration_time)
    ∷ (codes "count-workers", number num_cpu)
    ∷ (codes "algorithm", text algorithm)
    ∷ (codes "monitoring-options", text monitor_opts)
    ∷ (codes "process-image", string_map [])
    ∷ (codes "cluster-name", text cluster_name)
    ∷ []

abbrev pub fs_sp : FlagSet
fs_sp =
    (codes "splunk-enabled", switch false)
    ∷ (codes "splunk-url", text [])
    ∷ (codes "splunk-token", text [])
    ∷ (codes "splunk-insecure-skip-verify", switch false)
    ∷ []

abbrev pub fs_sys : FlagSet
fs_sys =
    (codes "syslog-enabled", switch false)
    ∷ (codes "syslog-host", text (codes "localhost"))
    ∷ (codes "syslog-port", number 514)
    ∷ (codes "syslog-proto", text (codes "tcp"))
    ∷ []

abbrev pub default_bucket_name : Bytes
default_bucket_name = codes "integrity"

abbrev pub fs_minio : FlagSet
fs_minio =
    (codes "minio-enabled", switch false)
    ∷ (codes "minio-host", text (codes "minio.minio.svc.cluster.local:9000"))
    ∷ (codes "minio-bucket", text default_bucket_name)
    ∷ []

-- `pflag.CommandLine.AddFlagSet`, `viper.BindPFlags` and `viper.BindEnv`
pub record FlagCalls (W E : Type 0) : Type 0 where
  pub add_flag_set : FlagSet → W → W
  pub bind_pflags : FlagSet → W → Option E × W
  pub bind_env : Bytes → Bytes → W → W

-- `os.Exit`, or the end of the function
pub data InitEnd : Type 0 where
  exited : ℕ → InitEnd
  initialized : InitEnd

module _ {W E : Type 0} (c : FlagCalls W E) where
  abbrev pub or_exit : ℕ → Option E × W → (W → InitEnd × W) → InitEnd × W
  or_exit code (some e, w) next = (exited code, w)
  or_exit code (none, w) next = next w

  abbrev pub add_and_bind : FlagSet → W → Option E × W
  add_and_bind fs w = c.bind_pflags fs (c.add_flag_set fs w)

  abbrev pub bind_all : Map Bytes → W → W
  bind_all [] w = w
  bind_all ((key, variable) ∷ more) w = bind_all more (c.bind_env key variable w)

  abbrev pub splunk_variables : Map Bytes
  splunk_variables =
      (codes "splunk-enabled", codes "SPLUNK_ENABLED")
      ∷ (codes "splunk-url", codes "SPLUNK_URL")
      ∷ (codes "splunk-token", codes "SPLUNK_TOKEN")
      ∷ (codes "splunk-insecure-skip-verify", codes "SPLUNK_INSECURE_SKIP_VERIFY")
      ∷ []

  -- `init` of internal/configs
  unfoldable pub init : ℕ → W → InitEnd × W
  init num_cpu w = or_exit 2 (add_and_bind fs_log w) (λ w.
      or_exit 1 (add_and_bind (fs_sum num_cpu) w) (λ w. or_exit 1 (add_and_bind fs_sp w) (λ w.
        or_exit 1 (add_and_bind fs_sys (bind_all splunk_variables w))
          (λ w. (initialized, c.bind_env (codes "pod-namespace") (codes "POD_NAMESPACE") w)))))

  abbrev pub minio_variables : Map Bytes
  minio_variables =
      (codes "minio-access-key", codes "MINIO_SERVER_USER")
      ∷ (codes "minio-secret-key", codes "MINIO_SERVER_PASSWORD")
      ∷ []

  -- `init` of pkg/minio
  unfoldable pub init_minio : W → InitEnd × W
  init_minio w =
      or_exit 1 (add_and_bind fs_minio (bind_all minio_variables w)) (λ w. (initialized, w))

-- What viper gives for the database.
pub record Database : Type 0 where
  pub user : Bytes
  pub password : Bytes
  pub host : Bytes
  pub port : ℤ
  pub name : Bytes
  pub connection_timeout : ℤ

-- `GetDBConnString`, which nothing in the program calls
pub get_db_conn_string : Database → Bytes
get_db_conn_string d =
    codes "postgresql://"
    ++ d.user
    ++ codes ":"
    ++ d.password
    ++ codes "@"
    ++ d.host
    ++ codes ":"
    ++ format_int d.port
    ++ codes "/"
    ++ d.name
    ++ codes "?sslmode=disable&connect_timeout="
    ++ format_int d.connection_timeout

-- `Init` of internal/logger: the level of the new logger, and the error that is logged.
-- `parse_level` is `logrus.ParseLevel`, which gives a level beside its error too.
module _ {Level E : Type 0} (info_level : Level) (parse_level : Bytes → Level × Option E) where
  unfoldable pub init_logger : Bytes → Level × Option E
  init_logger [] = (info_level, none)
  init_logger (b ∷ ll) = parse_level (b ∷ ll)

  abbrev level_or_info : Level × Option E → Level
  level_or_info (lvl, none) = lvl
  level_or_info (lvl, some e) = info_level

  -- `initLog` of cmd/snapshot/main.go
  unfoldable pub init_log : Bytes → Level
  init_log v_level = level_or_info (parse_level v_level)

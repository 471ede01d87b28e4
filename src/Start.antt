-- ===== src/Start.antt =====
-- The server's start and end: internal/env/env.go, `New` and `Close` of pkg/server.go, and cmd/main.go.
use Prim.Native.String.{String}
use obsidian_live_syncinator.Prelude.{Bool, true, false, Option, none, some, [], ℤ, pos}
use obsidian_live_syncinator.Diff.{Text}
use obsidian_live_syncinator.Outcome.{Result, ok, err}
use obsidian_live_syncinator.Repository.{Database}
use obsidian_live_syncinator.Server.{Ref, Platform, CachedFile, Syncinator}
use obsidian_live_syncinator.Options.{Options, settings_of, default}
use obsidian_live_syncinator.FileSystem.{FileSystem, mkdir_all}
use obsidian_live_syncinator.Snapshots.{process_files}

pub record EnvVariables : Type 0 where
  pub host : String
  pub port : String
  pub storage_dir : Text
  pub sqlite_filepath : String
  pub jwt_secret : Text
  pub operation_ttl : ℤ
  pub cache_size : ℤ
  pub flush_interval : ℤ
  pub max_file_size_mb : ℤ
  pub min_changes_threshold : ℤ
  pub snapshot_checkpoint : ℤ
  pub max_snapshot_diff_chain : ℤ

-- go-envconfig, once godotenv has read the file: what a variable is decoded to, given its name and
-- its default, or that it is required. `none` is an error.
pub record Envconfig : Type 0 where
  pub string : String → String → Option String
  pub path : String → String → Option Text
  pub int : String → String → Option ℤ
  pub duration : String → String → Option ℤ
  pub required : String → Option Text

infixl 5 ◌>>=◌
abbrev ◌>>=◌ : {A B : Type 0} → Option A → (A → Option B) → Option B
none >>= f = none
some a >>= f = f a

-- `envconfig.Process` on the fields, in order.
unfoldable pub process : Envconfig → Option EnvVariables
process c = do
  host ← c.string "HOST" "0.0.0.0"
  port ← c.string "PORT" "8080"
  storage_dir ← c.path "STORAGE_DIR" "./data"
  sqlite_filepath ← c.string "SQLITE_FILEPATH" "./data/db.sqlite3"
  jwt_secret ← c.required "JWT_SECRET"
  operation_ttl ← c.duration "OPERATION_TTL" "1h"
  cache_size ← c.int "CACHE_SIZE" "128"
  flush_interval ← c.duration "FLUSH_INTERVAL" "1m"
  max_file_size_mb ← c.int "MAX_FILE_SIZE" "1024"
  min_changes_threshold ← c.int "MIN_CHANGES_THRESHOLD" "5"
  snapshot_checkpoint ← c.int "SNAPSHOT_CHECKPOINT" "5"
  max_snapshot_diff_chain ← c.int "MAX_SNAPSHOT_DIFF_CHAIN" "10"
  some (record {
    host = host;
    port = port;
    storage_dir = storage_dir;
    sqlite_filepath = sqlite_filepath;
    jwt_secret = jwt_secret;
    operation_ttl = operation_ttl;
    cache_size = cache_size;
    flush_interval = flush_interval;
    max_file_size_mb = max_file_size_mb;
    min_changes_threshold = min_changes_threshold;
    snapshot_checkpoint = snapshot_checkpoint;
    max_snapshot_diff_chain = max_snapshot_diff_chain;
  })

-- `LoadEnv`: `none` is a panic.
abbrev made_dir : EnvVariables → Result (Unit {0}) × FileSystem → Option EnvVariables × FileSystem
made_dir env (ok _, fs) = (some env, fs)
made_dir env (err e, fs) = (none, fs)

abbrev processed : Text → Option EnvVariables → FileSystem → Option EnvVariables × FileSystem
processed cwd none fs = (none, fs)
processed cwd (some env) fs = made_dir env (mkdir_all cwd env.storage_dir fs)

unfoldable pub load_env : Text → Envconfig → FileSystem → Option EnvVariables × FileSystem
load_env cwd c fs = processed cwd (process c) fs

-- The options that `run` passes on. The fields that it leaves out are zero.
unfoldable pub options_of : EnvVariables → Options
options_of ev = record {
  max_file_size_mb = ev.max_file_size_mb;
  operation_ttl = ev.operation_ttl;
  cache_size = ev.cache_size;
  min_changes_threshold = ev.min_changes_threshold;
  flush_interval = ev.flush_interval;
  snapshot_checkpoint = ev.snapshot_checkpoint;
  max_snapshot_diff_chain = ev.max_snapshot_diff_chain;
  subscriber_rate_interval = pos 0;
  subscriber_rate_burst = pos 0;
  purge_cache_interval = pos 0;
}

-- How `run` ends: before there is a server, or with what the server was left as, and with whether
-- `Shutdown` succeeded.
pub data Ended (P : Platform) : Type 0 where
  not_opened not_configured not_migrated not_listening no_cache : Ended P
  ended : Syncinator P → Bool → Ended P

-- The outside: the database behind a path, what a pragma makes of it, which sets one connection of
-- the pool, goose, the socket, the directory of
-- objects, golang-lru, and what happens until the server fails or a signal comes.
pub record Outside (P : Platform) : Type 0 where
  pub opened : String → Option Database
  pub pragma : String → Database → Option Database
  pub migrate : Database → Option Database
  pub listen : String → String → Bool
  pub disk : Text → P.storage.State
  pub new_cache : ℤ → Option P.lru.State
  pub empty_heap : Ref → CachedFile
  pub serve : Syncinator P → Syncinator P
  pub shutdown : Bool

module _ (P : Platform) (o : Outside P) where
  -- `New`, with the cache that `initCache` makes. Nothing is cached, and nobody is connected.
  unfoldable pub new : Database → P.storage.State → Options → P.lru.State → Syncinator P
  new db fs opts cache = record {
    settings = settings_of opts;
    subscribers = [];
    file_cache = cache;
    heap = o.empty_heap;
    next_ref = 0;
    storage = fs;
    db = db;
  }

  -- `Close` ends the context and waits for the workers, the last act of which is a pass over the cached
  -- files. The connections end by themselves.
  unfoldable pub close : Syncinator P → Syncinator P
  close s = process_files P s

  abbrev unless : {A : Type 0} → Option A → Ended P → (A → Ended P) → Ended P
  unless none stop k = stop
  unless (some a) stop k = k a

  abbrev when : Bool → Ended P → Ended P → Ended P
  when true stop k = k
  when false stop k = stop

  unfoldable pub run : EnvVariables → Ended P
  run ev = unless (o.opened ev.sqlite_filepath) not_opened λ file.
      unless (o.pragma "journal_mode=WAL" file) not_configured λ logged.
        unless (o.pragma "foreign_keys = ON" logged) not_configured λ configured.
          unless (o.migrate configured) not_migrated λ db.
            when (o.listen ev.host ev.port) not_listening (
              unless (o.new_cache (default (options_of ev)).cache_size) no_cache λ cache.
                ended (close (o.serve (new db (o.disk ev.storage_dir) (options_of ev) cache)))
                  o.shutdown)

-- ===== src/Tests/Start.antt =====
-- An environment in which nothing but the secret is set.
use Prim.Native.String.{String}
use text.Mathlib.Text.{◌==◌ as str_eq}
use obsidian_live_syncinator.Prelude.{
  ◌*◌, ◌≡◌, refl, some, none, Option, [], ◌∷◌, ℤ, pos, if◌then◌else◌,
}
use obsidian_live_syncinator.Options.{minute}
use obsidian_live_syncinator.Mux.{atoi, digits}
use obsidian_live_syncinator.Start.{EnvVariables, Envconfig, process}

abbrev duration_of : String → Option ℤ
duration_of text =
    if str_eq text "1h"
    then some (pos (60 * minute))
    else if str_eq text "1m"
    then some (pos minute)
    else none

-- An environment in which only the secret is set.
abbrev secret_only : Envconfig
secret_only = record {
  string = λ name default. some default;
  path = λ name default. some [];
  int = λ name default. atoi default;
  duration = λ name default. duration_of default;
  required = λ name. if str_eq name "JWT_SECRET" then some (42 ∷ []) else none;
}

abbrev defaults : EnvVariables
defaults = record {
  host = "0.0.0.0";
  port = "8080";
  storage_dir = [];
  sqlite_filepath = "./data/db.sqlite3";
  jwt_secret = 42 ∷ [];
  operation_ttl = pos (60 * minute);
  cache_size = pos 128;
  flush_interval = pos minute;
  max_file_size_mb = pos 1024;
  min_changes_threshold = pos 5;
  snapshot_checkpoint = pos 5;
  max_snapshot_diff_chain = pos 10;
}

process_run : process secret_only ≡ some defaults
unfolding process atoi digits
process_run = refl

-- ===== src/Options.antt =====
-- `Options`, its method `Default`, and the settings that `New` makes of it (pkg/server.go).
use obsidian_live_syncinator.Prelude.{
  ℕ, ◌*◌, ◌<◌, ◌^◌, ◌≡◌, ℤ, pos, ltb_ℤ, leb_ℤ, arith, if◌then◌else◌, pos_part, neg_part, mul64,
}
use obsidian_live_syncinator.Server.{Settings}

-- JWTSecret is left out: `Default` does not look at it. Durations are in nanoseconds.
pub record Options : Type 0 where
  pub max_file_size_mb : ℤ
  pub operation_ttl : ℤ
  pub cache_size : ℤ
  pub min_changes_threshold : ℤ
  pub flush_interval : ℤ
  pub snapshot_checkpoint : ℤ
  pub max_snapshot_diff_chain : ℤ
  pub subscriber_rate_interval : ℤ
  pub subscriber_rate_burst : ℤ
  pub purge_cache_interval : ℤ

abbrev pub millisecond : ℕ
millisecond = 1_000_000

abbrev pub minute : ℕ
minute = 60_000 * millisecond

-- `if x <= 0 { x = d }`
abbrev positive_or : ℤ → ℤ → ℤ
positive_or d x = if leb_ℤ x (pos 0) then d else x

unfoldable pub default : Options → Options
default o = record {
  max_file_size_mb = positive_or (pos 1) o.max_file_size_mb;
  operation_ttl = positive_or (pos 0) o.operation_ttl;
  cache_size = positive_or (pos 128) o.cache_size;
  min_changes_threshold =
      if ltb_ℤ o.min_changes_threshold (pos 0) then pos 5 else o.min_changes_threshold;
  flush_interval = positive_or (pos (1 * minute)) o.flush_interval;
  snapshot_checkpoint = positive_or (pos 5) o.snapshot_checkpoint;
  max_snapshot_diff_chain = positive_or (pos 10) o.max_snapshot_diff_chain;
  subscriber_rate_interval = positive_or (pos (50 * millisecond)) o.subscriber_rate_interval;
  subscriber_rate_burst = positive_or (pos 16) o.subscriber_rate_burst;
  purge_cache_interval = positive_or (pos (10 * minute)) o.purge_cache_interval;
}

-- The part of `New` that copies the options. `<< 20` multiplies.
unfoldable pub settings_of : Options → Settings
settings_of opts =
    let o = default opts in
    record {
      max_file_size_bytes = mul64 o.max_file_size_mb (2 ^ 20);
      operation_ttl = o.operation_ttl;
      min_changes_threshold = o.min_changes_threshold;
      flush_interval = o.flush_interval;
      snapshot_checkpoint = o.snapshot_checkpoint;
      max_snapshot_diff_chain = o.max_snapshot_diff_chain;
      subscriber_rate_interval = o.subscriber_rate_interval;
      subscriber_rate_burst = o.subscriber_rate_burst;
      purge_cache_interval = o.purge_cache_interval;
    }

-- What the workers rely on: sizes and intervals are positive, and the rest is not negative.
pub record IsUsable (o : Options) : Type 0 where
  pub file_size : 0 < pos_part o.max_file_size_mb
  pub ttl : neg_part o.operation_ttl ≡ 0
  pub cache : 0 < pos_part o.cache_size
  pub changes : neg_part o.min_changes_threshold ≡ 0
  pub flush : 0 < pos_part o.flush_interval
  pub checkpoint : 0 < pos_part o.snapshot_checkpoint
  pub chain : 0 < pos_part o.max_snapshot_diff_chain
  pub rate : 0 < pos_part o.subscriber_rate_interval
  pub burst : 0 < pos_part o.subscriber_rate_burst
  pub purge : 0 < pos_part o.purge_cache_interval

-- The defaults make any options usable.
pub default-IsUsable : (o : Options) → IsUsable (default o)
unfolding default
default-IsUsable o = record {
  file_size = ground arith;
  ttl = ground arith;
  cache = ground arith;
  changes = ground arith;
  flush = ground arith;
  checkpoint = ground arith;
  chain = ground arith;
  rate = ground arith;
  burst = ground arith;
  purge = ground arith;
}

-- Usable options are kept as they are.
default-of_IsUsable : (o : Options) → IsUsable o → default o ≡ o
unfolding default
default-of_IsUsable o u = λ i. record {
  max_file_size_mb = keep_positive (pos 1) o.max_file_size_mb u.file_size i;
  operation_ttl = keep_ttl o.operation_ttl u.ttl i;
  cache_size = keep_positive (pos 128) o.cache_size u.cache i;
  min_changes_threshold = keep_changes o.min_changes_threshold u.changes i;
  flush_interval = keep_positive (pos (1 * minute)) o.flush_interval u.flush i;
  snapshot_checkpoint = keep_positive (pos 5) o.snapshot_checkpoint u.checkpoint i;
  max_snapshot_diff_chain = keep_positive (pos 10) o.max_snapshot_diff_chain u.chain i;
  subscriber_rate_interval =
      keep_positive (pos (50 * millisecond)) o.subscriber_rate_interval u.rate i;
  subscriber_rate_burst = keep_positive (pos 16) o.subscriber_rate_burst u.burst i;
  purge_cache_interval = keep_positive (pos (10 * minute)) o.purge_cache_interval u.purge i;
}
  where
    keep_positive : (d x : ℤ) → 0 < pos_part x → positive_or d x ≡ x
    keep_positive d x h = ground arith

    keep_ttl : (x : ℤ) → neg_part x ≡ 0 → positive_or (pos 0) x ≡ x
    keep_ttl x h = ground arith

    keep_changes : (x : ℤ) → neg_part x ≡ 0 → (if ltb_ℤ x (pos 0) then pos 5 else x) ≡ x
    keep_changes x h = ground arith

-- Default makes any options usable (sizes and intervals positive, the rest not negative), and a
-- second call changes nothing.
default_lem : (o : Options) → IsUsable (default o) × (default (default o) ≡ default o)
default_lem o = (default-IsUsable o, default-of_IsUsable (default o) (default-IsUsable o))

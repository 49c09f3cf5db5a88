-- ===== src/Metrics.antt =====
-- The collectors of metrics, pkg/metrics/collectors.go and pkg/store/metrics.go: what they describe and
-- what they send when they are scraped. Values are counts; the help texts are left out.
pub mod Scraping
use gkit_go.Prelude.{ℕ, Option, none, some, List, [], ◌∷◌, ◌++◌}
use gkit_go.Bytes.{Text, codes}

-- `prometheus.Desc`: the name of a metric, and its constant label, if any.
pub record Desc : Type 0 where
  pub name : Text
  pub label : Option (Text × Text)

pub data Kind : Type 0 where
  counter : Kind
  gauge : Kind

-- A metric that a collector sends.
pub record Metric : Type 0 where
  pub desc : Desc
  pub kind : Kind
  pub value : ℕ

-- `PoolSnapshot`
pub record PoolSnapshot : Type 0 where
  pub submitted : ℕ
  pub completed : ℕ
  pub errors : ℕ
  pub in_flight : ℕ
  pub queue_depth : ℕ

-- The descriptions of `NewPoolCollector`.
unfoldable pub pool_desc : Text → Text → Desc
pool_desc name metric = record {
  name = codes "gkit_pool_" ++ metric;
  label = some (codes "pool", name);
}

-- `Describe` of the pool collector.
unfoldable pub describe_pool : Text → List Desc
unfolding pool_desc
describe_pool name =
    pool_desc name (codes "jobs_submitted_total")
    ∷ pool_desc name (codes "jobs_completed_total")
    ∷ pool_desc name (codes "jobs_errors_total")
    ∷ pool_desc name (codes "jobs_in_flight")
    ∷ pool_desc name (codes "queue_depth")
    ∷ []

abbrev pub const_metric : Desc → Kind → ℕ → Metric
const_metric desc kind value = record { desc = desc; kind = kind; value = value }

-- `Collect` of the pool collector.
unfoldable pub collect_pool : Text → PoolSnapshot → List Metric
unfolding pool_desc
collect_pool name s =
    const_metric (pool_desc name (codes "jobs_submitted_total")) counter s.submitted
    ∷ const_metric (pool_desc name (codes "jobs_completed_total")) counter s.completed
    ∷ const_metric (pool_desc name (codes "jobs_errors_total")) counter s.errors
    ∷ const_metric (pool_desc name (codes "jobs_in_flight")) gauge s.in_flight
    ∷ const_metric (pool_desc name (codes "queue_depth")) gauge s.queue_depth
    ∷ []

-- `CacheSnapshot`
pub record CacheSnapshot : Type 0 where
  pub hits : ℕ
  pub misses : ℕ
  pub evicts : ℕ
  pub len : ℕ

-- The descriptions of `NewCacheCollector`.
unfoldable pub cache_desc : Text → Text → Desc
cache_desc name metric = record {
  name = codes "gkit_cache_" ++ metric;
  label = some (codes "cache", name);
}

-- `Describe` of the cache collector.
unfoldable pub describe_cache : Text → List Desc
unfolding cache_desc
describe_cache name =
    cache_desc name (codes "hits_total")
    ∷ cache_desc name (codes "misses_total")
    ∷ cache_desc name (codes "evictions_total")
    ∷ cache_desc name (codes "size")
    ∷ []

-- `Collect` of the cache collector.
unfoldable pub collect_cache : Text → CacheSnapshot → List Metric
unfolding cache_desc
collect_cache name s =
    const_metric (cache_desc name (codes "hits_total")) counter s.hits
    ∷ const_metric (cache_desc name (codes "misses_total")) counter s.misses
    ∷ const_metric (cache_desc name (codes "evictions_total")) counter s.evicts
    ∷ const_metric (cache_desc name (codes "size")) gauge s.len
    ∷ []

-- The statistics of a pool of connections.
pub record ConnStats : Type 0 where
  pub total_conns : ℕ
  pub idle_conns : ℕ
  pub acquired_conns : ℕ
  pub max_conns : ℕ
  pub acquire_count : ℕ

-- The descriptions of `newPoolCollector`.
unfoldable pub conn_desc : Text → Desc
conn_desc metric = record { name = codes "pgx_pool_" ++ metric; label = none }

-- `Describe` of the collector of connections.
unfoldable pub describe_conns : List Desc
unfolding conn_desc
describe_conns =
    conn_desc (codes "total_connections")
    ∷ conn_desc (codes "idle_connections")
    ∷ conn_desc (codes "used_connections")
    ∷ conn_desc (codes "max_connections")
    ∷ conn_desc (codes "acquire_total")
    ∷ []

-- `Collect` of the collector of connections.
unfoldable pub collect_conns : ConnStats → List Metric
unfolding conn_desc
collect_conns s =
    const_metric (conn_desc (codes "total_connections")) gauge s.total_conns
    ∷ const_metric (conn_desc (codes "idle_connections")) gauge s.idle_conns
    ∷ const_metric (conn_desc (codes "used_connections")) gauge s.acquired_conns
    ∷ const_metric (conn_desc (codes "max_connections")) gauge s.max_conns
    ∷ const_metric (conn_desc (codes "acquire_total")) counter s.acquire_count
    ∷ []

-- ===== src/Metrics/Scraping.antt =====
-- What the collectors send (pkg/metrics/collectors.go).
use gkit_go.Prelude.{◌≡◌, refl, List, map}
use gkit_go.Bytes.{Text}
use gkit_go.Metrics.{
  Desc, Metric, PoolSnapshot, CacheSnapshot, ConnStats, describe_pool, collect_pool, describe_cache,
  collect_cache, describe_conns, collect_conns,
}

abbrev described : List Metric → List Desc
described metrics = map (λ m. m.desc) metrics

-- Each collector sends one metric for each of its descriptions, in their order.
collectors-Describe :
    (name : Text) (p : PoolSnapshot) (c : CacheSnapshot) (s : ConnStats)
    → (described (collect_pool name p) ≡ describe_pool name)
      × ((described (collect_cache name c) ≡ describe_cache name)
          × (described (collect_conns s) ≡ describe_conns))
unfolding describe_pool collect_pool describe_cache collect_cache describe_conns collect_conns
collectors-Describe name p c s = (refl, (refl, refl))

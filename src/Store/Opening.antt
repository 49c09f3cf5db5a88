-- ===== src/Store/Opening.antt =====
-- `Open` of pkg/store/store.go, with its options (pkg/store/options.go). The driver and the registry of
-- metrics are the parameter `Postgres`, whose calls act on the world `W`; logs are left out.
use gkit_go.Prelude.{
  ◌⊎◌, inl, inr, ℕ, ◌+◌, ◌≡◌, refl, sym, ap, ◌∙◌, Bool, true, false, Option, none, some, List, [],
  ◌∷◌, ltb, if◌then◌else◌, arith,
}
use gkit_go.Bytes.{Text}

-- `options`; a number below 0 counts as 0.
pub record Options : Type 0 where
  pub max_conns : ℕ
  pub min_conns : ℕ
  pub metrics : Bool

-- `defaultOptions`
unfoldable pub default_options : Options
default_options = record { max_conns = 0; min_conns = 0; metrics = false }

-- `WithMaxConns`, `WithMinConns` and `WithPrometheus`.
pub data Setting : Type 0 where
  with_max_conns : ℕ → Setting
  with_min_conns : ℕ → Setting
  with_prometheus : Setting

unfoldable pub apply_setting : Setting → Options → Options
apply_setting (with_max_conns n) o = record o { max_conns = n }
apply_setting (with_min_conns n) o = record o { min_conns = n }
apply_setting with_prometheus o = record o { metrics = true }

unfoldable pub apply_settings : List Setting → Options → Options
unfolding apply_setting
apply_settings [] o = o
apply_settings (x ∷ settings) o = apply_settings settings (apply_setting x o)

-- The configuration of a connection pool, by its bounds.
pub record PoolConfig : Type 0 where
  pub max_conns : ℕ
  pub min_conns : ℕ

-- The calls of the driver, each with its error, if any.
pub record Postgres (W E : Type 0) : Type 0 where
  pub parse_config : Text → PoolConfig ⊎ E
  pub new_pool : PoolConfig → W → Option E × W
  pub ping : W → Option E × W
  pub close : W → W
  pub register : W → Option E × W

-- How `Open` ends.
pub data Opened (E : Type 0) : Type 0 where
  opened : PoolConfig → Opened E
  parse_failed : E → Opened E
  create_failed : E → Opened E
  ping_failed : E → Opened E
  register_failed : E → Opened E

-- The bounds of the pool: those of the options that are set.
unfoldable pub configure : Options → PoolConfig → PoolConfig
configure o cfg = record {
  max_conns = if ltb 0 o.max_conns then o.max_conns else cfg.max_conns;
  min_conns = if ltb 0 o.min_conns then o.min_conns else cfg.min_conns;
}

module _ {W E : Type 0} (postgres : Postgres W E) where
  -- What `Open` does once the pool answers.
  unfoldable pub register_metrics : Bool → PoolConfig → W → Opened E × W
  register_metrics false cfg w = (opened cfg, w)
  register_metrics true cfg w =
      let (err, w') = postgres.register w in
      elim err [ none ↦ (opened cfg, w') | some e ↦ (register_failed e, postgres.close w') ]

  -- What `Open` does with the configuration.
  unfoldable pub connect : Bool → PoolConfig → W → Opened E × W
  unfolding register_metrics
  connect metrics cfg w =
      let (err, w') = postgres.new_pool cfg w in
      elim err [
        | some e ↦ (create_failed e, w')
        | none ↦
            let (err', w'') = postgres.ping w' in
            elim err' [
              | some e ↦ (ping_failed e, postgres.close w'')
              | none ↦ register_metrics metrics cfg w''
            ]
      ]

  -- `Open`
  unfoldable pub open_store : Text → List Setting → W → Opened E × W
  unfolding connect configure apply_settings default_options
  open_store dsn settings w = elim (postgres.parse_config dsn) [
    | inr e ↦ (parse_failed e, w)
    | inl cfg ↦
        let o = apply_settings settings default_options in connect o.metrics (configure o cfg) w
  ]

-- What the driver does to the number of pools that are open: a pool that was made is open until it is
-- closed, and nothing else opens or closes one.
pub record CountsPools {W E : Type 0} (postgres : Postgres W E) (pools : W → ℕ) : Type 0 where
  pub made :
      (cfg : PoolConfig) (w w' : W) → postgres.new_pool cfg w ≡ (none, w') → pools w' ≡ pools w + 1
  pub not_made :
      (cfg : PoolConfig) (w w' : W) (e : E)
      → postgres.new_pool cfg w ≡ (some e, w')
      → pools w' ≡ pools w
  pub pinged : (w : W) → pools (postgres.ping w).1 ≡ pools w
  pub registered : (w : W) → pools (postgres.register w).1 ≡ pools w
  pub closed : (w : W) → pools (postgres.close w) + 1 ≡ pools w ⊎ (pools w ≡ 0)

-- The pools that an ending leaves open.
abbrev pub left_open : {E : Type 0} → Opened E → ℕ
left_open (opened cfg) = 1
left_open (parse_failed e) = 0
left_open (create_failed e) = 0
left_open (ping_failed e) = 0
left_open (register_failed e) = 0

module _ {W E : Type 0} (postgres : Postgres W E) (pools : W → ℕ)
    (counts : CountsPools postgres pools) where
  closes : (w : W) (n : ℕ) → pools w ≡ n + 1 → pools (postgres.close w) ≡ n
  closes w n p = elim (counts.closed w) [
    | inl q ↦ omega (arith, p, q)
    | inr q ↦ absurd (omega (arith, p, q))
  ]

  register_metrics-left :
      (metrics : Bool) (cfg : PoolConfig) (w : W) (n : ℕ)
      → pools w ≡ n + 1
      → pools (register_metrics postgres metrics cfg w).1
        ≡ n + left_open (register_metrics postgres metrics cfg w).0
  unfolding register_metrics
  register_metrics-left false cfg w n p = p
  register_metrics-left true cfg w n p = ended (postgres.register w) refl
    where
      ended :
          (r : Option E × W)
          → postgres.register w ≡ r
          → pools (register_metrics postgres true cfg w).1
            ≡ n + left_open (register_metrics postgres true cfg w).0
      ended (none, w') q =
          let k : pools w' ≡ n + 1 =
            ap (λ (r : Option E × W). pools r.1) (sym q) ∙ counts.registered w ∙ p in
          ground (arith, q, k)
      ended (some e, w') q =
          let k : pools w' ≡ n + 1 =
            ap (λ (r : Option E × W). pools r.1) (sym q) ∙ counts.registered w ∙ p in
          ground (arith, q, closes w' n k)

  connect-left :
      (metrics : Bool) (cfg : PoolConfig) (w : W)
      → pools (connect postgres metrics cfg w).1
        ≡ pools w + left_open (connect postgres metrics cfg w).0
  unfolding connect
  connect-left metrics cfg w = made (postgres.new_pool cfg w) refl
    where
      Goal : Type 0
      Goal =
          pools (connect postgres metrics cfg w).1
          ≡ pools w + left_open (connect postgres metrics cfg w).0

      made : (r : Option E × W) → postgres.new_pool cfg w ≡ r → Goal
      made (some e, w') q = ground (arith, q, counts.not_made cfg w w' e q)
      made (none, w') q = pinged (postgres.ping w') refl
        where
          pinged : (r : Option E × W) → postgres.ping w' ≡ r → Goal
          pinged (none, w'') p =
              let k : pools w'' ≡ pools w + 1 =
                ap (λ (r : Option E × W). pools r.1) (sym p)
                ∙ counts.pinged w'
                ∙ counts.made cfg w w' q in
              ground (arith, q, p, register_metrics-left metrics cfg w'' (pools w) k)
          pinged (some e, w'') p =
              let k : pools w'' ≡ pools w + 1 =
                ap (λ (r : Option E × W). pools r.1) (sym p)
                ∙ counts.pinged w'
                ∙ counts.made cfg w w' q in
              ground (arith, q, p, closes w'' (pools w) k)

  -- However Open ends, at whatever call it fails: it leaves one pool open more than before when it
  -- returns a store, and none more when it returns an error.
  pub open_store-left :
      (dsn : Text) (settings : List Setting) (w : W)
      → pools (open_store postgres dsn settings w).1
        ≡ pools w + left_open (open_store postgres dsn settings w).0
  unfolding open_store
  open_store-left dsn settings w = parsed (postgres.parse_config dsn) refl
    where
      parsed :
          (r : PoolConfig ⊎ E)
          → postgres.parse_config dsn ≡ r
          → pools (open_store postgres dsn settings w).1
            ≡ pools w + left_open (open_store postgres dsn settings w).0
      parsed (inr e) q = ground (arith, q)
      parsed (inl cfg) q =
          let o = apply_settings settings default_options in
          ground (arith, q, connect-left o.metrics (configure o cfg) w)

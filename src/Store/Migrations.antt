-- ===== src/Store/Migrations.antt =====
-- The migrations, pkg/store/migrate.go. The migration library is the parameter `Migrations`, whose
-- migrators act on the world `W`.
use gkit_go.Prelude.{◌⊎◌, inl, inr, ℕ, Bool, false, Option, none, some, [], ◌∷◌, ◌++◌}
use gkit_go.Bytes.{Text, codes}
use gkit_go.Store.{strip_prefixes}

-- What a migrator fails with: there is nothing to change, no version yet, or another error.
pub data Fault (E : Type 0) : Type 0 where
  no_change : Fault E
  nil_version : Fault E
  other : E → Fault E

-- The migration library: a migrator from a source and a URL, and its methods.
pub record Migrations (M W E : Type 0) : Type 0 where
  pub new : Text → Text → W → (M ⊎ E) × W
  pub up : M → W → Option (Fault E) × W
  pub down : M → W → Option (Fault E) × W
  pub steps : Bool → ℕ → M → W → Option (Fault E) × W  -- true is up
  pub version : M → W → ((ℕ × Bool) ⊎ Fault E) × W

-- What the functions return: nil, or an error with what was attempted.
pub data Migrated (E : Type 0) : Type 0 where
  migrated : Migrated E
  no_migrator : E → Migrated E
  migration_failed : Fault E → Migrated E

-- `err != nil && !errors.Is(err, migrate.ErrNoChange)`
unfoldable pub tolerate : {E : Type 0} → Option (Fault E) → Migrated E
tolerate none = migrated
tolerate (some no_change) = migrated
tolerate (some nil_version) = migration_failed nil_version
tolerate (some (other e)) = migration_failed (other e)

module _ {M W E : Type 0} (migrations : Migrations M W E) where
  -- `newMigrate`
  unfoldable pub new_migrate : Text → Text → W → (M ⊎ E) × W
  unfolding strip_prefixes
  new_migrate dsn source w =
      let scheme_free = strip_prefixes (codes "postgres://" ∷ codes "postgresql://" ∷ []) dsn in
      migrations.new source (codes "pgx5://" ++ scheme_free) w

  -- A migrator is made, and one of its methods is called.
  unfoldable pub migrate_with : (M → W → Option (Fault E) × W) → Text → Text → W → Migrated E × W
  unfolding new_migrate tolerate
  migrate_with method dsn source w =
      let (made, w') = new_migrate dsn source w in
      elim made [
        | inr e ↦ (no_migrator e, w')
        | inl m ↦ let (err, w'') = method m w' in (tolerate err, w'')
      ]

  -- `MigrateUp`
  unfoldable pub migrate_up : Text → Text → W → Migrated E × W
  unfolding migrate_with
  migrate_up dsn source w = migrate_with migrations.up dsn source w

  -- `MigrateDown`
  unfoldable pub migrate_down : Text → Text → W → Migrated E × W
  unfolding migrate_with
  migrate_down dsn source w = migrate_with migrations.down dsn source w

  -- `MigrateSteps`, of a number by its sign and size.
  unfoldable pub migrate_steps : Bool → ℕ → Text → Text → W → Migrated E × W
  unfolding migrate_with
  migrate_steps is_up n dsn source w =
      migrate_with (λ m w'. migrations.steps is_up n m w') dsn source w

  -- `MigrateVersion`: the version and whether it is dirty, or an error.
  unfoldable pub migrate_version : Text → Text → W → ((ℕ × Bool) ⊎ Migrated E) × W
  unfolding new_migrate
  migrate_version dsn source w =
      let (made, w') = new_migrate dsn source w in
      elim made [
        | inr e ↦ (inr (no_migrator e), w')
        | inl m ↦
            let (answer, w'') = migrations.version m w' in
            elim answer [
              | inl v ↦ (inl v, w'')
              | inr nil_version ↦ (inl (0, false), w'')
              | inr no_change ↦ (inr (migration_failed no_change), w'')
              | inr (other e) ↦ (inr (migration_failed (other e)), w'')
            ]
      ]

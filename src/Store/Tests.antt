-- ===== src/Store/Tests.antt =====
-- Transactions and the theorems at concrete inputs (pkg/store/store.go, pkg/store/migrate.go).
use gkit_go.Bytes.{Text, codes, after_prefix}
use gkit_go.Prelude.{
  arith, zero, suc, ◌-◌, ◌⊎◌, inl, inr, ℕ, ◌+◌, ◌≡◌, refl, Option, none, some, List, [], ◌∷◌, ltb,
  if◌then◌else◌,
}
use gkit_go.Store.{
  Driver, Ending, returned, failed, panicked, Context, plain, in_tx, with_tx, finish, and_then,
  strip_prefixes,
}
use gkit_go.Store.Transactions.{IsDatabase, IsAtomic, with_tx-IsAtomic}
use gkit_go.Store.Opening.{
  Postgres, CountsPools, with_max_conns, ping_failed, connect, open_store, left_open,
  open_store-left,
}

-- One connection to a number: what all see, what its transaction sees, the transactions that are
-- open, and whether the next commit fails.
record Session : Type 0 where
  visible : ℕ
  working : ℕ
  open_txs : ℕ
  commit_error : Option ℕ

abbrev commit_session : Session → Option ℕ × Session
commit_session s = elim s.commit_error [
  | none ↦ (none, record s { visible = s.working; open_txs = s.open_txs - 1 })
  | some e ↦ (some e, record s { open_txs = s.open_txs - 1 })
]

abbrev sessions : Driver Session ℕ
sessions = record {
  begin = λ s. (none, record s { working = s.visible; open_txs = s.open_txs + 1 });
  commit = commit_session;
  rollback = λ s. (none, record s { working = s.visible; open_txs = s.open_txs - 1 });
}

sessions-IsDatabase : IsDatabase sessions (λ s. s.visible) (λ s. s.working) (λ s. s.open_txs)
sessions-IsDatabase = record {
  begin-visible = λ s. refl;
  begin-working = λ s h. refl;
  commit-visible = λ s h. ground (arith, h);
  commit_failed-visible = λ s e h. ground (arith, h);
  rollback-visible = λ s. refl;
  begin-open = λ s h. refl;
  begin_failed-open = λ s e h. absurd (ground (arith, h));
  commit-open = λ s. ground arith;
  rollback-open = λ s. refl;
}

abbrev quiet : Session
quiet = record { visible = 5; working = 0; open_txs = 0; commit_error = none }

-- Adds 3, nests a transaction that adds 4, and fails above a limit.
abbrev adding : ℕ → Context → Session → Ending ℕ ℕ × Session
adding n ctx s =
    if ltb (s.working + n) 20
    then (returned, record s { working = s.working + n })
    else (failed 1, record s { working = s.working + n })

abbrev nested : ℕ → Context → Session → Ending ℕ ℕ × Session
nested n = and_then (adding 3) (λ ctx. with_tx sessions ctx (adding n))

commits :
    with_tx sessions plain (nested 4) quiet
    ≡ (returned, record { visible = 12; working = 12; open_txs = 0; commit_error = none })
unfolding with_tx finish and_then
commits = refl

-- A nested error rolls the whole back.
rolls_back :
    with_tx sessions plain (nested 40) quiet
    ≡ (failed 1, record { visible = 5; working = 5; open_txs = 0; commit_error = none })
unfolding with_tx finish and_then
rolls_back = refl

abbrev panics : Context → Session → Ending ℕ ℕ × Session
panics ctx s = (panicked 8, record s { working = 99 })

rethrows :
    with_tx sessions plain panics quiet
    ≡ (panicked 8, record { visible = 5; working = 5; open_txs = 0; commit_error = none })
unfolding with_tx finish
rethrows = refl

adding-isolated :
    (s : Session)
    → ((adding 3 in_tx s).1.visible ≡ s.visible) × ((adding 3 in_tx s).1.open_txs ≡ s.open_txs)
adding-isolated s = ground arith

with_tx-IsAtomic_example :
    IsAtomic sessions
      (λ s. s.visible)
      (λ s. s.working)
      (λ s. s.open_txs)
      (adding 3)
      quiet
      (with_tx sessions plain (adding 3) quiet)
    × ((with_tx sessions plain (adding 3) quiet).1.open_txs ≡ 0)
with_tx-IsAtomic_example =
    with_tx-IsAtomic sessions (λ s. s.visible) (λ s. s.working) (λ s. s.open_txs) (adding 3)
      sessions-IsDatabase adding-isolated quiet

abbrev schemes : List Text
schemes = codes "postgres://" ∷ codes "postgresql://" ∷ []

strips : strip_prefixes schemes (codes "postgresql://db/x") ≡ codes "db/x"
unfolding strip_prefixes after_prefix
strips = refl

-- A bare scheme is not longer than itself and stays.
keeps_bare : strip_prefixes schemes (codes "postgres://") ≡ codes "postgres://"
unfolding strip_prefixes after_prefix
keeps_bare = refl

-- A database that does not answer to a ping; the world counts the pools that are open.
abbrev silent : Postgres ℕ ℕ
silent = record {
  parse_config = λ dsn. inl (record { max_conns = 4; min_conns = 0 });
  new_pool = λ cfg w. (none, w + 1);
  ping = λ w. (some 7, w);
  close = λ w. w - 1;
  register = λ w. (none, w);
}

abbrev count : ℕ → ℕ
count w = w

silent-CountsPools : CountsPools silent count
silent-CountsPools = record {
  made = λ cfg w w' e. ground (arith, e);
  not_made = λ cfg w w' x e. absurd (ground (arith, e));
  pinged = λ w. refl;
  registered = λ w. refl;
  closed = λ w. one_less w;
}
  where
    one_less : (w : ℕ) → ((w - 1) + 1 ≡ w) ⊎ (w ≡ 0)
    one_less zero = inr refl
    one_less (suc w) = inl (omega arith)

open_store-left_example :
    (open_store silent [] (with_max_conns 9 ∷ []) 5).1
    ≡ 5 + left_open (open_store silent [] (with_max_conns 9 ∷ []) 5).0
open_store-left_example =
    open_store-left silent count silent-CountsPools [] (with_max_conns 9 ∷ []) 5

closes_again : open_store silent [] [] 5 ≡ (ping_failed 7, 5)
unfolding open_store connect
closes_again = refl

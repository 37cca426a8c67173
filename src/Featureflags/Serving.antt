-- ===== src/Featureflags/Serving.antt =====
-- featureflags/postgres.go: a store over app_settings, with the refresh that Get starts in the
-- background. What a query of the table gives is that of Rows.
use omkit_go.Prelude.{
  String, ◌≡◌, ◌≢◌, refl, Bool, true, false, Option, some, List, Map, lookup, if◌then◌else◌,
  Bool-cases, inl, inr, arith,
}
use omkit_go.Prelude.Int.{ℤ, pos, ◌-ℤ◌, ◌≤ℤ◌}
use omkit_go.Jobqueue.Json.{Document}
use omkit_go.Featureflags.{Flag, PostgresStore, new_store_with_refresher, refresh, get, stale}
use omkit_go.Featureflags.Rows.{load_from_pool}
use omkit_go.Featureflags.Laws.{refresh_lem}

-- The query of loadFromPool: whether it succeeds, its rows, and whether no error stands behind them.
pub record Answer : Type 0 where
  pub queried : Bool
  pub rows : List (Option (String × Document))
  pub ended : Bool

unfoldable pub new_postgres_store : (ttl : ℤ) → PostgresStore
new_postgres_store ttl = new_store_with_refresher ttl

after_refresh :
    (table : Map Flag) (later next : ℤ) (s : PostgresStore) (other : String)
    → later ≢ pos 0
    → next -ℤ later ≤ℤ s.ttl
    → get next (refresh (some table) later s).0 other ≡ (lookup other table, false)
unfolding get refresh
after_refresh table later next s other nonzero soon =
    let (flag, when, kept) = refresh_lem s table later next other nonzero in
    let fresh : stale next (refresh (some table) later s).0 ≡ false =
      elim (Bool-cases (stale next (refresh (some table) later s).0)) [
        | inl t ↦ absurd (omega (arith, when.0 t, soon))
        | inr f ↦ f
      ] in
    rw fresh refl

module _ (folds : String → String → Bool) where
  unfoldable pub load_for_service : Answer → Option (Map Flag)
  load_for_service a = load_from_pool folds a.queried a.rows a.ended

  -- tryRefresh, at the time when its query has ended.
  unfoldable pub try_refresh : Answer → (now : ℤ) → PostgresStore → PostgresStore
  try_refresh a now s = (refresh (load_from_pool folds a.queried a.rows a.ended) now s).0

  -- Get, and the store once the refresh that it may start has ended.
  unfoldable pub get_then_refresh :
      Answer → (now later : ℤ) → PostgresStore → String → Option Flag × PostgresStore
  get_then_refresh a now later s key =
      let (flag, refreshes) = get now s key in
      (flag, if refreshes then try_refresh a later s else s)

  -- A Get on a stale store returns the flag that the store has, and once its refresh has loaded the
  -- table, at a time other than 0, a Get returns the table's flag and starts no refresh for as long
  -- as the store's lifetime.
  pub get_then_refresh-settles :
      (a : Answer) (table : Map Flag) (now later next : ℤ) (s : PostgresStore) (key other : String)
      → stale now s ≡ true
      → load_from_pool folds a.queried a.rows a.ended ≡ some table
      → later ≢ pos 0
      → next -ℤ later ≤ℤ s.ttl
      → let (flag, s') = get_then_refresh a now later s key in
        (flag ≡ lookup key s.flags) × (get next s' other ≡ (lookup other table, false))
  unfolding get_then_refresh try_refresh get
  get_then_refresh-settles a table now later next s key other old loaded nonzero soon =
      rw old (rw (try_refresh, loaded) (refl, after_refresh table later next s other nonzero soon))

-- ===== src/Db/Pools.antt =====
-- Opening and closing the connection pool: `NewDatabase`, `InitDB`, `Close` and `CloseDB` of
-- db/database.go, and the goroutine that reports the pool's numbers.
use servone.Prelude.{ℕ, String, Option, none, some, List, [], ◌∷◌}
use servone.Value.{Error, wrap, Result, ok, err}
use servone.World.{
  Env, Pool, Action, ◌>>=◌, ◌>>◌, done, open_pool, ping, close_pool, configure_pool, println, spawn,
  monitor_pool, get_db_pool, set_db_pool,
}
use servone.Metrics.{update_db_connection_metrics}
use servone.Db.Tables.{Database}

-- The fields of `sql.DBStats` that are read.
pub record DbStats : Type 0 where
  pub in_use : ℕ
  pub idle : ℕ
  pub open_connections : ℕ

-- `Database.monitorConnectionPool`, over the statistics that the ticks find.
unfoldable pub monitor_connection_pool : List DbStats → Action Unit
unfolding update_db_connection_metrics
monitor_connection_pool [] = done tt
monitor_connection_pool (stats ∷ ticks) = do
  update_db_connection_metrics stats.in_use stats.idle stats.open_connections
  monitor_connection_pool ticks

module _ (env : Env) where
  unfoldable pub pinged_database : Pool → Option Error → Action (Result Database)
  unfolding println spawn
  pinged_database p (some e) = done (err (wrap "failed to ping database: %w" e))
  pinged_database p none = do
    println "Database connection pool established."
    spawn monitor_pool
    done (ok (record { db = some p }))

  unfoldable pub opened_database : Result Pool → Action (Result Database)
  unfolding configure_pool ping pinged_database
  opened_database (err e) = done (err (wrap "failed to connect to database: %w" e))
  opened_database (ok p) = do
    configure_pool p 25 25 300
    answer ← ping env p
    pinged_database p answer

  unfoldable pub new_database : String → Action (Result Database)
  unfolding open_pool opened_database
  new_database conn_str = do opening ← open_pool env conn_str; opened_database opening

  unfoldable pub init_db : String → Action (Option Error)
  unfolding new_database set_db_pool
  init_db conn_str = do
    database ← new_database conn_str
    elim database [ err e ↦ done (some e) | ok d ↦ do set_db_pool d.db; done none ]

  unfoldable pub close_if_open : Option Pool → Action (Option Error)
  unfolding close_pool
  close_if_open none = done none
  close_if_open (some p) = close_pool env p

  -- `Database.Close`.
  unfoldable pub close_database : Database → Action (Option Error)
  unfolding close_if_open
  close_database d = close_if_open d.db

  unfoldable pub close_db : Action (Option Error)
  unfolding close_if_open get_db_pool
  close_db = do p ← get_db_pool; close_if_open p

-- ===== src/Programs/Releases/Steps.antt =====
-- What the steps that both programs share give back.
use servone.Prelude.{String, ◌≡◌, refl, ap, ◌∙◌, Option, none, some, List, [], ◌∷◌, ◌++◌, arith}
use servone.Value.{Error, Result, ok, err}
use servone.World.{
  Env, World, Pool, Outcome, returned, Statement, Action, and_then, ◌>>◌, Event, closed,
  record_event, exec, get_db_pool, log_fatalf, log_error, log_printf, close_pool, println, Table,
}
use servone.Trace.{AllEvents, IsLog, Logs}
use servone.Db.Tables.{create_of, created_or_fatal, setup_database}
use servone.Db.Pools.{close_if_open, close_db}
use servone.Programs.Host.{or_fatal, fatal_if, close_pool_logged}
use servone.Programs.Releases.{pool, releases, always, Gives, Ends, exits, returns, Ends-and_then}

releases-append : (es es' : List Event) → AllEvents IsLog es → releases (es ++ es') ≡ releases es'
releases-append [] es' h = refl
releases-append (e ∷ es) es' (h, hs) = ground (arith, releases-append es es' hs)

-- A step that only logs gives nothing back.
pub Logs-Gives : (w v : World) → Logs w v → Gives [] w v
Logs-Gives w v (same, (es, logs, adds)) =
    (same, ([], refl, ap releases adds ∙ releases-append es w.trace logs))

pub Logs-Ends :
    {A : Type 0} (w : World) (r : Outcome A × World) (a : A)
    → r.0 ≡ returned a
    → Logs w r.1
    → Ends [] w r
Logs-Ends w (r, v) a h logs = returns a h (Logs-Gives w v logs)

pub or_fatal-Ends :
    {A : Type 0} (format : String) (r : Result A) (w : World) → Ends [] w (or_fatal format r w)
unfolding log_fatalf
or_fatal-Ends format (ok a) w = returns a refl (refl, ([], refl, refl))
or_fatal-Ends format (err e) w = exits refl refl (_, _, refl)

pub fatal_if-Ends :
    (format : String) (e : Option Error) (w : World) → Ends [] w (fatal_if format e w)
unfolding log_fatalf
fatal_if-Ends format none w = returns tt refl (refl, ([], refl, refl))
fatal_if-Ends format (some e) w = exits refl refl (_, _, refl)

pub log_error-Ends :
    (format : String) (e : Option Error) (w : World) → Ends [] w (log_error format e w)
unfolding log_error log_printf
log_error-Ends format none w = returns tt refl (refl, ([], refl, refl))
log_error-Ends format (some e) w = returns tt refl (refl, ([], refl, refl))

module _ (env : Env) (p : Pool) where
  exec-Ends :
      (db : Option Pool) (stmt : Statement) (w : World)
      → db ≡ some p
      → Ends [] w (exec env db none stmt w)
  unfolding exec
  exec-Ends none stmt w h = cc
  exec-Ends (some q) stmt w h = returns _ refl (refl, ([], refl, refl))

  created_or_fatal-Ends :
      (failure success : String) (answer : Option Error) (w : World)
      → Ends [] w (created_or_fatal env failure success answer w)
  unfolding created_or_fatal println log_fatalf
  created_or_fatal-Ends failure success (some e) w = exits refl refl (_, _, refl)
  created_or_fatal-Ends failure success none w = returns tt refl (refl, ([], refl, refl))

  -- One statement of `SetupDatabase`, on the pool, and the rest.
  statement-Ends :
      (t : Table) (failure success : String) (rest : Action Unit) (w : World)
      → w.db_pool ≡ some p
      → ((v : World) → v.db_pool ≡ some p → Ends [] v (rest v))
      → Ends [] w (
          and_then
            (exec env w.db_pool none (create_of t) w)
            (λ answer. created_or_fatal env failure success answer >> rest))
  statement-Ends t failure success rest w h next =
      Ends-and_then [] w (exec env w.db_pool none (create_of t) w) _
        (exec-Ends w.db_pool (create_of t) w h)
        (λ answer _ (same, _).
          let v = (exec env w.db_pool none (create_of t) w).1 in
          Ends-and_then [] v (created_or_fatal env failure success answer v) _
            (created_or_fatal-Ends failure success answer v)
            (λ _ _ (same', _). next _ (same' ∙ same ∙ h)))

  pub setup_database-Ends : (w : World) → w.db_pool ≡ some p → Ends [] w (setup_database env w)
  unfolding setup_database get_db_pool
  setup_database-Ends w h = statement-Ends _ _ _ _ w h (λ w₁ h₁.
      statement-Ends _ _ _ _ w₁ h₁ (λ w₂ h₂. statement-Ends _ _ _ _ w₂ h₂ (λ w₃ h₃.
        Ends-and_then [] w₃ _ _ (exec-Ends w₃.db_pool _ w₃ h₃)
          (λ answer _ _. created_or_fatal-Ends _ _ answer _))))

  -- The answer of the pool is logged if it is an error.
  answered-Gives :
      (q : Pool) (e : Option Error) (w : World)
      → Gives
          (always pool ∷ [])
          w
          (log_error "Failed to close database: %v" e (record_event (closed q e) w)).1
  unfolding log_error log_printf
  answered-Gives q none w = (refl, (pool ∷ [], ([], refl, refl), refl))
  answered-Gives q (some e) w = (refl, (pool ∷ [], ([], refl, refl), refl))

  closed-Gives :
      (db : Option Pool) (w : World)
      → db ≡ some p
      → Gives
          (always pool ∷ [])
          w
          (and_then (close_if_open env db w) (log_error "Failed to close database: %v")).1
  unfolding close_if_open close_pool
  closed-Gives none w h = cc
  closed-Gives (some q) w h = answered-Gives q (env.close_pool w.calls q) w

  -- The deferred closing of the pool, whatever it answers.
  pub close_pool-Gives :
      (w : World) → w.db_pool ≡ some p → Gives (always pool ∷ []) w (close_pool_logged env w).1
  unfolding close_pool_logged close_db get_db_pool
  close_pool-Gives w h = closed-Gives w.db_pool w h

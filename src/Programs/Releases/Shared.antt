-- ===== src/Programs/Releases/Shared.antt =====
-- The parts of `main` that both programs share, over what follows them.
use servone.Prelude.{ℕ, String, ◌≡◌, refl, ap, ◌∙◌, Option, none, some, List, [], ◌∷◌, ◌++◌}
use servone.Value.{Error, Result, ok, err}
use servone.World.{
  Env, World, Pool, Outcome, returned, panicked, exited, Action, and_then, ◌>>=◌, ◌>>◌, done,
  deferring, record_event, result_error, opened, kafka_opened, open_pool, configure_pool, ping,
  println, spawn, set_db_pool, log_fatalf,
}
use servone.Config.{Config}
use servone.Db.Tables.{Database, setup_database}
use servone.Db.Pools.{init_db, new_database, opened_database, pinged_database}
use servone.Kafka.Publisher.{
  PublisherInterface, close, new_kafka_publisher, kafka_publisher, open_client,
}
use servone.Kafka.Publisher as Publisher
use servone.Programs.Host.{or_fatal, fatal_if, close_pool_logged}
use servone.Programs.Releases.{
  Release, pool, kafka, releases, Says, Part, always, Matches, Ends, exits, returns, Ends-after,
  Ends-and_then, Ends-deferring,
}
use servone.Programs.Releases.Steps.{setup_database-Ends, close_pool-Gives}

module _ (env : Env) (parts : List Part) where
  -- Once the client was asked for: the process ends, or goes on with the publisher.
  publisher_opened-Ends :
      (format : String) (e : Option Error) (k : PublisherInterface → Action Unit) (w : World)
      → Ends parts w (k (kafka_publisher env) w)
      → Ends parts w (and_then (Publisher.opened env e w) (λ made. or_fatal format made >>= k))
  unfolding Publisher.opened log_fatalf
  publisher_opened-Ends format none k w ends = ends
  publisher_opened-Ends format (some e) k w ends = exits refl refl (_, _, refl)

  publisher-Ends :
      (new_client : ℕ → List String → Option Error) (brokers : List String) (format : String)
      (k : PublisherInterface → Action Unit) (w : World)
      → ((v : World) → v.db_pool ≡ w.db_pool → Ends parts v (k (kafka_publisher env) v))
      → Ends parts w (
          and_then
            (new_kafka_publisher env new_client brokers w)
            (λ made. or_fatal format made >>= k))
  unfolding new_kafka_publisher open_client
  publisher-Ends new_client brokers format k w next =
      let answer = new_client w.calls brokers in
      let v = record_event (kafka_opened brokers answer) w in
      Ends-after parts w v
        (and_then (Publisher.opened env answer v) (λ made. or_fatal format made >>= k))
        (refl, ([], refl, refl)) (publisher_opened-Ends format answer k v (next v refl))

  -- From the pool to the publisher, and what follows.
  pub pooled-Ends :
      (new_client : ℕ → List String → Option Error) (brokers : List String) (p : Pool)
      (k : PublisherInterface → Action Unit) (w : World)
      → w.db_pool ≡ some p
      → ((v : World) → v.db_pool ≡ some p → Ends parts v (k (kafka_publisher env) v))
      → Ends (always pool ∷ parts) w (
          deferring
            (close_pool_logged env)
            (do
              setup_database env
              made ← new_kafka_publisher env new_client brokers
              publisher ← or_fatal "Failed to create kafka publisher: %v" made
              k publisher)
            w)
  pooled-Ends new_client brokers p k w h next =
      let opening : Action Unit = (do
        made ← new_kafka_publisher env new_client brokers
        publisher ← or_fatal "Failed to create kafka publisher: %v" made
        k publisher) in
      let set_up = setup_database env w in
      Ends-deferring (always pool) parts w (close_pool_logged env) (and_then set_up (λ _. opening))
        (Ends-and_then parts w set_up (λ _. opening) (setup_database-Ends env p w h)
          (λ _ _ (same, _).
            publisher-Ends new_client brokers "Failed to create kafka publisher: %v" k set_up.1
              (λ v kept. next v (kept ∙ same ∙ h))))
        (λ v same. close_pool-Gives env p v (same ∙ h))

  -- The deferred closing of the publisher.
  pub publisher_closed-Ends :
      (m : Action Unit) (w : World)
      → Ends parts w (m w)
      → Ends (always kafka ∷ parts) w (deferring (kafka_publisher env).close m w)
  unfolding close
  publisher_closed-Ends m w ends =
      Ends-deferring (always kafka) parts w (kafka_publisher env).close (m w) ends
        (λ v _. (refl, (kafka ∷ [], ([], refl, refl), refl)))

-- The whole of `main`: the process ended with status 1, after a line of the log, and nothing was
-- given back, or `main` returned, having given back what the parts say.
pub data Finishes (parts : List Part) (w : World) (r : Outcome Unit × World) : Type 0 where
  finishes_early :
      r.0 ≡ exited 1 → releases r.1.trace ≡ releases w.trace → Says r.1 → Finishes parts w r
  finishes :
      (rs : List Release)
      → r.0 ≡ returned tt
      → Matches parts rs
      → releases r.1.trace ≡ rs ++ releases w.trace
      → Finishes parts w r

-- What `InitDB` comes to, with nothing given back: an error, or a pool that is the global one.
data Opens (before : List Release) (r : Outcome (Option Error) × World) : Type 0 where
  fails_to_open :
      (e : Error) → r.0 ≡ returned (some e) → releases r.1.trace ≡ before → Opens before r
  opens :
      (p : Pool)
      → r.0 ≡ returned none
      → r.1.db_pool ≡ some p
      → releases r.1.trace ≡ before
      → Opens before r

-- The end of `InitDB`.
abbrev assigned : Result Database → Action (Option Error)
assigned database = elim database [ err e ↦ done (some e) | ok d ↦ do set_db_pool d.db; done none ]

module _ (env : Env) where
  pinged-Opens :
      (p : Pool) (e : Option Error) (w : World)
      → Opens (releases w.trace) (and_then (pinged_database env p e w) assigned)
  unfolding pinged_database println spawn set_db_pool
  pinged-Opens p none w = opens p refl refl refl
  pinged-Opens p (some e) w = fails_to_open _ refl refl

  opened-Opens :
      (r : Result Pool) (w : World)
      → Opens (releases w.trace) (and_then (opened_database env r w) assigned)
  unfolding opened_database configure_pool ping
  opened-Opens (err e) w = fails_to_open _ refl refl
  opened-Opens (ok p) w =
      let configured_world = (configure_pool p 25 25 300 w).1 in
      pinged-Opens p (env.ping configured_world.calls p) (ping env p configured_world).1

  init_db-Opens : (conn : String) (w : World) → Opens (releases w.trace) (init_db env conn w)
  unfolding init_db new_database open_pool
  init_db-Opens conn w =
      let answer = env.open_pool w.calls conn in
      opened-Opens answer (record_event (opened conn (result_error answer)) w)

  Ends-Finishes :
      (parts : List Part) (w v : World) (r : Outcome Unit × World)
      → releases v.trace ≡ releases w.trace
      → Ends parts v r
      → Finishes parts w r
  Ends-Finishes parts w v r same (exits h kept says) = finishes_early h (kept ∙ same) says
  Ends-Finishes parts w v r same (returns tt h (kept, (rs, given, adds))) =
      finishes rs h given (adds ∙ ap (λ (l : List Release). rs ++ l) same)

  initialized-Finishes :
      (parts : List Part) (k : Action Unit) (w : World) (r : Outcome (Option Error) × World)
      → Opens (releases w.trace) r
      → ((p : Pool) (v : World) → v.db_pool ≡ some p → Ends parts v (k v))
      → Finishes parts w (and_then r (λ e. fatal_if "Failed to initialize database: %v" e >> k))
  unfolding log_fatalf
  initialized-Finishes parts k w (returned none, v) (opens p h is_open same) next =
      Ends-Finishes parts w v (k v) same (next p v is_open)
  initialized-Finishes parts k w (returned (some e), v) (fails_to_open d h same) next =
      finishes_early refl same (_, _, refl)
  initialized-Finishes parts k w (returned none, v) (fails_to_open d h same) next = cc
  initialized-Finishes parts k w (returned (some e), v) (opens p h is_open same) next = cc
  initialized-Finishes parts k w (panicked m, v) (fails_to_open d h same) next = cc
  initialized-Finishes parts k w (panicked m, v) (opens p h is_open same) next = cc
  initialized-Finishes parts k w (exited n, v) (fails_to_open d h same) next = cc
  initialized-Finishes parts k w (exited n, v) (opens p h is_open same) next = cc

  -- The start of `main` with what `LoadConfig` came to, and what follows it.
  pub main-Finishes :
      (loading : Result Config) (parts : List Part) (k : Config → Action Unit) (w : World)
      → ((cfg : Config) (p : Pool) (v : World)
          → loading ≡ ok cfg
          → v.db_pool ≡ some p
          → Ends parts v (k cfg v))
      → Finishes parts w (
          (do
            cfg ← or_fatal "Failed to load config: %v" loading
            e ← init_db env cfg.database.connection_string
            fatal_if "Failed to initialize database: %v" e
            k cfg)
            w)
  unfolding log_fatalf
  main-Finishes (err e) parts k w next = finishes_early refl refl (_, _, refl)
  main-Finishes (ok cfg) parts k w next =
      initialized-Finishes parts (k cfg) w (init_db env cfg.database.connection_string w)
        (init_db-Opens cfg.database.connection_string w) (λ p v is_open. next cfg p v refl is_open)

-- ===== src/Db/Atomic.antt =====
-- When a request is stored, reported as stored, and published.
use servone.Prelude.{suc, ◌∙◌, ◌≤◌, String, ◌≡◌, refl, ◌⊎◌, Option, none, some, arith, inl, inr}
use servone.Value.{Error, Fields, StringMap}
use servone.World.{Env, World, Pool, Outcome, returned, client_data}
use servone.Trace.{stored, sent}
use servone.Kafka.Publisher.{PublisherInterface}
use servone.Kafka.Contract.{IsPublisher}
use servone.Kafka.Logged.{Publishes, publish_logged}
use servone.Db.Method.{publish_saved}
use servone.Kafka.Topic.{sanitize_topic}
use servone.Db.Paths.{save_to_db_paths}
use servone.World.{Action, ◌>>◌, done}
use servone.Db.Global.{save_to_db_with_error}

-- A publisher is absent, or keeps its contract.
abbrev pub IsSafe : Option PublisherInterface → Type 0
IsSafe none = Unit
IsSafe (some p) = IsPublisher p

-- What one save may come to, from the world before it: it returns nil, with one row more in
-- `client_data` and at most one record more for Kafka, or it returns an error, with no row and no
-- record more.
abbrev pub SavesOrFails : World → Outcome (Option Error) × World → Type 0
SavesOrFails w (r, w') =
    ((r ≡ returned none)
      × (stored client_data w'.trace ≡ suc (stored client_data w.trace))
      × (sent w'.trace ≤ suc (sent w.trace)))
    ⊎ ((e : Error) × (r ≡ returned (some e))
        × (stored client_data w'.trace ≡ stored client_data w.trace)
        × (sent w'.trace ≡ sent w.trace))

publish_saved_lem :
    (publisher : Option PublisherInterface) (url : String) (payload : Fields) (w : World)
    → IsSafe publisher
    → Publishes client_data w (publish_saved publisher url payload w)
unfolding publish_saved
publish_saved_lem none url payload w h = (refl, refl, omega arith)
publish_saved_lem (some p) url payload w h =
    publish_logged client_data p "Failed to publish to Kafka: %v" (sanitize_topic url) payload w h

saved :
    (m : Action Unit) (w v : World)
    → Publishes client_data v (m v)
    → stored client_data v.trace ≡ suc (stored client_data w.trace)
    → sent v.trace ≡ sent w.trace
    → SavesOrFails w ((m >> done none) v)
saved m w v (quiet, rows, records) stored_one sent_none =
    rw quiet (inl (refl, rows ∙ stored_one, omega (arith, records, sent_none)))

module _ (env : Env) (url : String) (data_map : Fields) (params : StringMap)
    (publisher : Option PublisherInterface) (safe : IsSafe publisher) (w : World) (p : Pool)
    (opened : w.db_pool ≡ some p) where
  -- With `DbPool` open, and no publisher or one that keeps its contract, `SaveToDBWithError`
  -- returns nil exactly when it stored one row, whatever becomes of the record for Kafka, of which
  -- there is one at most; where it returns an error it stored nothing and sent nothing.
  pub save_to_db_atomic : SavesOrFails w (save_to_db_with_error env url data_map params publisher w)
  save_to_db_atomic =
      save_to_db_paths env url data_map params publisher w p opened (SavesOrFails w)
        (λ e. inr (e, refl, refl, refl)) (λ a b t x. inr (_, refl, refl, refl))
        λ a b t received.
          saved (publish_saved publisher url _) w _ (publish_saved_lem publisher url _ _ safe) refl
            refl

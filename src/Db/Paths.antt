-- ===== src/Db/Paths.antt =====
-- The ways through `SaveToDBWithError`, as a rule of induction.
use servone.Prelude.{ℕ, suc, String, ◌≡◌, Option, none, some, inl, inr, Option-cases}
use servone.Value.{Error, wrap, Fields, StringMap, object, of_strings}
use servone.Value.Cases.{Result-cases}
use servone.World.{
  Env, World, Pool, Outcome, returned, executed, Statement, ◌>>◌, done, record_event,
}
use servone.Kafka.Publisher.{PublisherInterface}
use servone.Db.Merge.{merge}
use servone.Db.Rows.{insert_client_data, kafka_data}
use servone.Db.Method.{publish_saved}
use servone.Db.Global.{save_to_db_with_error}

-- The world after the two readings of the clock and the INSERT.
abbrev pub after_insert : Pool → Statement → Option Error → World → World
after_insert p row answer w =
    record_event (executed p (some 5) row answer) (record w { calls = suc (suc w.calls) })

module _ (env : Env) (url : String) (data_map : Fields) (params : StringMap)
    (publisher : Option PublisherInterface) (w : World) (p : Pool) (opened : w.db_pool ≡ some p)
    (P : Outcome (Option Error) × World → Type 0) where
  -- A property of results and worlds holds of a save if it holds of a return with an error from the
  -- world before, of a return with an error after a failed INSERT, and of the publishing, and the
  -- return of nil, after an INSERT that succeeded.
  pub save_to_db_paths :
      ((e : Error) → P (returned (some e), w))
      → ((a b : String) (t : ℕ) (x : Error)
          → P (
            returned (some (wrap "failed to insert data into database: %w" x)),
            after_insert p (insert_client_data url a b t) (some x) w,
          ))
      → ((a b : String) (t received : ℕ)
          → P (
              (publish_saved publisher url (kafka_data (merge data_map params) params url received)
                  >> done none)
                (after_insert p (insert_client_data url a b t) none w)))
      → P (save_to_db_with_error env url data_map params publisher w)
  unfolding save_to_db_with_error
  save_to_db_paths unsaved refused stored =
      elim (Result-cases (env.marshal (object (merge data_map params)))) [
        | inr (e, h) ↦ rw h (unsaved _)
        | inl (a, h) ↦ elim (Result-cases (env.marshal (object (of_strings params)))) [
          | inr (e, k) ↦ rw (h, k) (unsaved _)
          | inl (b, k) ↦
              let row = insert_client_data url a b (env.clock (suc w.calls)) in
              elim (Option-cases (env.exec (suc (suc w.calls)) p (some 5) row)) [
                | inl l ↦
                    rw (h, k, opened, l)
                      (rw opened at (stored a b (env.clock (suc w.calls)) (env.clock w.calls)))
                | inr (e, l) ↦
                    rw (h, k, opened, l) (rw opened at (refused a b (env.clock (suc w.calls)) e))
              ]
        ]
      ]

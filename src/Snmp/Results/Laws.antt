-- ===== src/Snmp/Results/Laws.antt =====
-- What `processResults` does with the PDUs of an agent.
use servone.Prelude.{
  ℕ, suc, ◌≤◌, String, ◌≡◌, refl, ap, ◌∙◌, ◌⊎◌, inl, inr, Option, none, some, List, arith,
  Option-cases,
}
use servone.Prelude.Int.{pos}
use servone.Value.{Error, ok, err, int, text, items, object, Items, Fields, end, field}
use servone.Value.Cases.{Result-cases}
use servone.World.{Env, World, Pool, returned, panicked, snmp_data, Action, ◌>>◌}
use servone.Trace.{stored, sent, attempts}
use servone.Kafka.Publisher.{PublisherInterface}
use servone.Kafka.Contract.{IsPublisher}
use servone.Kafka.Logged.{Publishes, publish_logged, publish_logged_attempts}
use servone.Db.Rows.{insert_snmp_data}
use servone.Snmp.Results.{
  SnmpPdu, PduText, save_if_open, publish_to, snmp_topic, snmp_data_map, process_results,
}
use servone.Snmp.Results.Collected.{AllTyped, Describes, collect_results_lem}

module _ (print : PduText) (env : Env) where
  -- The row is stored, or the data cannot be marshalled, or the INSERT is refused.
  abbrev pub StoresRow : Pool → String → Fields → ℕ → World → World → Type 0
  StoresRow p source data_map received w w' =
      ((e : Error) × (env.marshal (object data_map) ≡ err e)
        × (stored snmp_data w'.trace ≡ stored snmp_data w.trace))
      ⊎ ((json : String) × (call : ℕ) × (env.marshal (object data_map) ≡ ok json)
          × (((env.exec call p (some 5) (insert_snmp_data source json received) ≡ none)
                × (stored snmp_data w'.trace ≡ suc (stored snmp_data w.trace)))
              ⊎ ((e : Error) × (env.exec call p (some 5) (insert_snmp_data source json received)
                    ≡ some e)
                  × (stored snmp_data w'.trace ≡ stored snmp_data w.trace))))

  save_if_open_lem :
      (p : Pool) (source : String) (data_map : Fields) (received : ℕ) (w : World)
      → ((save_if_open print env (some p) source data_map received w).0 ≡ returned tt)
        × (sent (save_if_open print env (some p) source data_map received w).1.trace ≡ sent w.trace)
        × StoresRow p source data_map received w
            (save_if_open print env (some p) source data_map received w).1
  unfolding save_if_open
  save_if_open_lem p source data_map received w =
      elim (Result-cases (env.marshal (object data_map))) [
        | inr (e, bad) ↦ rw bad (refl, refl, inl (e, refl, refl))
        | inl (json, good) ↦
            elim (Option-cases
              (env.exec w.calls p (some 5) (insert_snmp_data source json received))) [
                | inl stored_it ↦
                    rw (good, stored_it)
                      (refl, refl, inr (json, w.calls, refl, inl (stored_it, refl)))
                | inr (e, refused) ↦
                    rw (good, refused)
                      (refl, refl, inr (json, w.calls, refl, inr (e, refused, refl)))
              ]
      ]

  publish_to_lem :
      (publisher : PublisherInterface) (topic : String) (data_map : Fields) (w : World)
      → IsPublisher publisher
      → Publishes snmp_data w (publish_to print env (some publisher) topic data_map w)
  unfolding publish_to
  publish_to_lem publisher topic data_map w keeps =
      publish_logged snmp_data publisher "Failed to publish SNMP data to Kafka: %v" topic data_map w
        keeps

  StoresRow-of_same :
      (p : Pool) (source : String) (data_map : Fields) (received : ℕ) (w v u : World)
      → stored snmp_data v.trace ≡ stored snmp_data w.trace
      → StoresRow p source data_map received v u
      → StoresRow p source data_map received w u
  StoresRow-of_same p source data_map received w v u h (inl (e, bad, same)) = inl (e, bad, same ∙ h)
  StoresRow-of_same p source data_map received w v u h (inr (json, call, good, inl (ran, one))) =
      inr (json, call, good, inl (ran, one ∙ ap suc h))
  StoresRow-of_same p source data_map received w v u h
        (inr (json, call, good, inr (e, refused, same))) =
      inr (json, call, good, inr (e, refused, same ∙ h))

  save_after :
      (m : Action Unit) (p : Pool) (source : String) (data_map : Fields) (received : ℕ)
      (w v : World)
      → Publishes snmp_data w (m v)
      → (((m >> save_if_open print env (some p) source data_map received) v).0 ≡ returned tt)
        × (sent ((m >> save_if_open print env (some p) source data_map received) v).1.trace
            ≤ suc (sent w.trace))
        × StoresRow p source data_map received w
            ((m >> save_if_open print env (some p) source data_map received) v).1
  save_after m p source data_map received w v (quiet, rows, records) =
      let (returns, none_sent, row) = save_if_open_lem p source data_map received (m v).1 in
      rw quiet (
        returns,
        omega (arith, none_sent, records),
        StoresRow-of_same p source data_map received w (m v).1
            (save_if_open print env (some p) source data_map received (m v).1).1 rows row,
      )

  save_if_open-attempts :
      (p : Option Pool) (source : String) (data_map : Fields) (received : ℕ) (w : World)
      → attempts (save_if_open print env p source data_map received w).1.trace ≡ attempts w.trace
  unfolding save_if_open
  save_if_open-attempts none source data_map received w = refl
  save_if_open-attempts (some p) source data_map received w = ground arith

  save_after-attempts :
      (m : Action Unit) (p : Pool) (source : String) (data_map : Fields) (received : ℕ) (v : World)
      → (m v).0 ≡ returned tt
      → attempts ((m >> save_if_open print env (some p) source data_map received) v).1.trace
        ≡ attempts (m v).1.trace
  save_after-attempts m p source data_map received v quiet =
      rw quiet (save_if_open-attempts (some p) source data_map received (m v).1)

  publish_to-attempts :
      (publisher : PublisherInterface) (topic : String) (data_map : Fields) (w : World)
      → IsPublisher publisher
      → attempts (publish_to print env (some publisher) topic data_map w).1.trace ≡ attempts w.trace
  unfolding publish_to
  publish_to-attempts publisher topic data_map w keeps =
      publish_logged_attempts publisher "Failed to publish SNMP data to Kafka: %v" topic data_map w
        keeps

  module _ (operation source : String) (pdus : List SnmpPdu) (publisher : PublisherInterface)
      (keeps : IsPublisher publisher) (p : Pool) (w : World) where
    -- With a publisher that keeps its contract and a pool: if every PDU's value has the Go type
    -- that is asserted for its type, `processResults` returns, hands over one record at most, and
    -- stores one row, whatever became of the record, unless the data cannot be marshalled or the
    -- INSERT is refused. The row's data is the JSON of the operation, the source, the time and the
    -- results, one for each PDU in their order with its name, its type and its value as a text.
    -- If a value has another type, it panics and has
    -- neither stored nor sent anything.
    pub process_results_stores :
        (AllTyped pdus
          × (results : Items) × Describes print pdus results
          × ((process_results print env operation source pdus (some publisher) (some p) w).0
              ≡ returned tt)
          × (sent
                (process_results print env operation source pdus
                  (some publisher)
                  (some p)
                  w).1.trace
              ≤ suc (sent w.trace))
          × StoresRow p source
              (field "operation" (text operation) (
                field "source" (text source) (
                  field "results"
                    (items results)
                    (field "timestamp" (int (pos (env.clock w.calls))) end))))
              (env.clock w.calls)
              w
              (process_results print env operation source pdus (some publisher) (some p) w).1)
        ⊎ ((AllTyped pdus → ⊥)
            × ((process_results print env operation source pdus (some publisher) (some p) w).0
                ≡ panicked "interface conversion")
            × ((process_results print env operation source pdus (some publisher) (some p) w).1.trace
                ≡ w.trace))
    unfolding process_results
    process_results_stores =
        let w₁ = record w { calls = suc w.calls } in
        elim (collect_results_lem print pdus w₁) [
          | inr (untyped, panics) ↦ rw panics (inr (untyped, refl, refl))
          | inl (typed, (xs, all, returns)) ↦
              let (quiet, one, row) =
                save_after
                  (publish_to print env (some publisher) (snmp_topic print env operation source)
                    (snmp_data_map print operation source xs (env.clock w.calls)))
                  p source (snmp_data_map print operation source xs (env.clock w.calls))
                  (env.clock w.calls) w w₁
                  (publish_to_lem publisher (snmp_topic print env operation source)
                    (snmp_data_map print operation source xs (env.clock w.calls)) w₁ keeps) in
              rw returns (inl (typed, xs, all, quiet, one, row))
        ]

    -- It connects to no agent.
    pub process_results-attempts :
        attempts
          (process_results print env operation source pdus (some publisher) (some p) w).1.trace
        ≡ attempts w.trace
    unfolding process_results
    process_results-attempts =
        let w₁ = record w { calls = suc w.calls } in
        elim (collect_results_lem print pdus w₁) [
          | inr (untyped, panics) ↦ rw panics refl
          | inl (typed, (xs, all, returns)) ↦
              let topic = snmp_topic print env operation source in
              let made = snmp_data_map print operation source xs (env.clock w.calls) in
              let (quiet, rows, records) = publish_to_lem publisher topic made w₁ keeps in
              rw returns (
                save_after-attempts (publish_to print env (some publisher) topic made) p source made
                  (env.clock w.calls) w₁ quiet
                ∙ publish_to-attempts publisher topic made w₁ keeps)
        ]

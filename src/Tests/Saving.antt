-- ===== src/Tests/Saving.antt =====
-- Saving a request.
use servone.Prelude.{◌≡◌, refl, ◌⊎◌, some, none, [], ◌∷◌}
use servone.Value.{get, get_string, Error}
use servone.World.{returned, client_data, mqtt_messages, coap_messages, snmp_data, Pool}
use servone.Kafka.Contract.{kafka_publisher-IsPublisher}
use servone.Db.Merge.{merge}
use servone.Db.Merge.Laws.{or_else, text_of, IsMap, get-merge}
use servone.Db.Atomic.{SavesOrFails, save_to_db_atomic}
use servone.Db.Schema.{AllFit, save_to_db-AllFit}
use servone.Db.Method
use servone.Db.Global
use servone.Db.Same.{save_to_db_method_eq_global}
use servone.Db.Tables.{setup_tables, setup_database, create_of}
use servone.Db.Pools.{init_db}
use servone.Db.Setup.{SameOutcome, statements, on_pool, setup_same, setup_complete, init_db-DbPool}
use servone.Tests.Samples.{sample_env, sample_world, reading, sample_publisher}

reading-IsMap : IsMap reading
unfolding get
reading-IsMap = (refl, tt)

get-merge_example :
    get "id" (merge reading (("id", "7") ∷ []))
    ≡ or_else (get "id" reading) (text_of (get_string "id" (("id", "7") ∷ [])))
get-merge_example = get-merge "id" reading (("id", "7") ∷ []) reading-IsMap

save_to_db_atomic_example : SavesOrFails sample_world (
    Global.save_to_db_with_error sample_env "/api/tempo" reading []
      (some sample_publisher)
      sample_world)
save_to_db_atomic_example =
    save_to_db_atomic sample_env "/api/tempo" reading [] (some sample_publisher)
      (kafka_publisher-IsPublisher sample_env) sample_world 1 refl

save_to_db-AllFit_example :
    AllFit
      (Global.save_to_db_with_error sample_env "/api/tempo" reading []
        (some sample_publisher)
        sample_world).1
save_to_db-AllFit_example =
    save_to_db-AllFit sample_env "/api/tempo" reading [] (some sample_publisher) sample_world 1
      (kafka_publisher-IsPublisher sample_env) refl tt

save_to_db_method_eq_global_example :
    Method.save_to_db_with_error sample_env
      (on_pool 1)
      "/api/tempo"
      reading
      []
      (some sample_publisher)
      sample_world
    ≡ Global.save_to_db_with_error sample_env "/api/tempo" reading []
        (some sample_publisher)
        sample_world
save_to_db_method_eq_global_example =
    save_to_db_method_eq_global sample_env (on_pool 1) sample_world refl "/api/tempo" reading []
      (some sample_publisher)

setup_same_example :
    SameOutcome
      (setup_tables sample_env (on_pool 1) sample_world).0
      (setup_database sample_env sample_world).0
    × (statements (setup_tables sample_env (on_pool 1) sample_world).1.trace
        ≡ statements (setup_database sample_env sample_world).1.trace)
setup_same_example = setup_same sample_env sample_world 1 refl

sets_up : (setup_database sample_env sample_world).0 ≡ returned tt
unfolding setup_database
sets_up = refl

setup_complete_example :
    statements (setup_database sample_env sample_world).1.trace
    ≡ create_of snmp_data
      ∷ create_of coap_messages
      ∷ create_of mqtt_messages
      ∷ create_of client_data
      ∷ statements []
setup_complete_example = setup_complete sample_env sample_world 1 refl sets_up

init_db-DbPool_example :
    (((init_db sample_env "dsn" sample_world).0 ≡ returned none)
      × ((p : Pool) × ((init_db sample_env "dsn" sample_world).1.db_pool ≡ some p)))
    ⊎ ((e : Error) × ((init_db sample_env "dsn" sample_world).0 ≡ returned (some e))
        × ((init_db sample_env "dsn" sample_world).1.db_pool ≡ sample_world.db_pool))
init_db-DbPool_example = init_db-DbPool sample_env "dsn" sample_world

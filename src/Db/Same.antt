-- ===== src/Db/Same.antt =====
-- The methods of `Database` against the global functions.
use servone.Prelude.{ℕ, String, ◌≡◌, Option, arith}
use servone.Value.{Fields, StringMap}
use servone.World.{Env, World}
use servone.Kafka.Publisher.{PublisherInterface}
use servone.Db.Tables.{Database}
use servone.Db.Method
use servone.Db.Global

module _ (env : Env) (d : Database) (w : World) (same : d.db ≡ w.db_pool) where
  -- With the pool of `DbPool`, the method and the global `SaveToDBWithError` are one function: the
  -- same result and the same effects, for every request, publisher and behaviour of the world.
  pub save_to_db_method_eq_global :
      (url : String) (data_map : Fields) (params : StringMap)
      (publisher : Option PublisherInterface)
      → Method.save_to_db_with_error env d url data_map params publisher w
        ≡ Global.save_to_db_with_error env url data_map params publisher w
  unfolding Method.save_to_db_with_error Global.save_to_db_with_error
  save_to_db_method_eq_global url data_map params publisher = ground arith

  pub save_coap_method_eq_global :
      (path payload method : String) (t : ℕ)
      → Method.save_coap_message env d path payload method t w
        ≡ Global.save_coap_message env path payload method t w
  unfolding Method.save_coap_message Global.save_coap_message
  save_coap_method_eq_global path payload method t = ground arith

  pub save_snmp_method_eq_global :
      (host : String) (data_map : Fields) (t : ℕ)
      → Method.save_snmp_data env d host data_map t w ≡ Global.save_snmp_data env host data_map t w
  unfolding Method.save_snmp_data Global.save_snmp_data
  save_snmp_method_eq_global host data_map t = ground arith

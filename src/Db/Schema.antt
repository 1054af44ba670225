-- ===== src/Db/Schema.antt =====
-- The INSERT statements against the columns that the program declares.
use servone.Prelude.{ℕ, String, ◌≡◌, refl, Option, none, some, List, [], ◌∷◌, arith}
use servone.Value.{Error, Fields, StringMap}
use servone.Db.Rows.{insert_client_data}
use servone.Db.Paths.{save_to_db_paths}
use servone.World.{
  Env, World, Pool, ColumnType, serial_primary_key, text_not_null, text, jsonb, bigint, Arg,
  string_arg, bytes_arg, int_arg, Statement, create_table, insert_into, Event, executed, log_error,
  Action, ◌>>◌, done,
}
use servone.Trace.{AllEvents, IsNoSql, AllEvents-append}
use servone.Kafka.Publisher.{PublisherInterface}
use servone.Db.Tables.{columns, setup_database}
use servone.Db.Atomic.{IsSafe}
use servone.Db.Global.{save_to_db_with_error, save_mqtt_message, save_coap_message, save_snmp_data}
use servone.Db.Method.{publish_saved}
use servone.Kafka.Topic.{sanitize_topic}

abbrev pub FitsType : Arg → ColumnType → Type 0
FitsType (string_arg s) text_not_null = Unit
FitsType (string_arg s) text = Unit
FitsType (bytes_arg s) jsonb = Unit
FitsType (int_arg n) bigint = Unit
FitsType _ _ = ⊥

-- The arguments are those of all columns but the serial key, in their order and of their types.
abbrev pub FitsColumns : List (String × Arg) → List (String × ColumnType) → Type 0
FitsColumns args ((c, serial_primary_key) ∷ cols) = FitsColumns args cols
FitsColumns ((n, a) ∷ args) ((c, t) ∷ cols) = (n ≡ c) × FitsType a t × FitsColumns args cols
FitsColumns [] [] = Unit
FitsColumns _ _ = ⊥

abbrev pub FitsSchema : Statement → Type 0
FitsSchema (create_table t cols) = cols ≡ columns t
FitsSchema (insert_into t args) = FitsColumns args (columns t)

abbrev pub IsFitting : Event → Type 0
IsFitting (executed p deadline stmt answer) = FitsSchema stmt
IsFitting _ = Unit

IsFitting-of_IsNoSql : (e : Event) → IsNoSql e → IsFitting e
IsFitting-of_IsNoSql (executed p deadline stmt answer) h = elim h [ ]
IsFitting-of_IsNoSql _ h = tt

-- Every statement that was sent fits the declared columns.
abbrev pub AllFit : World → Type 0
AllFit w = AllEvents IsFitting w.trace

AllFit_of_no_sql : (es : List Event) → AllEvents IsNoSql es → AllEvents IsFitting es
AllFit_of_no_sql [] h = tt
AllFit_of_no_sql (e ∷ es) (he, hes) = (IsFitting-of_IsNoSql e he, AllFit_of_no_sql es hes)

log_error-AllFit :
    (format : String) (e : Option Error) (w : World) → AllFit w → AllFit (log_error format e w).1
unfolding log_error
log_error-AllFit format none w h = h
log_error-AllFit format (some e) w h = (tt, h)

publish_saved-AllFit :
    (publisher : Option PublisherInterface) (url : String) (payload : Fields) (w : World)
    → IsSafe publisher
    → AllFit w
    → AllFit (publish_saved publisher url payload w).1
unfolding publish_saved
publish_saved-AllFit none url payload w safe h = h
publish_saved-AllFit (some p) url payload w safe h =
    let c = safe (sanitize_topic url) payload w in
    rw c.returns (
      log_error-AllFit _ c.error _ (
        rw c.adds
          (AllEvents-append IsFitting c.events w.trace (AllFit_of_no_sql c.events c.no_sql) h)))

then_done-AllFit :
    (m : Action Unit) (v : World)
    → AllFit (m v).1
    → AllFit ((m >> done {A = Option Error} none) v).1
then_done-AllFit m v h = ground arith

client_row : (url a b : String) (t : ℕ) → FitsSchema (insert_client_data url a b t)
client_row url a b t = (refl, tt, (refl, tt, (refl, tt, (refl, tt, tt))))

-- As long as every statement so far fits the columns that the program declares for its table
-- (each column but the serial key has one argument, of its type, in the order of the columns), so
-- does every statement that `SaveToDBWithError` sends with `DbPool` open and no publisher or one that
-- keeps its contract.
pub save_to_db-AllFit :
    (env : Env) (url : String) (data_map : Fields) (params : StringMap)
    (publisher : Option PublisherInterface) (w : World) (p : Pool)
    → IsSafe publisher
    → w.db_pool ≡ some p
    → AllFit w
    → AllFit (save_to_db_with_error env url data_map params publisher w).1
save_to_db-AllFit env url data_map params publisher w p safe opened h =
    save_to_db_paths env url data_map params publisher w p opened (λ r. AllFit r.1) (λ e. h)
      (λ a b t x. (client_row url a b t, h))
      λ a b t received.
        then_done-AllFit (publish_saved publisher url _) _
          (publish_saved-AllFit publisher url _ _ safe (client_row url a b t, h))

module _ (env : Env) (w : World) (h : AllFit w) where
  save_mqtt_message-AllFit :
      (topic payload : String) (t : ℕ) → AllFit (save_mqtt_message env topic payload t w).1
  unfolding save_mqtt_message
  save_mqtt_message-AllFit topic payload t = ground arith

  save_coap_message-AllFit :
      (path payload method : String) (t : ℕ)
      → AllFit (save_coap_message env path payload method t w).1
  unfolding save_coap_message
  save_coap_message-AllFit path payload method t = ground arith

  save_snmp_data-AllFit :
      (host : String) (data_map : Fields) (t : ℕ) → AllFit (save_snmp_data env host data_map t w).1
  unfolding save_snmp_data
  save_snmp_data-AllFit host data_map t = ground arith

  setup_database-AllFit : AllFit (setup_database env w).1
  unfolding setup_database
  setup_database-AllFit = ground arith

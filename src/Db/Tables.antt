-- ===== src/Db/Tables.antt =====
-- The tables: `SetupTables` and `SetupDatabase` of db/database.go.
use servone.Prelude.{String, Option, none, some, List, [], ◌∷◌}
use servone.Value.{Error, wrap}
use servone.World.{
  Env, Pool, Table, client_data, mqtt_messages, coap_messages, snmp_data, ColumnType,
  serial_primary_key, text_not_null, text, jsonb, bigint, Statement, create_table, Action, ◌>>=◌,
  ◌>>◌, done, exec, println, log_fatalf, get_db_pool,
}

-- `Database`, with its field `db`.
pub record Database : Type 0 where
  pub db : Option Pool

-- The columns that the program declares for each table.
abbrev pub columns : Table → List (String × ColumnType)
columns client_data =
    ("id", serial_primary_key)
    ∷ ("url", text_not_null)
    ∷ ("data", jsonb)
    ∷ ("parameters", jsonb)
    ∷ ("created_at", bigint)
    ∷ []
columns mqtt_messages =
    ("id", serial_primary_key)
    ∷ ("topic", text_not_null)
    ∷ ("payload", text)
    ∷ ("created_at", bigint)
    ∷ []
columns coap_messages =
    ("id", serial_primary_key)
    ∷ ("path", text_not_null)
    ∷ ("payload", text)
    ∷ ("method", text)
    ∷ ("created_at", bigint)
    ∷ []
columns snmp_data =
    ("id", serial_primary_key)
    ∷ ("host", text_not_null)
    ∷ ("data", jsonb)
    ∷ ("created_at", bigint)
    ∷ []

abbrev pub create_of : Table → Statement
create_of t = create_table t (columns t)

module _ (env : Env) where
  -- The end of each `create…Table`: an error is wrapped, success is printed.
  created : String → String → Option Error → Action (Option Error)
  unfolding println
  created failure success (some e) = done (some (wrap failure e))
  created failure success none = do println success; done none

  unfoldable pub create_client_data_table : Database → Action (Option Error)
  unfolding exec created
  create_client_data_table d = do
    answer ← exec env d.db none (create_of client_data)
    created "failed to create 'client_data' table: %w"
        "Table 'client_data' created successfully or already exists." answer

  unfoldable pub create_mqtt_messages_table : Database → Action (Option Error)
  unfolding exec created
  create_mqtt_messages_table d = do
    answer ← exec env d.db none (create_of mqtt_messages)
    created "failed to create 'mqtt_messages' table: %w"
        "Table 'mqtt_messages' created successfully or already exists." answer

  unfoldable pub create_coap_messages_table : Database → Action (Option Error)
  unfolding exec created
  create_coap_messages_table d = do
    answer ← exec env d.db none (create_of coap_messages)
    created "failed to create 'coap_messages' table: %w"
        "Table 'coap_messages' created successfully or already exists." answer

  unfoldable pub create_snmp_data_table : Database → Action (Option Error)
  unfolding exec created
  create_snmp_data_table d = do
    answer ← exec env d.db none (create_of snmp_data)
    created "failed to create 'snmp_data' table: %w"
        "Table 'snmp_data' created successfully or already exists." answer

  -- `if err := first; err != nil { return err }`, and what follows it.
  or_else_return : Action (Option Error) → Action (Option Error) → Action (Option Error)
  or_else_return first rest = do e ← first; elim e [ some x ↦ done (some x) | none ↦ rest ]

  -- `Database.SetupTables`.
  unfoldable pub setup_tables : Database → Action (Option Error)
  unfolding or_else_return create_client_data_table create_mqtt_messages_table
      create_coap_messages_table create_snmp_data_table
  setup_tables d = or_else_return (create_client_data_table d) (
      or_else_return (create_mqtt_messages_table d) (
        or_else_return (create_coap_messages_table d)
          (or_else_return (create_snmp_data_table d) (done none))))

  -- One statement of `SetupDatabase`: an error ends the process.
  unfoldable pub created_or_fatal : String → String → Option Error → Action Unit
  unfolding println log_fatalf
  created_or_fatal failure success (some e) = log_fatalf failure
  created_or_fatal failure success none = println success

  -- The global `SetupDatabase`.
  unfoldable pub setup_database : Action Unit
  unfolding exec created_or_fatal get_db_pool
  setup_database = do
    first ← get_db_pool
    answer₁ ← exec env first none (create_of client_data)
    created_or_fatal "Failed to create 'client_data' table: %v"
        "Table 'client_data' created successfully or already exists." answer₁
    second ← get_db_pool
    answer₂ ← exec env second none (create_of mqtt_messages)
    created_or_fatal "Failed to create 'mqtt_messages' table: %v"
        "Table 'mqtt_messages' created successfully or already exists." answer₂
    third ← get_db_pool
    answer₃ ← exec env third none (create_of coap_messages)
    created_or_fatal "Failed to create 'coap_messages' table: %v"
        "Table 'coap_messages' created successfully or already exists." answer₃
    fourth ← get_db_pool
    answer₄ ← exec env fourth none (create_of snmp_data)
    created_or_fatal "Failed to create 'snmp_data' table: %v"
        "Table 'snmp_data' created successfully or already exists." answer₄

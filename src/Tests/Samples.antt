-- ===== src/Tests/Samples.antt =====
-- A world that answers every call with success, and small configurations.
use servone.Prelude.{ℕ, true, false, none, some, [], ◌∷◌}
use servone.Prelude.Int.{pos}
use servone.Value.{message, ok, err, int, Fields, end, field}
use servone.World.{Env, World, delivered}
use servone.Config.{Config, EndpointConfig}
use servone.Go.{Go}
use servone.Http.{Request}
use servone.Kafka.Publisher.{PublisherInterface, kafka_publisher}
use servone.Server.Routes.{DynamicServer}
use servone.Snmp.Results.{PduText}
use servone.Snmp.Client.{Agents}
use servone.Template.{Templates}

abbrev pub reading : Fields
reading = field "temp" (int (pos 21)) end

abbrev pub sample_env : Env
sample_env = record {
  clock = λ n. n;
  open_pool = λ n s. ok 1;
  ping = λ n p. none;
  close_pool = λ n p. none;
  exec = λ n p d s. none;
  produce = λ n t p. delivered;
  marshal = λ v. ok "{}";
  unmarshal = λ s. ok reading;
}

-- The same, with an encoder that always fails.
abbrev pub mute_env : Env
mute_env = record sample_env { marshal = λ v. err (message "unsupported type") }

abbrev pub sample_world : World
sample_world = record { calls = 0; trace = []; db_pool = some 1; goroutines = [] }

abbrev pub sample_publisher : PublisherInterface
sample_publisher = kafka_publisher sample_env

abbrev pub sample_go : Go
sample_go = record {
  canonical_header_key = λ s. s;
  upper_rune = λ c. c;
  format_rfc3339 = λ n. "2025-01-01T00:00:00Z";
}

-- Every text is a template, and every template gives "OK".
abbrev pub sample_templates : Templates ℕ
sample_templates = record { parse = λ s. ok 7; execute = λ t d. ok "OK" }

abbrev pub tempo : EndpointConfig
tempo = record {
  path = "/api/tempo";
  method = "POST";
  response = record {
    status = pos 201;
    body = "{\"result\": \"success\"}";
    headers = ("Content-Type", "application/json") ∷ [];
  };
}

-- An endpoint whose configuration has no status.
abbrev pub no_status : EndpointConfig
no_status = record tempo { response = record { status = pos 0; body = ""; headers = [] } }

abbrev pub post : Request
post = record {
  method = "POST";
  url_path = "/api/tempo";
  vars = [];
  body = some (record { content = "{\"temp\": 21}"; size = 12; broken = false });
}

abbrev pub sample_config : Config
sample_config = record {
  database = record { connection_string = "" };
  rest = record { host = "0.0.0.0"; port = "8090"; endpoints = tempo ∷ [] };
  coap = record { port = "5683"; host = "0.0.0.0"; endpoints = [] };
  kafka = record { brokers = [] };
  mqtt = record { broker = ""; client_id = "" };
  snmp = record {
    port = pos 161;
    timeout = pos 5;
    retries = pos 3;
    username = "nagios";
    auth_protocol = "SHA";
    auth_passphrase = "";
    priv_protocol = "AES";
    priv_passphrase = "";
    term = pos 30;
    targets = "127.0.0.1" ∷ [];
    root_oid = "1.3.6.1.2.1.1";
  };
  snmptrap = record {
    enabled = true;
    host = "0.0.0.0";
    port = pos 1162;
    username = "nagios";
    auth_protocol = "SHA";
    auth_passphrase = "";
    priv_protocol = "AES";
    priv_passphrase = "";
  };
}

abbrev pub sample_server : DynamicServer ℕ
sample_server = record {
  config = sample_config;
  router = [];
  addr = "0.0.0.0:8090";
  handler = [];
  path_vars = [];
  publisher = some sample_publisher;
  templates = [];
}

abbrev pub sample_agents : Agents
sample_agents = record { connect = λ n g. none; get = λ n g oids. ok []; walk = λ n g oid. ok [] }

abbrev pub sample_print : PduText
sample_print = record { type_string = λ t. "OctetString"; format_value = λ v. "1" }

-- ===== src/Tests/Devices.antt =====
-- SNMP requests and CoAP requests.
use servone.Prelude.{
  ◌≤◌, String, ◌≡◌, ◌≢◌, refl, ap, ◌⊎◌, false, some, List, [], ◌∷◌, arith, str_eq,
}
use servone.Prelude.Int.{pos}
use servone.Value.{ok, items, int, text, Items, Fields, cons, nil, field, end}
use servone.World.{Env, returned, panicked, save_coap}
use servone.Trace.{sent}
use servone.Http.{Body, fresh_writer}
use servone.Kafka.Contract.{kafka_publisher-IsPublisher}
use servone.Snmp.Results.{SnmpPdu, octet_string, byte_slice, process_results}
use servone.Snmp.Results.Collected.{AllTyped, Describes}
use servone.Snmp.Results.Laws.{StoresRow, process_results_stores}
use servone.Snmp.Client.{SnmpClient, get_v3, walk_v3}
use servone.Snmp.Client.Sessions.{ClosesSession, get_v3-ClosesSession, walk_v3-ClosesSession}
use servone.Snmp.Handler.{handle_snmp_request}
use servone.Snmp.Handler.Laws.{
  IsRefused, IsGetRequest, Answers, handle_snmp_request_unsupported, handle_snmp_request_get,
}
use servone.Coap.Handler.{Codes, Message, run_save_coap, handle}
use servone.Coap.Handler.Laws.{IsPost, IsDataOf, handle_starts, Saves, run_save_coap_lem}
use servone.Tests.Samples.{
  sample_env, sample_world, reading, sample_publisher, sample_go, sample_templates, tempo,
  sample_config, sample_agents, sample_print,
}

abbrev sample_client : SnmpClient
sample_client = record {
  config = sample_config.snmp;
  db = some 1;
  kafka_publisher = some sample_publisher;
}

abbrev sample_body : Body
sample_body = record { content = "{}"; size = 2; broken = false }

walk_differs : ◌≢◌ {A = String} "walk" "get"
walk_differs h = ground (arith, ap (λ s. str_eq s "get") h)

handle_snmp_request_unsupported_example :
    IsRefused sample_go.canonical_header_key sample_agents sample_print sample_env sample_client
      fresh_writer sample_body sample_world
      (handle_snmp_request sample_go.canonical_header_key sample_agents sample_print sample_env
        (some sample_client)
        fresh_writer
        (some sample_body)
        "walk"
        sample_world)
handle_snmp_request_unsupported_example =
    handle_snmp_request_unsupported sample_go.canonical_header_key sample_agents sample_print
      sample_env sample_client fresh_writer sample_body sample_world "walk" walk_differs

get_v3-ClosesSession_example : ClosesSession "10.0.0.1" sample_world (
    get_v3 sample_agents sample_print sample_env sample_client "10.0.0.1"
      ("1.3.6" ∷ [])
      sample_world)
get_v3-ClosesSession_example =
    get_v3-ClosesSession sample_agents sample_print sample_env sample_client "10.0.0.1"
      ("1.3.6" ∷ []) sample_world

walk_v3-ClosesSession_example :
    ClosesSession "10.0.0.1" sample_world
      (walk_v3 sample_agents sample_print sample_env sample_client "10.0.0.1" "1.3.6" sample_world)
walk_v3-ClosesSession_example =
    walk_v3-ClosesSession sample_agents sample_print sample_env sample_client "10.0.0.1" "1.3.6"
      sample_world

abbrev sample_pdus : List SnmpPdu
sample_pdus = record { name = ".1.3.6"; type = octet_string; value = byte_slice "router" } ∷ []

process_results_stores_example :
    (AllTyped sample_pdus
      × (results : Items) × Describes sample_print sample_pdus results
      × ((process_results sample_print sample_env "get" "10.0.0.1" sample_pdus
            (some sample_publisher)
            (some 1)
            sample_world).0
          ≡ returned tt)
      × (sent
            (process_results sample_print sample_env "get" "10.0.0.1" sample_pdus
              (some sample_publisher)
              (some 1)
              sample_world).1.trace
          ≤ 1)
      × StoresRow sample_print sample_env 1 "10.0.0.1"
          (field "operation" (text "get") (
            field "source"
              (text "10.0.0.1")
              (field "results" (items results) (field "timestamp" (int (pos 0)) end))))
          0
          sample_world
          (process_results sample_print sample_env "get" "10.0.0.1" sample_pdus
            (some sample_publisher)
            (some 1)
            sample_world).1)
    ⊎ ((AllTyped sample_pdus → ⊥)
        × ((process_results sample_print sample_env "get" "10.0.0.1" sample_pdus
              (some sample_publisher)
              (some 1)
              sample_world).0
            ≡ panicked "interface conversion")
        × ((process_results sample_print sample_env "get" "10.0.0.1" sample_pdus
              (some sample_publisher)
              (some 1)
              sample_world).1.trace
            ≡ []))
process_results_stores_example =
    process_results_stores sample_print sample_env "get" "10.0.0.1" sample_pdus sample_publisher
      (kafka_publisher-IsPublisher sample_env) 1 sample_world

abbrev sample_codes : Codes
sample_codes = record {
  post = 2;
  method_not_allowed = 133;
  internal_server_error = 160;
  code_string = λ c. "POST";
}

abbrev coap_post : Message
coap_post = record { code = 2; body = some (some "on") }

handle_starts_example :
    ((content : String) × (json_data : Fields) × IsPost sample_go sample_templates sample_codes
        sample_env tempo "POST" coap_post sample_world content
      × IsDataOf sample_go sample_templates sample_codes sample_env tempo "POST" coap_post
          sample_world content json_data
      × ((handle sample_go sample_templates sample_codes sample_env tempo "POST" coap_post
            sample_world).1.goroutines
          ≡ save_coap "/api/tempo" content json_data ∷ []))
    ⊎ (((content : String)
          → IsPost sample_go sample_templates sample_codes sample_env tempo "POST" coap_post
              sample_world content
          → ⊥)
        × ((handle sample_go sample_templates sample_codes sample_env tempo "POST" coap_post
              sample_world).1.goroutines
            ≡ []))
handle_starts_example =
    handle_starts sample_go sample_templates sample_codes sample_env tempo "POST" coap_post
      sample_world

run_save_coap_lem_example :
    ((run_save_coap sample_env
        (some sample_publisher)
        "/led"
        "POST"
        "POST"
        "on"
        reading
        sample_world).0
      ≡ returned tt)
    × (sent
          (run_save_coap sample_env
            (some sample_publisher)
            "/led"
            "POST"
            "POST"
            "on"
            reading
            sample_world).1.trace
        ≡ 1)
    × Saves sample_env "/led" "POST" "on" 0 sample_world
        (run_save_coap sample_env
          (some sample_publisher)
          "/led"
          "POST"
          "POST"
          "on"
          reading
          sample_world).1
run_save_coap_lem_example =
    run_save_coap_lem sample_env "/led" "POST" "POST" "on" reading sample_world refl

-- A world where every body asks for one OID of an agent.
abbrev get_env : Env
get_env = record sample_env {
  unmarshal = λ s.
      ok (field "target" (text "10.0.0.1") (field "oids" (items (cons (text "1.3.6") nil)) end));
}

handle_snmp_request_get_example :
    (IsRefused sample_go.canonical_header_key sample_agents sample_print get_env sample_client
        fresh_writer sample_body sample_world
        (handle_snmp_request sample_go.canonical_header_key sample_agents sample_print get_env
          (some sample_client)
          fresh_writer
          (some sample_body)
          "get"
          sample_world)
      × ((target : String) (oids : List String)
          → IsGetRequest sample_go.canonical_header_key sample_agents sample_print get_env
              sample_client fresh_writer sample_body sample_world target oids
          → ⊥))
    ⊎ ((target : String) × (oids : List String) × IsGetRequest sample_go.canonical_header_key
          sample_agents sample_print get_env sample_client fresh_writer sample_body sample_world
          target oids
        × Answers sample_go.canonical_header_key sample_agents sample_print get_env sample_client
            fresh_writer sample_body sample_world
            (get_v3 sample_agents sample_print get_env sample_client target oids sample_world)
            (handle_snmp_request sample_go.canonical_header_key sample_agents sample_print get_env
              (some sample_client)
              fresh_writer
              (some sample_body)
              "get"
              sample_world))
handle_snmp_request_get_example =
    handle_snmp_request_get sample_go.canonical_header_key sample_agents sample_print get_env
      sample_client fresh_writer sample_body sample_world refl

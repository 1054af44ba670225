-- ===== src/Tests/Serving.antt =====
-- Serving a request over HTTP.
use servone.Prelude.{ℕ, String, ◌≡◌, ◌≢◌, refl, ap, ◌⊎◌, str_eq, false, some, none, [], ◌∷◌, arith}
use servone.Prelude.Int.{pos, ◌≤ℤ◌}
use servone.Prelude.Text.{contains}
use servone.Value.{Fields, StringMap, get_string}
use servone.World.{returned, panicked, save_request}
use servone.Http.{allows_body, fresh_writer}
use servone.Server.Template.{Cache, find, process_template}
use servone.Server.Template.Laws.{
  IsValid, text_part, KeepsCache, process_template_cached, process_template-IsValid,
}
use servone.Server.Routes.{DynamicServer, new_dynamic_server, reload}
use servone.Server.Routes.Laws.{routes_of, reload_eq_new}
use servone.Server.Handler.{run_save_request, handle, set_headers, read_body, snmp_operation}
use servone.Server.Handler.Laws.{IsJsonPost, handle_saves, handle_responds, handle_invalid_status}
use servone.Server.Handler.Stored.{Accounts, json_post-Accounts}
use servone.Server.Handler.Headers.{header_round_trip}
use mathlib.Core.List.Memᴰ.{head, tail}
use servone.Kafka.Contract.{kafka_publisher-IsPublisher}
use servone.Coap.Template as Coap
use servone.Tests.Samples.{
  sample_env, reading, sample_publisher, sample_world, sample_go, sample_templates, tempo,
  no_status, post, sample_config, sample_server, sample_agents, sample_print,
}

abbrev sample_cache : Cache ℕ
sample_cache = ("{{.Now}}", 7) ∷ []

sample_cache-IsValid : IsValid sample_templates sample_cache
unfolding find
sample_cache-IsValid body t h = ground arith

process_template_cached_example :
    text_part (
      process_template sample_go sample_templates sample_env "{{.Now}}" [] sample_cache
        sample_world)
    ≡ Coap.process_template sample_go sample_templates sample_env "{{.Now}}" [] sample_world
process_template_cached_example =
    process_template_cached sample_go sample_templates sample_env "{{.Now}}" [] sample_cache
      sample_world sample_cache-IsValid

process_template-IsValid_example :
    KeepsCache sample_templates (
      process_template sample_go sample_templates sample_env "{{.Now}}" [] sample_cache
        sample_world)
process_template-IsValid_example =
    process_template-IsValid sample_go sample_templates sample_env "{{.Now}}" [] sample_cache
      sample_world sample_cache-IsValid

reload_eq_new_example :
    (ds' : DynamicServer ℕ) × ((new_dynamic_server sample_go sample_config sample_server.publisher
        sample_world).0
      ≡ returned ds')
    × (ds'.handler ≡ routes_of sample_go sample_config)
    × (ds'.templates ≡ [])
    × ((reload sample_go sample_config sample_server sample_world).0
        ≡ returned (record ds' { addr = "0.0.0.0:8090" }))
reload_eq_new_example =
    reload_eq_new sample_go sample_config sample_server sample_world sample_world

-- The sample endpoint is no SNMP operation.
tempo_plain : snmp_operation tempo.path post.method ≡ none
unfolding snmp_operation
tempo_plain = refl

-- Its body can be read.
tempo_read : read_body post.body ≡ some "{\"temp\": 21}"
unfolding read_body
tempo_read = refl

tempo_status : (pos 200 ≤ℤ tempo.response.status) × (tempo.response.status ≤ℤ pos 999)
tempo_status = omega arith

tempo_static : contains tempo.response.body "{{" ≡ false
unfolding contains
tempo_static = refl

no_status_plain : snmp_operation no_status.path post.method ≡ none
unfolding snmp_operation
no_status_plain = refl

no_status_invalid :
    ¬ ((pos 100 ≤ℤ no_status.response.status) × (no_status.response.status ≤ℤ pos 999))
no_status_invalid h = omega arith

handle_saves_example :
    ((fields : Fields) × IsJsonPost sample_go sample_templates sample_agents sample_print sample_env
        sample_server none tempo post sample_world tempo_plain fields
      × ((handle sample_go sample_templates sample_agents sample_print sample_env sample_server none
            tempo fresh_writer post sample_world).1.goroutines
          ≡ save_request "/api/tempo" fields [] ∷ []))
    ⊎ (((fields : Fields)
          → IsJsonPost sample_go sample_templates sample_agents sample_print sample_env
              sample_server none tempo post sample_world tempo_plain fields
          → ⊥)
        × ((handle sample_go sample_templates sample_agents sample_print sample_env sample_server
              none tempo fresh_writer post sample_world).1.goroutines
            ≡ []))
handle_saves_example =
    handle_saves sample_go sample_templates sample_agents sample_print sample_env sample_server none
      tempo post sample_world tempo_plain

handle_responds_example :
    (handle sample_go sample_templates sample_agents sample_print sample_env sample_server none
      tempo fresh_writer post sample_world).0
    ≡ returned (record {
      writer =
          record (set_headers sample_go sample_templates sample_agents sample_print sample_env
            tempo.response.headers fresh_writer) {
              status = some (pos 201);
              written = "{\"result\": \"success\"}";
            };
      templates = [];
    })
unfolding allows_body
handle_responds_example =
    handle_responds sample_go sample_templates sample_agents sample_print sample_env sample_server
      none tempo post sample_world tempo_plain tempo_read tempo_status tempo_static

handle_invalid_status_example :
    (handle sample_go sample_templates sample_agents sample_print sample_env sample_server none
      no_status fresh_writer post sample_world).0
    ≡ panicked "invalid WriteHeader code"
handle_invalid_status_example =
    handle_invalid_status sample_go sample_templates sample_agents sample_print sample_env
      sample_server none no_status post sample_world no_status_plain tempo_read no_status_invalid

tempo_content : ◌≢◌ {A = String} "{\"temp\": 21}" ""
tempo_content h = ground (arith, ap (λ s. str_eq s "") h)

json_post-Accounts_example :
    ((handle sample_go sample_templates sample_agents sample_print sample_env sample_server none
        tempo fresh_writer post sample_world).1.goroutines
      ≡ save_request "/api/tempo" reading [] ∷ [])
    × Accounts sample_world
        (run_save_request sample_env (some sample_publisher) "/api/tempo" reading [] sample_world)
json_post-Accounts_example =
    json_post-Accounts sample_go sample_templates sample_agents sample_print sample_env
      sample_server none tempo post sample_world tempo_plain reading
      (refl, ("{\"temp\": 21}", tempo_read, tempo_content, refl))
      (kafka_publisher-IsPublisher sample_env) sample_world 1 refl

abbrev two_headers : StringMap
two_headers = ("Content-Type", "application/json") ∷ ("X-Device", "7") ∷ []

device_differs : ◌≢◌ {A = String} "X-Device" "Content-Type"
device_differs h = ground (arith, ap (λ s. str_eq s "Content-Type") h)

header_round_trip_example :
    get_string "X-Device"
      (set_headers sample_go sample_templates sample_agents sample_print sample_env two_headers
        fresh_writer).headers
    ≡ some "7"
header_round_trip_example =
    header_round_trip sample_go sample_templates sample_agents sample_print sample_env two_headers
      "X-Device" "7" fresh_writer ((device_differs, tt), (tt, tt)) (tail (head refl))

-- ===== src/Coap/Handler/Laws.antt =====
-- What one CoAP request to an endpoint comes to, and its goroutine.
use servone.Prelude.{
  ℕ, suc, String, ◌≡◌, ◌≢◌, refl, ap, ◌∙◌, ◌⊎◌, inl, inr, ◌==◌, Option, none, some, [], ◌∷◌, str_eq,
  eq_iff, arith, Bool-cases, Option-cases,
}
use servone.Prelude.Text.{◌<>◌}
use servone.Value.{Error, ok, err, object, text, Fields, end, field, StringMap}
use servone.Value.Cases.{Result-cases}
use servone.World.{Env, World, Pool, Outcome, returned, coap_messages, save_coap}
use servone.World.Laws.{and_then_returned, and_then_keeps}
use servone.Trace.{stored, sent}
use servone.Config.{EndpointConfig}
use servone.Go.{Go}
use servone.Kafka.Publisher.{kafka_publisher}
use servone.Kafka.Contract.{kafka_publisher-IsPublisher}
use servone.Kafka.Logged.{publish_logged, publish_logged_sent}
use servone.Db.Rows.{insert_coap_message}
use servone.Template.{Templates}
use servone.Coap.Template.{process_template}
use servone.Coap.Handler.{
  Code, Codes, Message, Response, json_or_raw, log_and_save, with_content, coap_payload,
  save_if_open, publish_coap, run_save_coap, handle,
}

module _ {T : Type 0} (go : Go) (templates : Templates T) (codes : Codes) (env : Env) where
  process_template-goroutines :
      (body : String) (vars : StringMap) (v : World)
      → (process_template go templates env body vars v).1.goroutines ≡ v.goroutines
  unfolding process_template
  process_template-goroutines body vars v = ground arith

  log_and_save_lem :
      (endpoint : EndpointConfig) (code : Code) (content : String) (v : World)
      → (log_and_save go templates codes env endpoint code content v).0 ≡ returned tt
  unfolding log_and_save
  log_and_save_lem endpoint code content v = ground arith

  log_and_save-goroutines :
      (endpoint : EndpointConfig) (code : Code) (content : String) (v : World)
      → ((code ≡ codes.post)
          × (content ≢ "")
          × ((log_and_save go templates codes env endpoint code content v).1.goroutines
              ≡ save_coap endpoint.path content (json_or_raw content (env.unmarshal content))
                ∷ v.goroutines))
        ⊎ ((code ≡ codes.post → content ≢ "" → ⊥)
            × ((log_and_save go templates codes env endpoint code content v).1.goroutines
                ≡ v.goroutines))
  unfolding log_and_save
  log_and_save-goroutines endpoint code content v = elim (Bool-cases (code == codes.post)) [
    | inr e ↦ inr (ground arith, ground arith)
    | inl e ↦ elim (Bool-cases (str_eq content "")) [
      | inl e' ↦ inr (ground (arith, eq_iff content ""), ground arith)
      | inr e' ↦ inl (ground arith, ground (arith, eq_iff content ""), ground arith)
    ]
  ]

  with_content-goroutines :
      (endpoint : EndpointConfig) (code : Code) (content : String) (v : World)
      → (with_content go templates codes env endpoint code (some content) v).1.goroutines
        ≡ (log_and_save go templates codes env endpoint code content v).1.goroutines
  unfolding with_content
  with_content-goroutines endpoint code content v =
      let logged = log_and_save go templates codes env endpoint code content v in
      ap (λ (u : Outcome (Option Response) × World). u.1.goroutines)
        (and_then_returned logged tt _ (log_and_save_lem endpoint code content v))
      ∙ and_then_keeps (λ u. u.goroutines ≡ logged.1.goroutines)
          (process_template go templates env endpoint.response.body [] logged.1) _
          (process_template-goroutines endpoint.response.body [] logged.1) (λ out u same. same)

  module _ (endpoint : EndpointConfig) (method : String) (r : Message) (v : World) where
    -- The request is a POST, of the endpoint's method, with a text that can be read.
    abbrev pub IsPost : String → Type 0
    IsPost content =
        (codes.code_string r.code ≡ method)
        × (r.code ≡ codes.post)
        × (content ≢ "")
        × (r.body ≡ some (some content))

    -- The JSON object of a text, or the text itself under "coapbody" if it is no JSON object.
    abbrev pub IsDataOf : String → Fields → Type 0
    IsDataOf content json_data =
        (env.unmarshal content ≡ ok json_data)
        ⊎ ((e : Error) × (env.unmarshal content ≡ err e)
            × (json_data ≡ field "coapbody" (text content) end))

    json_or_raw_lem :
        (content : String) → IsDataOf content (json_or_raw content (env.unmarshal content))
    unfolding json_or_raw
    json_or_raw_lem content = elim (Result-cases (env.unmarshal content)) [
      | inl (json_data, good) ↦ rw good (inl refl)
      | inr (e, bad) ↦ rw bad (inr (e, refl, refl))
    ]

    -- A CoAP request starts exactly one goroutine, which saves the path, the raw text, and its JSON
    -- object or, if it is none, the text itself under "coapbody", if the request is a POST to an
    -- endpoint of that method with a body that can be read and is not empty; any other request
    -- starts none.
    pub handle_starts :
        ((content : String) × (json_data : Fields) × IsPost content
          × IsDataOf content json_data
          × ((handle go templates codes env endpoint method r v).1.goroutines
              ≡ save_coap endpoint.path content json_data ∷ v.goroutines))
        ⊎ (((content : String) → IsPost content → ⊥)
            × ((handle go templates codes env endpoint method r v).1.goroutines ≡ v.goroutines))
    unfolding handle
    handle_starts = elim (Bool-cases (str_eq (codes.code_string r.code) method)) [
      | inr other ↦
          inr
            ((λ content p. ground (arith, eq_iff (codes.code_string r.code) method, p.0)), rw other)
      | inl same ↦ elim (Option-cases r.body) [
        | inl absent ↦ rw (same, absent) (inr ((λ content p. cc p.1), refl))
        | inr (read, present) ↦ elim (Option-cases read) [
          | inl unread ↦ rw (same, present, unread) (inr ((λ content p. cc p.1), refl))
          | inr (content, full) ↦ elim (log_and_save-goroutines endpoint r.code content v) [
            | inl (post, nonempty, one) ↦ inl (
              content,
              json_or_raw content (env.unmarshal content),
              (
                (eq_iff (codes.code_string r.code) method).0 same,
                post,
                nonempty,
                present ∙ ap some full,
              ),
              json_or_raw_lem content,
              rw (same, present, full) (with_content-goroutines endpoint r.code content v ∙ one),
            )
            | inr (never, none_started) ↦ inr (
              (λ other p. never p.1 (ground (arith, p.2, p.3, present, full))),
              rw (same, present, full)
                  (with_content-goroutines endpoint r.code content v ∙ none_started),
            )
          ]
        ]
      ]
    ]

module _ (env : Env) (path method payload : String) (received : ℕ) where
  -- What saving does with the pool of `DbPool`: nothing without one, and otherwise one row, unless
  -- the INSERT is refused.
  abbrev pub Saves : World → World → Type 0
  Saves w w' =
      ((w.db_pool ≡ none) × (stored coap_messages w'.trace ≡ stored coap_messages w.trace))
      ⊎ ((p : Pool) × (call : ℕ) × (w.db_pool ≡ some p)
          × (((env.exec call p (some 5) (insert_coap_message path payload method received) ≡ none)
                × (stored coap_messages w'.trace ≡ suc (stored coap_messages w.trace)))
              ⊎ ((e : Error) × (env.exec call p (some 5)
                      (insert_coap_message path payload method received)
                    ≡ some e)
                  × (stored coap_messages w'.trace ≡ stored coap_messages w.trace))))

  save_if_open_lem :
      (w : World)
      → ((save_if_open env w.db_pool path method payload received w).0 ≡ returned tt)
        × (sent (save_if_open env w.db_pool path method payload received w).1.trace ≡ sent w.trace)
        × Saves w (save_if_open env w.db_pool path method payload received w).1
  unfolding save_if_open
  save_if_open_lem w = elim (Option-cases w.db_pool) [
    | inl shut ↦ rw shut (refl, refl, inl (refl, refl))
    | inr (p, opened) ↦
        elim (Option-cases
          (env.exec w.calls p (some 5) (insert_coap_message path payload method received))) [
            | inl ran ↦ rw (opened, ran) (refl, refl, inr (p, w.calls, refl, inl (ran, refl)))
            | inr (e, refused) ↦
                rw (opened, refused) (refl, refl, inr (p, w.calls, refl, inr (e, refused, refl)))
          ]
  ]

  Saves-of_same :
      (w v u : World)
      → stored coap_messages u.trace ≡ stored coap_messages v.trace
      → Saves w v
      → Saves w u
  Saves-of_same w v u h (inl (shut, same)) = inl (shut, h ∙ same)
  Saves-of_same w v u h (inr (p, call, opened, inl (ran, one))) =
      inr (p, call, opened, inl (ran, h ∙ one))
  Saves-of_same w v u h (inr (p, call, opened, inr (e, refused, same))) =
      inr (p, call, opened, inr (e, refused, h ∙ same))

  publish_coap_lem :
      (data_map : Fields) {json : String} (w : World)
      → env.marshal (object data_map) ≡ ok json
      → ((publish_coap env (some (kafka_publisher env)) path data_map w).0 ≡ returned tt)
        × (sent (publish_coap env (some (kafka_publisher env)) path data_map w).1.trace
            ≡ suc (sent w.trace))
        × (stored coap_messages
              (publish_coap env (some (kafka_publisher env)) path data_map w).1.trace
            ≡ stored coap_messages w.trace)
  unfolding publish_coap
  publish_coap_lem data_map w h =
      let (returns, rows, _) =
        publish_logged coap_messages (kafka_publisher env)
          "Failed to publish CoAP message to Kafka: %v" ("coap" <> path) data_map w
          (kafka_publisher-IsPublisher env) in
      (
        returns,
        publish_logged_sent env "Failed to publish CoAP message to Kafka: %v" ("coap" <> path)
            data_map w h,
        rows,
      )

-- With the publisher of kafka/kafka.go, where the message can be marshalled, the goroutine of a
-- CoAP POST returns and hands over one record exactly, whatever became of the row; and it stores
-- one row if `DbPool` is open and the INSERT is not refused, and none otherwise. The names of the
-- code that are saved and sent are those that the goroutine reads, the same or not.
pub run_save_coap_lem :
    (env : Env) (path method method' payload : String) (json_data : Fields) {json : String}
    (w : World)
    → env.marshal (object (coap_payload path method' json_data (env.clock w.calls))) ≡ ok json
    → ((run_save_coap env (some (kafka_publisher env)) path method method' payload json_data w).0
        ≡ returned tt)
      × (sent
            (run_save_coap env
              (some (kafka_publisher env))
              path
              method
              method'
              payload
              json_data
              w).1.trace
          ≡ suc (sent w.trace))
      × Saves env path method payload
          (env.clock w.calls)
          w
          (run_save_coap env (some (kafka_publisher env)) path method method' payload json_data w).1
unfolding run_save_coap
run_save_coap_lem env path method method' payload json_data w h =
    let received = env.clock w.calls in
    let w₁ = record w { calls = suc w.calls } in
    let v = (save_if_open env w.db_pool path method payload received w₁).1 in
    let (returns, none_sent, row) = save_if_open_lem env path method payload received w₁ in
    let (quiet, one, same) =
      publish_coap_lem env path method payload received
        (coap_payload path method' json_data received) v h in
    rw returns (
      quiet,
      one ∙ ap suc none_sent,
      Saves-of_same env path method payload received w₁ v
          (publish_coap env (some (kafka_publisher env)) path
            (coap_payload path method' json_data received) v).1
          same row,
    )

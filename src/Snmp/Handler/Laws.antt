-- ===== src/Snmp/Handler/Laws.antt =====
-- What a request for an SNMP operation comes to.
use servone.Prelude.{
  String, ◌≡◌, ◌≢◌, refl, ap, sym, subst, ◌∙◌, ◌⊎◌, inl, inr, Option, none, some, List, [], ◌∷◌,
  str_eq, eq_iff, arith, Bool-cases, Option-cases,
}
use servone.Prelude.Int.{ℤ, pos}
use servone.Value.{Error, ok, object, Fields, cons, get}
use servone.Value.Cases.{Result-cases}
use servone.World.{Env, World, Outcome, returned, panicked, exited, and_then, logged}
use servone.Trace.{Logs}
use servone.Http.{
  Body, read_all, ResponseWriter, set_header, write, is_informational, sent_status, http_error,
}
use servone.Snmp.Results.{PduText}
use servone.Snmp.Client.{Agents, SnmpClient, get_v3}
use servone.Snmp.Handler.{encode, handle_get, answer_get, handle_snmp_request}
use servone.Snmp.Handler.Parsed.{texts, Names, target_of_lem, oids_of_lem, oids_raw_of_lem}

-- The status that goes with a result of `GetV3`.
abbrev pub status_for : Option Error → ℤ
status_for none = pos 200
status_for (some e) = pos 500

module _ (canonical : String → String) (agents : Agents) (print : PduText) (env : Env)
    (client : SnmpClient) (w : ResponseWriter) (body : Body) (v : World) where
  -- The request was refused: status 400, and the world is as it was.
  abbrev pub IsRefused : Outcome ResponseWriter × World → Type 0
  IsRefused r = (reason : String) × (r ≡ (returned (http_error canonical reason 400 w), v))

  -- With a client and a body, an operation other than "get" is refused with status 400, and
  -- nothing else happens: no agent is asked.
  pub handle_snmp_request_unsupported :
      (operation : String)
      → operation ≢ "get"
      → IsRefused
          (handle_snmp_request canonical agents print env (some client) w (some body) operation v)
  unfolding handle_snmp_request
  handle_snmp_request_unsupported operation other = elim (Option-cases (read_all body)) [
    | inl unread ↦ rw unread ("Failed to read request body", refl)
    | inr (content, read) ↦ elim (Result-cases (env.unmarshal content)) [
      | inr (e, bad) ↦ rw (read, bad) ("Invalid JSON", refl)
      | inl (data_map, good) ↦ elim (Bool-cases (str_eq operation "get")) [
        | inl same ↦ elim (other ((eq_iff operation "get").0 same)) [ ]
        | inr differ ↦ rw (read, good, differ) ("Unknown or unsupported SNMP operation", refl)
      ]
    ]
  ]

  -- A body that can be read and is such JSON.
  abbrev pub IsGetRequest : String → List String → Type 0
  IsGetRequest target oids =
      (content : String) × (data_map : Fields) × (read_all body ≡ some content)
      × (env.unmarshal content ≡ ok data_map)
      × Names data_map target oids

  -- After a call that returned, the response is sent with the status that goes with its result, and
  -- nothing but a line of the log is added; a panic or an exit of the call goes through.
  abbrev pub Answers : Outcome (Option Error) × World → Outcome ResponseWriter × World → Type 0
  Answers (returned e, v') r =
      ((w' : ResponseWriter) × (r.0 ≡ returned w') × (sent_status w'.status ≡ status_for e))
      × Logs v' r.1
  Answers (panicked m, v') r = r ≡ (panicked m, v')
  Answers (exited n, v') r = r ≡ (exited n, v')

  encode-status :
      (fields : Fields) (u : ResponseWriter)
      → sent_status (encode canonical agents print env fields u).status ≡ sent_status u.status
  unfolding encode write sent_status
  encode-status fields u = elim (Result-cases (env.marshal (object fields))) [
    | inl (payload, good) ↦ rw (good, sent_status) refl
    | inr (e, bad) ↦ rw (bad, sent_status) refl
  ]

  answer_get_lem :
      (target : String) (oids : List String) (asked : Outcome (Option Error) × World)
      → w.status ≡ none
      → Answers asked (and_then asked (answer_get canonical agents print env target oids w))
  unfolding answer_get sent_status set_header is_informational
  answer_get_lem target oids (returned none, v') fresh = (
    (
      _,
      refl,
      encode-status _ (set_header canonical "Content-Type" "application/json" w)
          ∙ ap sent_status fresh,
    ),
    (refl, ([], tt, refl)),
  )
  answer_get_lem target oids (returned (some e), v') fresh = rw fresh (
    (
      _,
      refl,
      encode-status _ (record (set_header canonical "Content-Type" "application/json" w) {
        status = some (pos 500);
      }),
    ),
    (refl, (logged "SNMP GET error: %v" ∷ [], (tt, tt), refl)),
  )
  answer_get_lem target oids (panicked m, v') fresh = refl
  answer_get_lem target oids (exited n, v') fresh = refl

  handle_get_lem :
      (data_map : Fields)
      → (IsRefused (handle_get canonical agents print env client w data_map v)
          × ((target : String) (oids : List String) → Names data_map target oids → ⊥))
        ⊎ ((target : String) × (oids : List String) × Names data_map target oids
            × (handle_get canonical agents print env client w data_map v
                ≡ and_then
                    (get_v3 agents print env client target oids v)
                    (answer_get canonical agents print env target oids w)))
  unfolding handle_get
  handle_get_lem data_map = elim (target_of_lem (get "target" data_map)) [
    | inr (missing, odd) ↦ inl (
      rw (handle_get, missing) ("Target is required", refl),
      λ target oids named. odd target named.0 named.1,
    )
    | inl (target, named, full, taken) ↦ elim (oids_raw_of_lem (get "oids" data_map)) [
      | inr (missing, odd) ↦ inl (
        rw (handle_get, taken, missing) ("OIDs are required", refl),
        λ other oids names. odd oids names.2 names.3,
      )
      | inl (x, xs, given, raw) ↦ elim (oids_of_lem (cons x xs)) [
        | inr (refused, odd) ↦ inl (
          rw (handle_get, taken, raw, refused) ("Invalid OID format", refl),
          λ other oids names. odd oids (cc (given, names.2)),
        )
        | inl (oids, same, all) ↦ inr (
          target,
          oids,
          (named, full, rw (← same) given, λ empty. cc (same, ap texts empty)),
          rw (handle_get, taken, raw, all) refl,
        )
      ]
    ]
  ]

  -- With a client, a body and a response of which nothing is sent yet, a request for the operation
  -- get whose body is JSON with a target and an array of texts as OIDs, neither of them empty, is one
  -- `GetV3` of these, after which the response has the status 200 if it returned nil and 500 if it
  -- returned an error, and nothing but a line of the log is added; any other body is refused with
  -- status 400, and nothing else happens.
  pub handle_snmp_request_get :
      w.status ≡ none
      → (IsRefused
            (handle_snmp_request canonical agents print env (some client) w (some body) "get" v)
          × ((target : String) (oids : List String) → IsGetRequest target oids → ⊥))
        ⊎ ((target : String) × (oids : List String) × IsGetRequest target oids
            × Answers (get_v3 agents print env client target oids v) (
                handle_snmp_request canonical agents print env (some client) w (some body) "get" v))
  unfolding handle_snmp_request
  handle_snmp_request_get fresh = elim (Option-cases (read_all body)) [
    | inl unread ↦
        inl (rw unread ("Failed to read request body", refl), λ target oids p. cc (unread, p.2))
    | inr (content, read) ↦ elim (Result-cases (env.unmarshal content)) [
      | inr (e, bad) ↦ inl (
        rw (read, bad) ("Invalid JSON", refl),
        λ target oids p. ground (arith, p.2, p.3, read, bad),
      )
      | inl (data_map, good) ↦ elim (handle_get_lem data_map) [
        | inl ((reason, refused), odd) ↦ inl (
          rw (read, good) (reason, refused),
          λ target oids p.
              odd target oids
                (subst (λ m. Names m target oids) (ground (arith, p.2, p.3, read, good)) p.4),
        )
        | inr (target, oids, named, asked) ↦ inr (
          target,
          oids,
          (content, data_map, read, good, named),
          rw (read, good)
              (subst (Answers (get_v3 agents print env client target oids v)) (sym asked)
                (answer_get_lem target oids (get_v3 agents print env client target oids v) fresh)),
        )
      ]
    ]
  ]

-- ===== src/Server/Handler/Parts.antt =====
-- The parts of the handler of server/server.go: the log line with its goroutine, and the response.
use servone.Prelude.{
  String, ◌≡◌, ◌≢◌, refl, ap, ◌∙◌, ◌⊎◌, inl, inr, false, if◌then◌else◌, none, some, [], ◌∷◌, str_eq,
  eq_iff, arith, Bool-cases,
}
use servone.Prelude.Int.{ℤ, pos, negsuc, ◌≤ℤ◌}
use servone.Prelude.Text.{contains, ◌<>◌, nil-append}
use servone.Value.{ok, Fields, StringMap}
use servone.Value.Cases.{Result-cases}
use servone.World.{Env, World, returned, panicked, save_request}
use servone.World.Laws.{and_then_keeps}
use servone.Config.{EndpointConfig}
use servone.Go.{Go}
use servone.Http.{allows_body, ResponseWriter, fresh_writer, write_header, write, set_header}
use servone.Template.{Templates}
use servone.Server.Template.{Cache, process_template}
use servone.Server.Routes.{DynamicServer}
use servone.Snmp.Results.{PduText}
use servone.Snmp.Client.{Agents}
use servone.Server.Handler.{Served, set_headers, log_and_save, respond}

write_header-world :
    (canonical : String → String) (code : ℤ) (w : ResponseWriter) (v : World)
    → (write_header canonical code w v).1 ≡ v
unfolding write_header
write_header-world canonical code w v = ground arith

write_header_valid :
    (canonical : String → String) (code : ℤ) (w : ResponseWriter) (v : World)
    → (pos 200 ≤ℤ code) × (code ≤ℤ pos 999)
    → w.status ≡ none
    → write_header canonical code w v ≡ (returned (record w { status = some code }), v)
unfolding write_header
write_header_valid canonical (pos n) w v h fresh = rw fresh (ground arith)
write_header_valid canonical (negsuc n) w v h fresh = ground arith

write_header_invalid :
    (canonical : String → String) (code : ℤ) (w : ResponseWriter) (v : World)
    → ¬ ((pos 100 ≤ℤ code) × (code ≤ℤ pos 999))
    → w.status ≡ none
    → write_header canonical code w v ≡ (panicked "invalid WriteHeader code", v)
unfolding write_header
write_header_invalid canonical code w v h fresh = rw fresh (ground arith)

-- The body that is sent with a status.
abbrev pub body_with : ℤ → String → String
body_with code body = if allows_body code then body else ""

write_empty :
    (canonical : String → String) (code : ℤ) (body : String) (w : ResponseWriter)
    → w.written ≡ ""
    → write canonical body (record w { status = some code })
      ≡ record w { status = some code; written = body_with code body }
unfolding write
write_empty canonical code body w h = elim (Bool-cases (allows_body code)) [
  | inl allowed ↦ rw allowed (
      ap (λ (t : String). record w { status = some code; written = t })
        (ap (λ (t : String). t <> body) h ∙ nil-append body))
  | inr refused ↦ rw refused (ap (λ (t : String). record w { status = some code; written = t }) h)
]

module _ {T : Type 0} (go : Go) (templates : Templates T) (env : Env) where
  process_template-goroutines :
      (body : String) (vars : StringMap) (cache : Cache T) (v : World)
      → (process_template go templates env body vars cache v).1.goroutines ≡ v.goroutines
  unfolding process_template
  process_template-goroutines body vars cache v = ground arith

  process_template_static :
      (body : String) (vars : StringMap) (cache : Cache T) (v : World)
      → contains body "{{" ≡ false
      → process_template go templates env body vars cache v ≡ (returned (body, cache), v)
  unfolding process_template
  process_template_static body vars cache v h = rw h

  module _ (agents : Agents) (print : PduText) where
    pub log_and_save_lem :
        (endpoint : EndpointConfig) (method : String) (vars : StringMap) (content : String)
        (v : World)
        → (log_and_save go templates agents print env endpoint method vars content v).0
          ≡ returned tt
    unfolding log_and_save
    log_and_save_lem endpoint method vars content v = ground arith

    pub log_and_save-goroutines :
        (endpoint : EndpointConfig) (method : String) (vars : StringMap) (content : String)
        (v : World)
        → ((fields : Fields) × (method ≡ "POST")
            × (content ≢ "")
            × (env.unmarshal content ≡ ok fields)
            × ((log_and_save go templates agents print env endpoint method vars content
                  v).1.goroutines
                ≡ save_request endpoint.path fields vars ∷ v.goroutines))
          ⊎ (((fields : Fields)
                → method ≡ "POST"
                → content ≢ ""
                → env.unmarshal content ≡ ok fields
                → ⊥)
              × ((log_and_save go templates agents print env endpoint method vars content
                    v).1.goroutines
                  ≡ v.goroutines))
    unfolding log_and_save
    log_and_save-goroutines endpoint method vars content v =
        elim (Bool-cases (str_eq method "POST")) [
          | inr e ↦ inr (ground (arith, eq_iff method "POST"), ground arith)
          | inl e ↦ elim (Bool-cases (str_eq content "")) [
            | inl e' ↦ inr (ground (arith, eq_iff content ""), ground arith)
            | inr e' ↦ elim (Result-cases (env.unmarshal content)) [
              | inl (fields, k) ↦ inl (
                fields,
                ground (arith, eq_iff method "POST"),
                ground (arith, eq_iff content ""),
                k,
                ground arith,
              )
              | inr (x, k) ↦ inr (ground arith, ground arith)
            ]
          ]
        ]

    set_headers_keeps :
        (headers : StringMap) (w : ResponseWriter)
        → ((set_headers go templates agents print env headers w).status ≡ w.status)
          × ((set_headers go templates agents print env headers w).written ≡ w.written)
    unfolding set_headers
    set_headers_keeps [] w = (refl, refl)
    set_headers_keeps ((key, value) ∷ headers) w =
        set_headers_keeps headers (set_header go.canonical_header_key key value w)

    pub respond_static :
        (ds : DynamicServer T) (endpoint : EndpointConfig) (vars : StringMap) (v : World)
        → (pos 200 ≤ℤ endpoint.response.status) × (endpoint.response.status ≤ℤ pos 999)
        → contains endpoint.response.body "{{" ≡ false
        → (respond go templates agents print env ds endpoint fresh_writer vars v).0
          ≡ returned (record {
            writer =
                record (set_headers go templates agents print env endpoint.response.headers
                  fresh_writer) {
                    status = some endpoint.response.status;
                    written = body_with endpoint.response.status endpoint.response.body;
                  };
            templates = ds.templates;
          })
    unfolding respond write
    respond_static ds endpoint vars v valid static =
        let headed =
          set_headers go templates agents print env endpoint.response.headers fresh_writer in
        let (no_status, empty) = set_headers_keeps endpoint.response.headers fresh_writer in
        rw
          (
            write_header_valid go.canonical_header_key endpoint.response.status headed v valid
                no_status,
            process_template_static endpoint.response.body vars ds.templates v static,
          )
          (ap (λ (u : ResponseWriter). returned (record { writer = u; templates = ds.templates }))
            (write_empty go.canonical_header_key endpoint.response.status endpoint.response.body
              headed empty))

    pub respond_invalid :
        (ds : DynamicServer T) (endpoint : EndpointConfig) (vars : StringMap) (v : World)
        → ¬ ((pos 100 ≤ℤ endpoint.response.status) × (endpoint.response.status ≤ℤ pos 999))
        → (respond go templates agents print env ds endpoint fresh_writer vars v).0
          ≡ panicked "invalid WriteHeader code"
    unfolding respond
    respond_invalid ds endpoint vars v invalid =
        let headed =
          set_headers go templates agents print env endpoint.response.headers fresh_writer in
        let (no_status, empty) = set_headers_keeps endpoint.response.headers fresh_writer in
        rw (
          write_header_invalid go.canonical_header_key endpoint.response.status headed v invalid
            no_status)

    pub respond-goroutines :
        (ds : DynamicServer T) (endpoint : EndpointConfig) (w : ResponseWriter) (vars : StringMap)
        (v : World)
        → (respond go templates agents print env ds endpoint w vars v).1.goroutines ≡ v.goroutines
    unfolding respond
    respond-goroutines ds endpoint w vars v =
        let keeps = λ (u : World). u.goroutines ≡ v.goroutines in
        let status = endpoint.response.status in
        let headed = set_headers go templates agents print env endpoint.response.headers w in
        let body = endpoint.response.body in
        and_then_keeps {B = Served T} keeps (write_header go.canonical_header_key status headed v) _
          (ap (λ (u : World). u.goroutines)
            (write_header-world go.canonical_header_key status headed v))
          λ sent u h.
            and_then_keeps {B = Served T} keeps
              (process_template go templates env body vars ds.templates u) _
              (process_template-goroutines body vars ds.templates u ∙ h) λ r u' h'. h'

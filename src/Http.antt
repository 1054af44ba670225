-- ===== src/Http.antt =====
-- What the program uses of net/http: a request, and the writer of a response.
use servone.Prelude.{
  ℕ, String, Bool, true, false, not, leb, ◌==◌, ◌||◌, ◌&&◌, Option, none, some, [], ◌∷◌, str_eq,
  if◌then◌else◌, ltb,
}
use servone.Prelude.Int.{ℤ, pos, negsuc, leb_ℤ}
use servone.Prelude.Text.{◌<>◌}
use servone.Value.{StringMap}
use servone.World.{Action, done, panic}

-- A request body as it arrives: its text, its length in bytes, and whether the connection fails
-- before its end.
pub record Body : Type 0 where
  pub content : String
  pub size : ℕ
  pub broken : Bool

-- `vars` is what `mux.Vars` gives; a nil body is `none`.
pub record Request : Type 0 where
  pub method : String
  pub url_path : String
  pub vars : StringMap
  pub body : Option Body

-- The first call of `WriteHeader` sets `status`; `written` is the body, which net/http leaves out
-- of the answer to a HEAD request.
pub record ResponseWriter : Type 0 where
  pub headers : StringMap
  pub status : Option ℤ
  pub written : String

abbrev pub fresh_writer : ResponseWriter
fresh_writer = record { headers = []; status = none; written = "" }

-- `io.ReadAll(r.Body)`.
abbrev pub read_all : Body → Option String
read_all b = if b.broken then none else some b.content

-- `io.ReadAll(http.MaxBytesReader(w, r.Body, limit))`: an error past the limit.
abbrev pub read_limited : ℕ → Body → Option String
read_limited limit b = if b.broken || ltb limit b.size then none else some b.content

unfoldable pub put_string : String → String → StringMap → StringMap
put_string k v [] = (k, v) ∷ []
put_string k v ((j, u) ∷ m) = if str_eq j k then (k, v) ∷ m else (j, u) ∷ put_string k v m

-- The statuses from 100 to 199 but 101, switching protocols.
unfoldable pub is_informational : ℤ → Bool
is_informational (pos n) = leb 100 n && leb n 199 && not (n == 101)
is_informational (negsuc n) = false

-- `bodyAllowedForStatus`: no body goes with 100 to 199, 204 and 304.
unfoldable pub allows_body : ℤ → Bool
allows_body (pos n) = not (leb 100 n && leb n 199 || n == 204 || n == 304)
allows_body (negsuc n) = true

-- The status that was set, or else 200.
unfoldable pub sent_status : Option ℤ → ℤ
sent_status none = pos 200
sent_status (some code) = code

-- `http.CanonicalHeaderKey`.
module _ (canonical : String → String) where
  -- `w.Header().Set(key, value)`.
  unfoldable pub set_header : String → String → ResponseWriter → ResponseWriter
  unfolding put_string
  set_header key value w = record w { headers = put_string (canonical key) value w.headers }

  -- `w.WriteHeader(code)`: a second call is ignored, a code that is not of three digits panics, and
  -- an informational one is sent without setting the status.
  unfoldable pub write_header : ℤ → ResponseWriter → Action ResponseWriter
  unfolding is_informational
  write_header code w = elim w.status [
    | some old ↦ done w
    | none ↦
        if leb_ℤ (pos 100) code && leb_ℤ code (pos 999)
        then done (if is_informational code then w else record w { status = some code })
        else panic "invalid WriteHeader code"
  ]

  -- `w.Write(text)` sends the status 200 if none was set, and no text with a status without a body.
  unfoldable pub write : String → ResponseWriter → ResponseWriter
  unfolding allows_body sent_status
  write text w = record w {
    status = some (sent_status w.status);
    written = if allows_body (sent_status w.status) then w.written <> text else w.written;
  }

  -- `http.Error(w, text, code)`, at a code of three digits.
  unfoldable pub http_error : String → ℕ → ResponseWriter → ResponseWriter
  unfolding set_header write
  http_error text code w =
      let typed = set_header "Content-Type" "text/plain; charset=utf-8" w in
      let sniffed = set_header "X-Content-Type-Options" "nosniff" typed in
      let coded = record sniffed {
        status = elim sniffed.status [ some old ↦ some old | none ↦ some (pos code) ];
      } in
      write (text <> "\n") coded

-- ===== src/Server/Handler/Headers.antt =====
-- The headers of a response: what is set, and what is read back.
use servone.Prelude.{String, ◌≡◌, ◌≢◌, refl, sym, subst, ◌∙◌, some, [], ◌∷◌, eq_iff, arith}
use servone.Value.{StringMap, get_string}
use servone.World.{Env}
use servone.Go.{Go}
use servone.Http.{ResponseWriter, put_string, set_header}
use servone.Template.{Templates}
use servone.Server.Handler.{set_headers}
use servone.Snmp.Results.{PduText}
use servone.Snmp.Client.{Agents}
use mathlib.Core.List.{Memᴰ}
use mathlib.Core.List.Memᴰ.{head, tail}

get-put_string : (k v : String) (m : StringMap) → get_string k (put_string k v m) ≡ some v
unfolding get_string put_string
get-put_string k v [] = ground (arith, eq_iff k k)
get-put_string k v ((j, u) ∷ m) = ground (arith, eq_iff k k, eq_iff j k, get-put_string k v m)

get-put_string_other :
    (i k v : String) (m : StringMap) → k ≢ i → get_string i (put_string k v m) ≡ get_string i m
unfolding get_string put_string
get-put_string_other i k v [] other = ground (arith, eq_iff k i)
get-put_string_other i k v ((j, u) ∷ m) other =
    ground (arith, eq_iff k i, eq_iff j k, eq_iff j i, get-put_string_other i k v m other)

-- No two headers are one header for net/http.
abbrev pub IsAbsent : (String → String) → String → StringMap → Type 0
IsAbsent canonical i [] = Unit
IsAbsent canonical i ((k, v) ∷ headers) = (canonical k ≢ i) × IsAbsent canonical i headers

abbrev pub AreDistinct : (String → String) → StringMap → Type 0
AreDistinct canonical [] = Unit
AreDistinct canonical ((k, v) ∷ headers) =
    IsAbsent canonical (canonical k) headers × AreDistinct canonical headers

module _ {T : Type 0} (go : Go) (templates : Templates T) (agents : Agents) (print : PduText)
    (env : Env) where
  set_headers_other :
      (i : String) (headers : StringMap) (w : ResponseWriter)
      → IsAbsent go.canonical_header_key i headers
      → get_string i (set_headers go templates agents print env headers w).headers
        ≡ get_string i w.headers
  unfolding set_headers set_header
  set_headers_other i [] w absent = refl
  set_headers_other i ((k, v) ∷ headers) w (other, absent) =
      set_headers_other i headers (set_header go.canonical_header_key k v w) absent
      ∙ get-put_string_other i (go.canonical_header_key k) v w.headers other

  -- Where no two configured headers are one for net/http, each of them is read back from the
  -- response with its value, whatever headers the response had and in whatever order they are set.
  pub header_round_trip :
      (headers : StringMap) (key value : String) (w : ResponseWriter)
      → AreDistinct go.canonical_header_key headers
      → Memᴰ (key, value) headers
      → get_string
          (go.canonical_header_key key)
          (set_headers go templates agents print env headers w).headers
        ≡ some value
  unfolding set_headers set_header
  header_round_trip [] key value w distinct more = elim more [ ]
  header_round_trip ((k, v) ∷ headers) key value w (absent, distinct) (head same) =
      subst
        (λ (h : String × String).
          get_string (go.canonical_header_key h.0)
            (set_headers go templates agents print env ((k, v) ∷ headers) w).headers
          ≡ some h.1)
        (sym same)
        (set_headers_other (go.canonical_header_key k) headers
            (set_header go.canonical_header_key k v w) absent
          ∙ get-put_string (go.canonical_header_key k) v w.headers)
  header_round_trip ((k, v) ∷ headers) key value w (absent, distinct) (tail more) =
      header_round_trip headers key value (set_header go.canonical_header_key k v w) distinct more

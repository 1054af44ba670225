-- ===== src/Server/Template/Laws.antt =====
-- The cache of templates changes no text: it is an optimisation of `processTemplate` of the CoAP
-- server, which has none.
use servone.Prelude.{
  String, ◌≡◌, refl, some, [], ◌∷◌, str_eq, eq_iff, arith, if◌then◌else◌, inl, inr, Bool-cases,
  Option-cases,
}
use servone.Prelude.Text.{contains}
use servone.Value.{ok, StringMap}
use servone.Value.Cases.{Result-cases}
use servone.World.{Env, World, Outcome, returned, panicked, exited, and_then, done}
use servone.Go.{Go}
use servone.Template.{Templates, execute_template}
use servone.Server.Template.{Cache, find, store, process_template}
use servone.Coap.Template as Coap

module _ {T : Type 0} where
  find-store :
      (b body : String) (t : T) (cache : Cache T)
      → find b (store body t cache) ≡ (if str_eq body b then some t else find b cache)
  unfolding find store
  find-store b body t [] = refl
  find-store b body t ((c, u) ∷ cache) =
      ground (arith, eq_iff body b, eq_iff c body, eq_iff c b, find-store b body t cache)

-- What the cache holds under a text is what parsing the text gives.
abbrev pub IsValid : {T : Type 0} → Templates T → Cache T → Type 0
IsValid {T} templates cache =
    (body : String) (t : T) → find body cache ≡ some t → templates.parse body ≡ ok t

-- The text and the world, without the cache.
abbrev pub text_part : {T : Type 0} → Outcome (String × Cache T) × World → Outcome String × World
text_part (returned (out, cache), w) = (returned out, w)
text_part (panicked e, w) = (panicked e, w)
text_part (exited n, w) = (exited n, w)

abbrev pub KeepsCache : {T : Type 0} → Templates T → Outcome (String × Cache T) × World → Type 0
KeepsCache templates (returned (out, cache), w) = IsValid templates cache
KeepsCache templates (panicked e, w) = Unit
KeepsCache templates (exited n, w) = Unit

text_part-and_then :
    {T : Type 0} (cache : Cache T) (r : Outcome String × World)
    → text_part (and_then r (λ out. done (out, cache))) ≡ r
text_part-and_then cache (returned out, w) = refl
text_part-and_then cache (panicked e, w) = refl
text_part-and_then cache (exited n, w) = refl

KeepsCache-and_then :
    {T : Type 0} (templates : Templates T) (cache : Cache T) (r : Outcome String × World)
    → IsValid templates cache
    → KeepsCache templates (and_then r (λ out. done (out, cache)))
KeepsCache-and_then templates cache (returned out, w) h = h
KeepsCache-and_then templates cache (panicked e, w) h = tt
KeepsCache-and_then templates cache (exited n, w) h = tt

IsValid-store :
    {T : Type 0} (templates : Templates T) (cache : Cache T) (body : String) (t : T)
    → IsValid templates cache
    → templates.parse body ≡ ok t
    → IsValid templates (store body t cache)
IsValid-store templates cache body t valid parsed b u h =
    ground (arith, find-store b body t cache, eq_iff body b, valid b u)

module _ {T : Type 0} (go : Go) (templates : Templates T) (env : Env) (body : String)
    (vars : StringMap) (cache : Cache T) (w : World) (valid : IsValid templates cache) where
  -- From a valid cache, the text that `processTemplate` of the HTTP server gives, and what it
  -- does to the world, are those of `processTemplate` of the CoAP server, which has no cache.
  pub process_template_cached :
      text_part (process_template go templates env body vars cache w)
      ≡ Coap.process_template go templates env body vars w
  unfolding process_template Coap.process_template
  process_template_cached = elim (Bool-cases (contains body "{{")) [
    | inr plain ↦ rw plain
    | inl marked ↦ elim (Option-cases (find body cache)) [
      | inr (t, found) ↦
          rw (marked, found, valid body t found)
            (text_part-and_then cache (execute_template go templates env body vars t w))
      | inl missed ↦ elim (Result-cases (templates.parse body)) [
        | inr (e, bad) ↦ rw (marked, missed, bad)
        | inl (t, good) ↦
            rw (marked, missed, good)
              (text_part-and_then (store body t cache)
                (execute_template go templates env body vars t w))
      ]
    ]
  ]

  -- A valid cache stays valid: under a text it holds what parsing that text gives.
  pub process_template-IsValid :
      KeepsCache templates (process_template go templates env body vars cache w)
  unfolding process_template
  process_template-IsValid = elim (Bool-cases (contains body "{{")) [
    | inr plain ↦ rw plain valid
    | inl marked ↦ elim (Option-cases (find body cache)) [
      | inr (t, found) ↦ rw (marked, found) (KeepsCache-and_then templates cache _ valid)
      | inl missed ↦ elim (Result-cases (templates.parse body)) [
        | inr (e, bad) ↦ rw (marked, missed, bad) valid
        | inl (t, good) ↦
            rw (marked, missed, good)
              (KeepsCache-and_then templates (store body t cache) _
                (IsValid-store templates cache body t valid good))
      ]
    ]
  ]

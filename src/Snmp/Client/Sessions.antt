-- ===== src/Snmp/Client/Sessions.antt =====
-- The session of a GET or a WALK is closed on every path.
use servone.Prelude.{String, ◌≡◌, refl, ◌⊎◌, inl, inr, Option, some, List, ◌∷◌, Option-cases}
use servone.Value.{Error, wrap}
use servone.World.{
  Env, World, Outcome, returned, panicked, exited, Event, snmp_connected, snmp_disconnected,
  finally,
}
use servone.Snmp.Results.{PduText}
use servone.Snmp.Client.{Agents, SnmpClient, session_of, disconnect, get_v3, walk_v3}

-- The process goes on: the call returned or panicked.
abbrev pub GoesOn : {A : Type 0} → Outcome A → Type 0
GoesOn (returned a) = Unit
GoesOn (panicked e) = Unit
GoesOn (exited n) = ⊥

-- The last event is that the session to the target was closed.
abbrev pub EndsClosed : String → World → Type 0
EndsClosed target w = (es : List Event) × (w.trace ≡ snmp_disconnected target ∷ es)

-- Connecting failed and nothing else happened, or the session was opened and, if the process goes
-- on, closed last.
abbrev pub ClosesSession : String → World → Outcome (Option Error) × World → Type 0
ClosesSession target w (r, w') =
    ((e : Error) × (r ≡ returned (some (wrap "connect failed: %w" e)))
      × (w'.trace ≡ snmp_connected target (some e) ∷ w.trace))
    ⊎ (GoesOn r → EndsClosed target w')

module _ (agents : Agents) (print : PduText) (env : Env) (c : SnmpClient) (target : String) where
  closes_after :
      (w : World) (r : Outcome (Option Error) × World)
      → ClosesSession target w
          (finally r (disconnect agents print env (session_of c.config target)))
  unfolding disconnect session_of
  closes_after w (returned a, v) = inr (λ h. (v.trace, refl))
  closes_after w (panicked e, v) = inr (λ h. (v.trace, refl))
  closes_after w (exited n, v) = inr (λ h. elim h [ ])

  -- `GetV3` returns the error of the connection, without another event, or it closes its session
  -- last, also where a PDU or the publisher makes it panic, if the process goes on.
  pub get_v3-ClosesSession :
      (oids : List String) (w : World)
      → ClosesSession target w (get_v3 agents print env c target oids w)
  unfolding get_v3
  get_v3-ClosesSession oids w =
      elim (Option-cases (agents.connect w.calls (session_of c.config target))) [
        | inr (e, refused) ↦ rw (get_v3, refused) (inl (e, refl, refl))
        | inl connected ↦ rw (get_v3, connected) (closes_after w _)
      ]

  -- `WalkV3` returns the error of the connection, without another event, or it closes its session
  -- last, also where a PDU or the publisher makes it panic, if the process goes on.
  pub walk_v3-ClosesSession :
      (root_oid : String) (w : World)
      → ClosesSession target w (walk_v3 agents print env c target root_oid w)
  unfolding walk_v3
  walk_v3-ClosesSession root_oid w =
      elim (Option-cases (agents.connect w.calls (session_of c.config target))) [
        | inr (e, refused) ↦ rw (walk_v3, refused) (inl (e, refl, refl))
        | inl connected ↦ rw (walk_v3, connected) (closes_after w _)
      ]

-- ===== src/Trace.antt =====
-- What a trace says: the rows that were saved and the records that were sent.
use servone.Prelude.{
  ℕ, suc, ◌+◌, String, ◌≡◌, refl, ap, sym, ◌∙◌, Bool, true, false, none, List, [], ◌∷◌, ◌++◌, arith,
  if◌then◌else◌,
}
use servone.World.{
  Table, client_data, mqtt_messages, coap_messages, snmp_data, insert_into, World, Event, executed,
  logged, snmp_connected, produced, Outcome, returned, panicked, exited, Action, and_then,
}
use mathlib.Core.List.{append_assoc}

abbrev pub same_table : Table → Table → Bool
same_table client_data client_data = true
same_table mqtt_messages mqtt_messages = true
same_table coap_messages coap_messages = true
same_table snmp_data snmp_data = true
same_table _ _ = false

-- The event is an INSERT into the table that succeeded.
abbrev pub is_row : Table → Event → Bool
is_row t (executed p deadline (insert_into t' args) none) = same_table t t'
is_row t _ = false

abbrev pub is_sent : Event → Bool
is_sent (produced topic payload d) = true
is_sent _ = false

-- The number of rows that were inserted into a table.
abbrev pub stored : Table → List Event → ℕ
stored t [] = 0
stored t (e ∷ es) = if is_row t e then suc (stored t es) else stored t es

-- The number of records that were handed to Kafka.
abbrev pub sent : List Event → ℕ
sent [] = 0
sent (e ∷ es) = if is_sent e then suc (sent es) else sent es

abbrev pub AllEvents : (Event → Type 0) → List Event → Type 0
AllEvents P [] = Unit
AllEvents P (e ∷ es) = P e × AllEvents P es

-- An event that is no SQL statement.
abbrev pub IsNoSql : Event → Type 0
IsNoSql (executed p deadline stmt answer) = ⊥
IsNoSql _ = Unit

pub stored-append :
    (t : Table) (es es' : List Event) → AllEvents IsNoSql es → stored t (es ++ es') ≡ stored t es'
stored-append t [] es' h = refl
stored-append t (e ∷ es) es' (he, hes) = ground (arith, stored-append t es es' hes)

pub sent-append : (es es' : List Event) → sent (es ++ es') ≡ sent es + sent es'
sent-append [] es' = omega arith
sent-append (e ∷ es) es' = ground (arith, sent-append es es')

pub AllEvents-append :
    (P : Event → Type 0) (es es' : List Event)
    → AllEvents P es
    → AllEvents P es'
    → AllEvents P (es ++ es')
AllEvents-append P [] es' h k = k
AllEvents-append P (e ∷ es) es' (he, hes) k = (he, AllEvents-append P es es' hes k)

-- An event that is no connection to an SNMP agent.
abbrev pub IsNoSnmp : Event → Type 0
IsNoSnmp (snmp_connected target e) = ⊥
IsNoSnmp _ = Unit

-- The target of a connection, or of an attempt of one, to an SNMP agent.
abbrev pub attempt : Event → List String
attempt (snmp_connected target e) = target ∷ []
attempt _ = []

-- The targets that the program connected to, or tried to, the newest first.
abbrev pub attempts : List Event → List String
attempts [] = []
attempts (e ∷ es) = attempt e ++ attempts es

pub attempts-append :
    (es es' : List Event) → AllEvents IsNoSnmp es → attempts (es ++ es') ≡ attempts es'
attempts-append [] es' h = refl
attempts-append (e ∷ es) es' (he, hes) = ground (arith, attempts-append es es' hes)

abbrev pub IsLog : Event → Type 0
IsLog (logged format) = Unit
IsLog _ = ⊥

-- Since the first world only log lines were added, and `DbPool` is the same.
abbrev pub Logs : World → World → Type 0
Logs w w' =
    (w'.db_pool ≡ w.db_pool) × ((es : List Event) × AllEvents IsLog es × (w'.trace ≡ es ++ w.trace))

pub Logs-trans : (w v u : World) → Logs w v → Logs v u → Logs w u
Logs-trans w v u (same, (es, logs, adds)) (same', (es', logs', adds')) = (
  same' ∙ same,
  (
    es' ++ es,
    AllEvents-append IsLog es' es logs' logs,
    adds' ∙ ap (λ (l : List Event). es' ++ l) adds ∙ sym (append_assoc es' es w.trace),
  ),
)

-- A call that only logs and returns, and then one that only logs.
pub Logs-and_then :
    {A B : Type 0} (w : World) (r : Outcome A × World) (f : A → Action B) (a : A)
    → r.0 ≡ returned a
    → Logs w r.1
    → Logs r.1 (f a r.1).1
    → Logs w (and_then r f).1
Logs-and_then w (returned b, v) f a e before after =
    Logs-trans w v (f b v).1 before (ground (arith, after))
Logs-and_then w (panicked m, v) f a e before after = cc
Logs-and_then w (exited n, v) f a e before after = cc

-- ===== src/Db/Setup.antt =====
-- Opening the pool and setting up the tables.
use servone.Prelude.{
  ℕ, suc, Option-cases, String, ◌≡◌, refl, ◌⊎◌, Option, none, some, List, [], ◌∷◌, arith, inl, inr,
}
use servone.Value.{Error}
use servone.Value.Cases.{Result-cases}
use servone.World.{
  Env, World, Pool, Table, client_data, mqtt_messages, coap_messages, snmp_data, Outcome, returned,
  exited, Statement, Event, executed,
}
use servone.Db.Tables.{Database, create_of, setup_tables, setup_database}
use servone.Db.Pools.{init_db}

-- The statements of a trace, the newest first.
abbrev pub statements : List Event → List Statement
statements [] = []
statements (executed p deadline stmt answer ∷ es) = stmt ∷ statements es
statements (_ ∷ es) = statements es

-- The method returns nil and the global function returns, or the method returns an error and the
-- global function ends the process with status 1.
abbrev pub SameOutcome : Outcome (Option Error) → Outcome Unit → Type 0
SameOutcome (returned none) (returned tt) = Unit
SameOutcome (returned (some e)) (exited n) = n ≡ 1
SameOutcome _ _ = ⊥

abbrev pub on_pool : Pool → Database
on_pool p = record { db = some p }

-- On one pool, `SetupTables` and the global `SetupDatabase` send the same statements, however far
-- they come, and the first fails exactly where the second ends the process.
pub setup_same :
    (env : Env) (w : World) (p : Pool)
    → w.db_pool ≡ some p
    → SameOutcome (setup_tables env (on_pool p) w).0 (setup_database env w).0
      × (statements (setup_tables env (on_pool p) w).1.trace
          ≡ statements (setup_database env w).1.trace)
unfolding setup_tables setup_database
setup_same env w p k =
    let ask = λ (n : ℕ) (t : Table). env.exec n p none (create_of t) in
    let n = w.calls in
    elim (Option-cases (ask n client_data)) [
      | inr (e, l₁) ↦ rw (k, l₁) (refl, refl)
      | inl l₁ ↦ elim (Option-cases (ask (suc (suc n)) mqtt_messages)) [
        | inr (e, l₂) ↦ rw (k, l₁, l₂) (refl, refl)
        | inl l₂ ↦ elim (Option-cases (ask (suc (suc (suc (suc n)))) coap_messages)) [
          | inr (e, l₃) ↦ rw (k, l₁, l₂, l₃) (refl, refl)
          | inl l₃ ↦ elim (Option-cases (ask (suc (suc (suc (suc (suc (suc n)))))) snmp_data)) [
            | inr (e, l₄) ↦ rw (k, l₁, l₂, l₃, l₄) (refl, refl)
            | inl l₄ ↦ rw (k, l₁, l₂, l₃, l₄) (tt, refl)
          ]
        ]
      ]
    ]

-- Where `SetupDatabase` returns, it has created all four tables, in this order, and nothing else.
pub setup_complete :
    (env : Env) (w : World) (p : Pool)
    → w.db_pool ≡ some p
    → (setup_database env w).0 ≡ returned tt
    → statements (setup_database env w).1.trace
      ≡ create_of snmp_data
        ∷ create_of coap_messages
        ∷ create_of mqtt_messages
        ∷ create_of client_data
        ∷ statements w.trace
unfolding setup_database
setup_complete env w p k h = ground arith

-- `InitDB` leaves `DbPool` open if it returns nil, and as it was if it returns an error.
pub init_db-DbPool :
    (env : Env) (conn_str : String) (w : World)
    → (((init_db env conn_str w).0 ≡ returned none)
        × ((p : Pool) × ((init_db env conn_str w).1.db_pool ≡ some p)))
      ⊎ ((e : Error) × ((init_db env conn_str w).0 ≡ returned (some e))
          × ((init_db env conn_str w).1.db_pool ≡ w.db_pool))
unfolding init_db
init_db-DbPool env conn_str w = elim (Result-cases (env.open_pool w.calls conn_str)) [
  | inr (e, h) ↦ rw h (inr (_, refl, refl))
  | inl (p, h) ↦ elim (Option-cases (env.ping (suc (suc w.calls)) p)) [
    | inr (e, k) ↦ rw (h, k) (inr (_, refl, refl))
    | inl k ↦ rw (h, k) (inl (refl, (p, refl)))
  ]
]

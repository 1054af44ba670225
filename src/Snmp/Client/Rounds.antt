-- ===== src/Snmp/Client/Rounds.antt =====
-- One round of the walk scheduler: it ends, and tries every target.
use servone.Prelude.{
  ℕ, suc, String, ◌≡◌, refl, ap, sym, ◌∙◌, inl, inr, Option, none, some, List, [], ◌∷◌, ◌++◌,
  Option-cases,
}
use mathlib.Core.List.{append_assoc, reverse, reverse-append}
use servone.Value.{Error, ok}
use servone.Value.Cases.{Result-cases}
use servone.World.{
  Env, World, Pool, Outcome, client_data, returned, panicked, exited, record_event, snmp_connected,
  snmp_walked, log_error, finally, done, ◌>>◌,
}
use servone.World.Laws.{and_then_returned}
use servone.Trace.{attempts}
use servone.Kafka.Logged.{log_error_lem, log_error-attempts}
use servone.Kafka.Publisher.{PublisherInterface}
use servone.Kafka.Contract.{IsPublisher}
use servone.Config.{SnmpConfig}
use servone.Snmp.Results.{SnmpPdu, PduText, process_results}
use servone.Snmp.Results.Collected.{AllTyped}
use servone.Snmp.Results.Laws.{process_results_stores, process_results-attempts}
use servone.Snmp.Client.{
  Agents, SnmpClient, Session, session_of, disconnect, finish, walk_v3, walk_targets,
}

-- Of the agents: every PDU's value has the Go type that the code asserts for its type.
abbrev pub IsTyped : Agents → Type 0
IsTyped agents =
    (call : ℕ) (g : Session) (root_oid : String) (pdus : List SnmpPdu)
    → agents.walk call g root_oid ≡ ok pdus
    → AllTyped pdus

-- It returned, after one connection, or attempt of one, more, to the target.
abbrev Tries : String → World → Outcome (Option Error) × World → Type 0
Tries target w r =
    ((e : Option Error) × (r.0 ≡ returned e)) × (attempts r.1.trace ≡ target ∷ attempts w.trace)

module _ (agents : Agents) (print : PduText) (env : Env) (typed : IsTyped agents)
    (config : SnmpConfig) (p : Pool) (publisher : PublisherInterface)
    (keeps : IsPublisher publisher) where
  -- The client with its pool and its publisher.
  abbrev pub client : SnmpClient
  client = record { config = config; db = some p; kafka_publisher = some publisher }

  processed :
      (source : String) (pdus : List SnmpPdu) (w : World)
      → AllTyped pdus
      → (process_results print env "walk" source pdus (some publisher) (some p) w).0 ≡ returned tt
  processed source pdus w h =
      elim (process_results_stores print env "walk" source pdus publisher keeps p w) [
        | inl (typed, results, all, returns, records, row) ↦ returns
        | inr (untyped, panics, same) ↦ elim (untyped h) [ ]
      ]

  finish_lem :
      (g : Session) (pdus : List SnmpPdu) (w : World)
      → AllTyped pdus
      → ((finish agents print env client "walk" "walk failed: %w" g (ok pdus) w).0 ≡ returned none)
        × (attempts (finish agents print env client "walk" "walk failed: %w" g (ok pdus) w).1.trace
            ≡ attempts w.trace)
  unfolding finish
  finish_lem g pdus w h =
      let step =
        and_then_returned
          (process_results print env "walk" g.target pdus (some publisher) (some p) w) tt
          (λ _. done {A = Option Error} none) (processed g.target pdus w h) in
      (
        ap (λ (r : Outcome (Option Error) × World). r.0) step,
        ap (λ (r : Outcome (Option Error) × World). attempts r.1.trace) step
            ∙ process_results-attempts print env "walk" g.target pdus publisher keeps p w,
      )

  closes :
      (g : Session) (r : Outcome (Option Error) × World)
      → r.0 ≡ returned none
      → ((finally r (disconnect agents print env g)).0 ≡ returned none)
        × (attempts (finally r (disconnect agents print env g)).1.trace ≡ attempts r.1.trace)
  unfolding disconnect
  closes g (returned e, w) h = (h, refl)
  closes g (panicked e, w) h = cc
  closes g (exited n, w) h = cc

  pub walk_v3-Tries :
      (target root_oid : String) (w : World)
      → Tries target w (walk_v3 agents print env client target root_oid w)
  unfolding walk_v3
  walk_v3-Tries target root_oid w =
      let g = session_of config target in
      elim (Option-cases (agents.connect w.calls g)) [
        | inr (e, refused) ↦ rw (walk_v3, refused) ((_, refl), refl)
        | inl connected ↦ elim (Result-cases (agents.walk (suc w.calls) g root_oid)) [
          | inr (e, failed) ↦ rw (walk_v3, connected, failed) ((_, refl), refl)
          | inl (pdus, answered) ↦
              let w₁ = record_event (snmp_connected target none) w in
              let w₂ = record_event (snmp_walked target root_oid none) w₁ in
              let (returns, same) =
                finish_lem g pdus w₂ (typed (suc w.calls) g root_oid pdus answered) in
              let (closed, kept) =
                closes g (finish agents print env client "walk" "walk failed: %w" g (ok pdus) w₂)
                  returns in
              rw (walk_v3, connected, answered) ((none, closed), kept ∙ same)
        ]
      ]

  pushed :
      (target : String) (targets more : List String)
      → reverse (target ∷ targets) ++ more ≡ reverse targets ++ target ∷ more
  pushed target targets more =
      ap (λ (l : List String). l ++ more) (reverse-append (target ∷ []) targets)
      ∙ append_assoc (reverse targets) (target ∷ []) more

  -- Where the values of the PDUs have the types that the code asserts, with a pool and a publisher
  -- that keeps its contract, a round of the scheduler returns, and connects, or tries to, to the
  -- configured targets and no others, to each once and in their order, whatever fails: an error of
  -- one target does not keep the round from the others.
  pub walk_targets_lem :
      (targets : List String) (w : World)
      → ((walk_targets agents print env client targets w).0 ≡ returned tt)
        × (attempts (walk_targets agents print env client targets w).1.trace
            ≡ reverse targets ++ attempts w.trace)
  unfolding walk_targets
  walk_targets_lem [] w = (refl, refl)
  walk_targets_lem (target ∷ targets) w =
      let walked = walk_v3 agents print env client target config.root_oid w in
      let ((e, returns), tried) = walk_v3-Tries target config.root_oid w in
      let logged = log_error "Scheduled SNMP walk failed for target %s: %v" e walked.1 in
      let (quiet, rows, records) =
        log_error_lem client_data "Scheduled SNMP walk failed for target %s: %v" e walked.1 in
      let same = log_error-attempts "Scheduled SNMP walk failed for target %s: %v" e walked.1 in
      let (rest, more) = walk_targets_lem targets logged.1 in
      let step =
        and_then_returned walked e
          (λ e'.
            log_error "Scheduled SNMP walk failed for target %s: %v" e'
            >> walk_targets agents print env client targets)
          returns
        ∙ and_then_returned logged tt (λ _. walk_targets agents print env client targets) quiet in
      (
        ap (λ (r : Outcome Unit × World). r.0) step ∙ rest,
        ap (λ (r : Outcome Unit × World). attempts r.1.trace) step
            ∙ more
            ∙ ap (λ (l : List String). reverse targets ++ l) (same ∙ tried)
            ∙ sym (pushed target targets (attempts w.trace)),
      )

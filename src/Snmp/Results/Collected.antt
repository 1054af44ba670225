-- ===== src/Snmp/Results/Collected.antt =====
-- What `processResults` makes of the PDUs: the results, or a panic.
use servone.Prelude.{String, ◌≡◌, refl, ◌⊎◌, inl, inr, some, List, [], ◌∷◌}
use servone.Value.{text, object, Items, nil, cons, get}
use servone.World.{World, Outcome, returned, panicked}
use servone.Snmp.Results.{
  PduType, octet_string, object_identifier, other_type, PduValue, byte_slice, string_value,
  other_value, SnmpPdu, PduText, get_value_string, collect_results,
}

-- The value has the Go type that the code asserts for the PDU's type.
abbrev pub HasType : PduType → PduValue → Type 0
HasType octet_string (byte_slice s) = Unit
HasType octet_string _ = ⊥
HasType object_identifier (string_value s) = Unit
HasType object_identifier _ = ⊥
HasType (other_type t) v = Unit

abbrev pub AllTyped : List SnmpPdu → Type 0
AllTyped [] = Unit
AllTyped (pdu ∷ pdus) = HasType pdu.type pdu.value × AllTyped pdus

-- The text of a PDU's value: the bytes of an octet string, the text of an object identifier, and
-- what the verb `%v` prints of any other value.
abbrev pub Shows : PduText → PduType → PduValue → String → Type 0
Shows print octet_string (byte_slice s) shown = shown ≡ s
Shows print octet_string _ shown = ⊥
Shows print object_identifier (string_value s) shown = shown ≡ s
Shows print object_identifier _ shown = ⊥
Shows print (other_type t) v shown = shown ≡ print.format_value v

-- The results hold one object for each PDU, in their order, with its name, the text of its type and
-- that of its value.
abbrev pub Describes : PduText → List SnmpPdu → Items → Type 0
Describes print [] nil = Unit
Describes print (pdu ∷ pdus) (cons (object fields) results) =
    (get "oid" fields ≡ some (text pdu.name))
    × (get "type" fields ≡ some (text (print.type_string pdu.type)))
    × ((shown : String) × (get "value" fields ≡ some (text shown))
        × Shows print pdu.type pdu.value shown)
    × Describes print pdus results
Describes print _ _ = ⊥

-- It returns and does nothing else, or it panics and does nothing else.
abbrev pub ReturnsOrPanics :
    {A : Type 0} → Type 0 → (A → Type 0) → World → Outcome A × World → Type 0
ReturnsOrPanics {A} P Q w r =
    (P × ((a : A) × Q a × (r ≡ (returned a, w))))
    ⊎ ((P → ⊥) × (r ≡ (panicked "interface conversion", w)))

module _ (print : PduText) where
  get_value_string_lem :
      (name : String) (t : PduType) (value : PduValue) (w : World)
      → ReturnsOrPanics
          (HasType t value)
          (Shows print t value)
          w
          (get_value_string print (record { name = name; type = t; value = value }) w)
  unfolding get_value_string
  get_value_string_lem name octet_string (byte_slice s) w = inl (tt, (s, refl, refl))
  get_value_string_lem name octet_string (string_value s) w = inr ((λ h. h), refl)
  get_value_string_lem name octet_string (other_value s) w = inr ((λ h. h), refl)
  get_value_string_lem name object_identifier (string_value s) w = inl (tt, (s, refl, refl))
  get_value_string_lem name object_identifier (byte_slice s) w = inr ((λ h. h), refl)
  get_value_string_lem name object_identifier (other_value s) w = inr ((λ h. h), refl)
  get_value_string_lem name (other_type t) value w =
      inl (tt, (print.format_value value, refl, refl))

  pub collect_results_lem :
      (pdus : List SnmpPdu) (w : World)
      → ReturnsOrPanics (AllTyped pdus) (Describes print pdus) w (collect_results print pdus w)
  unfolding collect_results get
  collect_results_lem [] w = inl (tt, (nil, tt, refl))
  collect_results_lem (pdu ∷ pdus) w = elim (get_value_string_lem pdu.name pdu.type pdu.value w) [
    | inr (untyped, panics) ↦ rw panics (inr ((λ h. untyped h.0), refl))
    | inl (typed, (value, shows, returns)) ↦ elim (collect_results_lem pdus w) [
      | inr (rest, panics) ↦ rw (returns, panics) (inr ((λ h. rest h.1), refl))
      | inl (rest, (xs, all, others)) ↦
          rw (returns, others)
            (inl ((typed, rest), (_, (refl, refl, (value, refl, shows), all), refl)))
    ]
  ]

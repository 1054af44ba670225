-- ===== src/Snmp/Handler/Parsed.antt =====
-- What the code takes for a target and for OIDs in the JSON of a request.
use servone.Prelude.{
  String, ◌≡◌, ◌≢◌, refl, ap, ◌⊎◌, inl, inr, Option, none, some, List, [], ◌∷◌, str_eq, eq_iff,
  arith, Bool-cases,
}
use servone.Value.{
  Value, null, boolean, int, float, text, items, object, Fields, Items, nil, cons, get,
}
use servone.Snmp.Handler.{target_of, oids_raw_of, oids_of}

-- Texts as a JSON array.
abbrev pub texts : List String → Items
texts [] = nil
texts (s ∷ ss) = cons (text s) (texts ss)

-- JSON that names a target and a list of OIDs, neither of them empty.
abbrev pub Names : Fields → String → List String → Type 0
Names data_map target oids =
    (get "target" data_map ≡ some (text target))
    × (target ≢ "")
    × (get "oids" data_map ≡ some (items (texts oids)))
    × (oids ≢ [])

-- The target is a text that is not empty and the code takes it, or it is not and the code does not.
abbrev pub IsTarget : Option Value → Type 0
IsTarget o =
    ((t : String) × (o ≡ some (text t)) × (t ≢ "") × (target_of o ≡ some t))
    ⊎ ((target_of o ≡ none) × ((t : String) → o ≡ some (text t) → t ≢ "" → ⊥))

pub target_of_lem : (o : Option Value) → IsTarget o
unfolding target_of
target_of_lem (some (text s)) = elim (Bool-cases (str_eq s "")) [
  | inl empty ↦ inr (rw empty refl, λ t h full. full (ground (arith, eq_iff s "", empty, h)))
  | inr full ↦ inl (s, refl, ground (arith, eq_iff s "", full), rw full refl)
]
target_of_lem none = inr (refl, λ t h full. cc)
target_of_lem (some null) = inr (refl, λ t h full. cc)
target_of_lem (some (boolean b)) = inr (refl, λ t h full. cc)
target_of_lem (some (int n)) = inr (refl, λ t h full. cc)
target_of_lem (some (float n)) = inr (refl, λ t h full. cc)
target_of_lem (some (items xs)) = inr (refl, λ t h full. cc)
target_of_lem (some (object m)) = inr (refl, λ t h full. cc)

-- The same of an array of texts.
abbrev pub AreTexts : Items → Type 0
AreTexts xs =
    ((ss : List String) × (xs ≡ texts ss) × (oids_of xs ≡ some ss))
    ⊎ ((oids_of xs ≡ none) × ((ss : List String) → xs ≡ texts ss → ⊥))

odd_item :
    (v : Value) (xs : Items)
    → ((s : String) → v ≡ text s → ⊥)
    → (ss : List String) → cons v xs ≡ texts ss
    → ⊥
odd_item v xs odd [] h = cc
odd_item v xs odd (s ∷ ss) h = odd s (cc)

odd_rest :
    (s : String) (xs : Items)
    → ((ss : List String) → xs ≡ texts ss → ⊥)
    → (ss : List String) → cons (text s) xs ≡ texts ss
    → ⊥
odd_rest s xs odd [] h = cc
odd_rest s xs odd (t ∷ ss) h = odd ss (cc)

pub oids_of_lem : (xs : Items) → AreTexts xs
unfolding oids_of
oids_of_lem nil = inl ([], refl, refl)
oids_of_lem (cons (text s) xs) = elim (oids_of_lem xs) [
  | inl (ss, same, all) ↦ inl (s ∷ ss, ap (cons (text s)) same, rw all refl)
  | inr (refused, odd) ↦ inr (rw refused refl, odd_rest s xs odd)
]
oids_of_lem (cons null xs) = inr (refl, odd_item null xs (λ s h. cc))
oids_of_lem (cons (boolean b) xs) = inr (refl, odd_item (boolean b) xs (λ s h. cc))
oids_of_lem (cons (int n) xs) = inr (refl, odd_item (int n) xs (λ s h. cc))
oids_of_lem (cons (float n) xs) = inr (refl, odd_item (float n) xs (λ s h. cc))
oids_of_lem (cons (items m) xs) = inr (refl, odd_item (items m) xs (λ s h. cc))
oids_of_lem (cons (object m) xs) = inr (refl, odd_item (object m) xs (λ s h. cc))

-- The field is an array that is not empty, or it is not.
abbrev pub IsArray : Option Value → Type 0
IsArray o =
    ((x : Value) × (xs : Items) × (o ≡ some (items (cons x xs)))
      × (oids_raw_of o ≡ some (cons x xs)))
    ⊎ ((oids_raw_of o ≡ none) × ((ss : List String) → o ≡ some (items (texts ss)) → ss ≢ [] → ⊥))

no_texts :
    (ss : List String)
    → ◌≡◌ {A = Option Value} (some (items nil)) (some (items (texts ss)))
    → ss ≢ []
    → ⊥
no_texts [] h full = full refl
no_texts (s ∷ ss) h full = cc

pub oids_raw_of_lem : (o : Option Value) → IsArray o
unfolding oids_raw_of
oids_raw_of_lem (some (items (cons x xs))) = inl (x, xs, refl, refl)
oids_raw_of_lem (some (items nil)) = inr (refl, no_texts)
oids_raw_of_lem none = inr (refl, λ ss h full. cc)
oids_raw_of_lem (some null) = inr (refl, λ ss h full. cc)
oids_raw_of_lem (some (boolean b)) = inr (refl, λ ss h full. cc)
oids_raw_of_lem (some (int n)) = inr (refl, λ ss h full. cc)
oids_raw_of_lem (some (float n)) = inr (refl, λ ss h full. cc)
oids_raw_of_lem (some (text s)) = inr (refl, λ ss h full. cc)
oids_raw_of_lem (some (object m)) = inr (refl, λ ss h full. cc)

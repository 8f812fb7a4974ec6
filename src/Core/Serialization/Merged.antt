-- ===== src/Core/Serialization/Merged.antt =====
-- Registries of app/core/db/outbox/serialization.py that are merged.
use boat_backend.Prelude.{
  ◌≡◌, refl, sym, ◌∙◌, subst, ◌⊎◌, inl, inr, String, Bool, true, false, [], ◌∷◌, some, arith,
  Bool-cases, text_eq, eq_iff, if◌then◌else◌,
}
use boat_backend.Core.Errors.{ok}
use boat_backend.Core.Serialization.{EventClass, EventTypeRegistry, lookup, assign, is_other, merge}

-- A type by the same name, with the class's identifier.
abbrev pub Resolves : EventTypeRegistry → String → EventClass → Type 0
Resolves types name c = (d : EventClass) × (lookup name types ≡ some d) × (d.id ≡ c.id)

lookup-assign :
    (name n : String) (c : EventClass) (types : EventTypeRegistry)
    → lookup n (assign name c types) ≡ (if text_eq name n then some c else lookup n types)
unfolding assign
lookup-assign name n c [] = refl
lookup-assign name n c ((m, d) ∷ types) = elim (Bool-cases (text_eq m name)) [
  | inl e ↦ (let same : m ≡ name = (eq_iff m name).0 e in rw e (rw same (found (text_eq name n))))
  | inr e ↦ rw e (rw (lookup-assign name n c types) (passed (Bool-cases (text_eq m n)) e))
]
  where
    found :
        (b : Bool)
        → (if b then some c else lookup n types)
          ≡ (if b then some c else if b then some d else lookup n types)
    found true = refl
    found false = refl

    passed :
        (text_eq m n ≡ true) ⊎ (text_eq m n ≡ false)
        → text_eq m name ≡ false
        → (if text_eq m n then some d else if text_eq name n then some c else lookup n types)
          ≡ (if text_eq name n then some c else if text_eq m n then some d else lookup n types)
    passed (inr miss) e = rw miss refl
    passed (inl hit) e = elim (Bool-cases (text_eq name n)) [
      | inr miss ↦ rw miss refl
      | inl both ↦
          (let same : m ≡ name = (eq_iff m n).0 hit ∙ sym ((eq_iff name n).0 both) in
            let again : text_eq m name ≡ true = (eq_iff m name).1 same in
            absurd (ground (arith, again, e)))
    ]

assign-Resolves :
    (name n : String) (c d : EventClass) (types : EventTypeRegistry)
    → is_other (lookup name types) d ≡ false
    → Resolves types n c
    → Resolves (assign name d types) n c
assign-Resolves name n c d types agrees (x, found, same) = elim (Bool-cases (text_eq name n)) [
  | inr miss ↦ (x, rw (lookup-assign name n d types, miss) found, same)
  | inl hit ↦
      (let q : name ≡ n = (eq_iff name n).0 hit in
        let known : lookup name types ≡ some x = rw q found in
        (d, rw (lookup-assign name n d types, hit) refl, ground (arith, agrees, known, same)))
]

-- A merge that succeeds leaves every event type that was registered with the class it resolved to.
pub merge-Resolves :
    (others types merged : EventTypeRegistry) (n : String) (c : EventClass)
    → merge types others ≡ ok merged
    → Resolves types n c
    → Resolves merged n c
unfolding merge
merge-Resolves [] types merged n c h r =
    (let q : types ≡ merged = ground (arith, h) in subst (λ t. Resolves t n c) q r)
merge-Resolves ((name, d) ∷ others) types merged n c h r =
    elim (Bool-cases (is_other (lookup name types) d)) [
      | inl conflict ↦ absurd (ground (arith, conflict, h))
      | inr agrees ↦
          merge-Resolves others (assign name d types) merged n c (rw agrees at h)
            (assign-Resolves name n c d types agrees r)
    ]

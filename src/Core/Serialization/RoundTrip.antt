-- ===== src/Core/Serialization/RoundTrip.antt =====
-- Events of app/core/db/outbox/serialization.py that are serialized and read back, and merged registries.
use text.Mathlib.TextPositions.{eq_refl}
use boat_backend.Prelude.{
  ℕ, ◌≡◌, refl, String, Bool, true, false, List, [], ◌∷◌, Option, some, arith, All, text_eq,
}
use boat_backend.Core.Errors.{ok}
use boat_backend.Core.Serialization.{
  Json, json_null, json_text, json_number, json_bool, FieldType, uuid_type, datetime_type,
  plain_type, enum_type, Value, none_value, uuid_value, datetime_value, enum_value, plain_value,
  Field, DomainEvent, EventTypeRegistry, lookup, resolve, is_member, encode_value, decode_value,
  payload_of, serialize_event, payload_value, decode_fields, deserialize_event,
}

abbrev is_null : Json → Bool
is_null json_null = true
is_null _ = false

-- The values that a field of the type holds.
pub data HasType : FieldType → Value → Type 0 where
  missing : (type : FieldType) → HasType type none_value
  uuid_typed : (n : ℕ) → HasType uuid_type (uuid_value n)
  datetime_typed : (n : ℕ) → HasType datetime_type (datetime_value n)
  enum_typed :
      (members : List String) (v : String)
      → is_member v members ≡ true
      → HasType (enum_type members) (enum_value v)
  plain_typed : (j : Json) → is_null j ≡ false → HasType plain_type (plain_value j)

-- One value for each field, of its type.
pub data AreTyped : List Field → List Value → Type 0 where
  no_fields : AreTyped [] []
  one_more :
      {f : Field} {fs : List Field} {v : Value} {vs : List Value}
      → HasType f.type v
      → AreTyped fs vs
      → AreTyped (f ∷ fs) (v ∷ vs)

-- No two fields have the same name.
abbrev pub AreDistinct : List Field → Type 0
AreDistinct [] = Unit
AreDistinct (f ∷ fs) = All (λ other. text_eq f.name other.name ≡ false) fs × AreDistinct fs

module _ (str : ℕ → String) (parse_uuid : String → Option ℕ) (isoformat : ℕ → String)
    (fromisoformat : String → Option ℕ) (uuid_read : (n : ℕ) → parse_uuid (str n) ≡ some n)
    (datetime_read : (n : ℕ) → fromisoformat (isoformat n) ≡ some n) where
  decode-encode :
      (type : FieldType) (v : Value)
      → HasType type v
      → decode_value str parse_uuid isoformat fromisoformat type
          (encode_value str parse_uuid isoformat fromisoformat v)
        ≡ ok v
  unfolding decode_value encode_value
  decode-encode _ _ (missing type) = refl
  decode-encode _ _ (uuid_typed n) = rw (uuid_read n) refl
  decode-encode _ _ (datetime_typed n) = rw (datetime_read n) refl
  decode-encode _ _ (enum_typed members v h) = rw h refl
  decode-encode _ _ (plain_typed j h) = plain_read j h
    where
      plain_read :
          (j : Json)
          → is_null j ≡ false
          → decode_value str parse_uuid isoformat fromisoformat plain_type j ≡ ok (plain_value j)
      plain_read json_null h = absurd (ground (arith, h))
      plain_read (json_text v) h = refl
      plain_read (json_number v) h = refl
      plain_read (json_bool v) h = refl

  abbrev encoded : Value → Json
  encoded v = encode_value str parse_uuid isoformat fromisoformat v

  -- The payload holds the value of each field.
  abbrev Holds : List (String × Json) → List Field → List Value → Type 0
  Holds payload [] vs = Unit
  Holds payload (f ∷ fs) [] = Unit
  Holds payload (f ∷ fs) (v ∷ vs) = (lookup f.name payload ≡ some (encoded v)) × Holds payload fs vs

  skip-Holds :
      (name : String) (j : Json) (payload : List (String × Json)) (fs : List Field)
      (vs : List Value)
      → All (λ f. text_eq name f.name ≡ false) fs
      → Holds payload fs vs
      → Holds ((name, j) ∷ payload) fs vs
  skip-Holds name j payload [] vs other h = tt
  skip-Holds name j payload (f ∷ fs) [] other h = tt
  skip-Holds name j payload (f ∷ fs) (v ∷ vs) other h =
      (rw other.0 h.0, skip-Holds name j payload fs vs other.1 h.1)

  payload-Holds :
      (fs : List Field) (vs : List Value)
      → AreDistinct fs
      → Holds (payload_of str parse_uuid isoformat fromisoformat fs vs) fs vs
  payload-Holds [] vs d = tt
  payload-Holds (f ∷ fs) [] d = tt
  payload-Holds (f ∷ fs) (v ∷ vs) d = (
    rw (eq_refl f.name) refl,
    skip-Holds f.name (encoded v) _ fs vs d.0 (payload-Holds fs vs d.1),
  )

  decode_fields-Holds :
      (payload : List (String × Json)) (fs : List Field) (vs : List Value)
      → AreTyped fs vs
      → Holds payload fs vs
      → decode_fields str parse_uuid isoformat fromisoformat fs payload ≡ ok vs
  unfolding decode_fields payload_value
  decode_fields-Holds payload [] [] no_fields h = refl
  decode_fields-Holds payload [] (v ∷ vs) typed h = elim typed [ ]
  decode_fields-Holds payload (f ∷ fs) [] typed h = elim typed [ ]
  decode_fields-Holds payload (f ∷ fs) (v ∷ vs) (one_more typed rest) h =
      rw (h.0, decode-encode f.type v typed, decode_fields-Holds payload fs vs rest h.1) refl

  -- An event of a registered class, whose fields have distinct names and hold values of their types, is read
  -- back from its serialization, for UUIDs and datetimes that are read back from their texts.
  pub deserialize-serialize :
      (registry : EventTypeRegistry) (e : DomainEvent)
      → resolve registry e.class.name ≡ ok e.class
      → AreDistinct e.class.fields
      → AreTyped e.class.fields e.values
      → let (event_type, payload) = serialize_event str parse_uuid isoformat fromisoformat e in
        deserialize_event str parse_uuid isoformat fromisoformat registry event_type payload ≡ ok e
  unfolding deserialize_event serialize_event
  deserialize-serialize registry e known distinct typed =
      rw
        (
          known,
          decode_fields-Holds _ e.class.fields e.values typed
              (payload-Holds e.class.fields e.values distinct),
        )
        refl

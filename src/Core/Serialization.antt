-- ===== src/Core/Serialization.antt =====
-- app/core/db/outbox/serialization.py: the registry of event types, and events as JSON payloads. Classes
-- are compared by an identifier. The texts of UUIDs and of datetimes, and their parsers, are parameters.
pub mod RoundTrip
pub mod Merged
use boat_backend.Prelude.{
  ℕ, String, Bool, true, false, not, ◌&&◌, ◌||◌, List, [], ◌∷◌, ◌++◌, map, Option, none, some, ◌==◌,
  text_eq, is_some, if◌then◌else◌,
}
use boat_backend.Prelude.Int.{ℤ}
use boat_backend.Core.Errors.{
  Result, ok, err, ◌>>=◌, value_error, key_error, unregistered_event_type, conflicting_event_type,
}

pub data Json : Type 0 where
  json_null : Json
  json_text : String → Json
  json_number : ℤ → Json
  json_bool : Bool → Json

-- The types of fields that are decoded, `X | None` as X; an enum by the values of its members.
pub data FieldType : Type 0 where
  uuid_type datetime_type plain_type : FieldType
  enum_type : List String → FieldType

pub data Value : Type 0 where
  none_value : Value
  uuid_value datetime_value : ℕ → Value
  enum_value : String → Value
  plain_value : Json → Value

pub record Field : Type 0 where
  pub name : String
  pub type : FieldType
  -- `default`, or the answer of `default_factory`
  pub default : Option Json

pub record EventClass : Type 0 where
  pub id : ℕ
  pub name : String
  pub fields : List Field

-- An event of a class, with the values of its fields in order.
pub record DomainEvent : Type 0 where
  pub class : EventClass
  pub values : List Value

-- `EventTypeRegistry._types`
abbrev pub EventTypeRegistry : Type 0
EventTypeRegistry = List (String × EventClass)

abbrev pub lookup : {A : Type 0} → String → List (String × A) → Option A
lookup name [] = none
lookup name ((n, a) ∷ rest) =
    let found = lookup name rest in if text_eq n name then some a else found

-- `self._types[name] = event_class`
unfoldable pub assign : String → EventClass → EventTypeRegistry → EventTypeRegistry
assign name c [] = (name, c) ∷ []
assign name c ((n, d) ∷ rest) =
    let changed = assign name c rest in if text_eq n name then (n, c) ∷ rest else (n, d) ∷ changed

-- `EventTypeRegistry.register`
unfoldable pub register : EventClass → EventTypeRegistry → EventTypeRegistry
unfolding assign
register c registry = assign c.name c registry

abbrev pub is_other : Option EventClass → EventClass → Bool
is_other none c = false
is_other (some d) c = not (d.id == c.id)

-- `EventTypeRegistry.merge`
unfoldable pub merge : EventTypeRegistry → EventTypeRegistry → Result EventTypeRegistry
merge types [] = ok types
merge types ((name, c) ∷ others) =
    let merged = merge (assign name c types) others in
    if is_other (lookup name types) c then err conflicting_event_type else merged

-- `EventTypeRegistry.resolve`
unfoldable pub resolve : EventTypeRegistry → String → Result EventClass
resolve types event_type = elim (lookup event_type types) [
  | none ↦ err unregistered_event_type
  | some c ↦ ok c
]

abbrev pub is_member : String → List String → Bool
is_member v [] = false
is_member v (x ∷ xs) = text_eq x v || is_member v xs

abbrev parsed : (ℕ → Value) → Option ℕ → Result Value
parsed make none = err value_error
parsed make (some n) = ok (make n)

module _ (str : ℕ → String) (parse_uuid : String → Option ℕ) (isoformat : ℕ → String)
    (fromisoformat : String → Option ℕ) where
  -- `_encode_value`
  unfoldable pub encode_value : Value → Json
  encode_value none_value = json_null
  encode_value (uuid_value n) = json_text (str n)
  encode_value (datetime_value n) = json_text (isoformat n)
  encode_value (enum_value v) = json_text v
  encode_value (plain_value j) = j

  -- `_decode_value`
  unfoldable pub decode_value : FieldType → Json → Result Value
  decode_value type json_null = ok none_value
  decode_value uuid_type (json_text v) = parsed uuid_value (parse_uuid v)
  decode_value datetime_type (json_text v) = parsed datetime_value (fromisoformat v)
  decode_value (enum_type members) (json_text v) =
      if is_member v members then ok (enum_value v) else err value_error
  decode_value plain_type j = ok (plain_value j)
  decode_value type j = err value_error

  abbrev pub payload_of : List Field → List Value → List (String × Json)
  payload_of [] vs = []
  payload_of (f ∷ fs) [] = []
  payload_of (f ∷ fs) (v ∷ vs) = (f.name, encode_value v) ∷ payload_of fs vs

  -- `serialize_event`
  unfoldable pub serialize_event : DomainEvent → String × List (String × Json)
  serialize_event e = (e.class.name, payload_of e.class.fields e.values)

  abbrev pub or_default : Option Json → Option Json → Result Json
  or_default (some j) d = ok j
  or_default none (some j) = ok j
  or_default none none = err key_error

  -- `_payload_value`
  unfoldable pub payload_value : Field → List (String × Json) → Result Json
  payload_value f payload = or_default (lookup f.name payload) f.default

  unfoldable pub decode_fields : List Field → List (String × Json) → Result (List Value)
  decode_fields [] payload = ok []
  decode_fields (f ∷ fs) payload = do
    j ← payload_value f payload
    v ← decode_value f.type j
    vs ← decode_fields fs payload
    ok (v ∷ vs)

  -- `deserialize_event`
  unfoldable pub deserialize_event :
      EventTypeRegistry → String → List (String × Json) → Result DomainEvent
  deserialize_event registry event_type payload = do
    c ← resolve registry event_type
    values ← decode_fields c.fields payload
    ok (record { class = c; values = values })

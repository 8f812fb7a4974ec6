-- ===== src/Tests/Serialization.antt =====
-- The theorems on app/core/db/outbox/serialization.py at an event with a field of each type. The texts of
-- UUIDs and datetimes are read back by a parser of this file.
mod Texts
use Prim.Native.String.{count}
use boat_backend.Prelude.{ℕ, ◌≡◌, refl, String, true, false, List, [], ◌∷◌, none, some, Option}
use boat_backend.Prelude.Int.{pos}
use boat_backend.Core.Errors.{ok}
use boat_backend.Core.Serialization.{
  EventClass, Field, DomainEvent, EventTypeRegistry, uuid_type, plain_type, enum_type, none_value,
  enum_value, plain_value, json_number, resolve, merge, assign, serialize_event, deserialize_event,
}
use boat_backend.Core.Serialization.RoundTrip.{
  AreDistinct, AreTyped, HasType.missing, HasType.enum_typed, HasType.plain_typed,
  AreTyped.no_fields, AreTyped.one_more, deserialize-serialize,
}
use boat_backend.Core.Serialization.Merged.{Resolves, merge-Resolves}
use boat_backend.Tests.Serialization.Texts.{str, parse, parse-str}

abbrev credit_used : EventClass
credit_used = record {
  id = 1;
  name = "CreditUsed";
  fields =
      record { name = "user_id"; type = uuid_type; default = none }
      ∷ record { name = "reason"; type = enum_type ("ocr_usage" ∷ []); default = none }
      ∷ record { name = "amount"; type = plain_type; default = none }
      ∷ [];
}

abbrev event : DomainEvent
event = record {
  class = credit_used;
  values = none_value ∷ enum_value "ocr_usage" ∷ plain_value (json_number (pos 1)) ∷ [];
}

abbrev registry : EventTypeRegistry
registry = ("CreditUsed", credit_used) ∷ []

registered : resolve registry "CreditUsed" ≡ ok credit_used
unfolding resolve
registered = refl

distinct : AreDistinct credit_used.fields
distinct = ((refl, (refl, tt)), ((refl, tt), (tt, tt)))

typed : AreTyped credit_used.fields event.values
typed = one_more (missing uuid_type) (
    one_more (enum_typed ("ocr_usage" ∷ []) "ocr_usage" refl)
      (one_more (plain_typed (json_number (pos 1)) refl) no_fields))

deserialize-serialize_example :
    let (event_type, payload) = serialize_event str parse str parse event in
    deserialize_event str parse str parse registry event_type payload ≡ ok event
deserialize-serialize_example =
    deserialize-serialize str parse str parse parse-str parse-str registry event registered distinct
      typed

abbrev other : EventClass
other = record { id = 2; name = "Other"; fields = [] }

merged :
    merge registry (("Other", other) ∷ [])
    ≡ ok (("CreditUsed", credit_used) ∷ ("Other", other) ∷ [])
unfolding merge assign
merged = refl

-- ===== src/BinaryProtocol.antt =====
-- src/websocket/binary_protocol.cpp: the binary frames of the WebSocket server, in big-endian order.
-- A buffer is the list of its bytes; a deserializer is the list of the bytes from its position on;
-- "Insufficient data in buffer" is `truncated` and "Unsupported data type" is `unknown_tag`.
-- MessageType, DataType and OperationType are enums over a byte, into which any byte is cast: the
-- model has the byte. A number is its bits: an int64_t is modulo 2^64, a double its 64 bits.
pub mod RoundTrip
mod Tests
use origindb.Prelude.{
  ℕ, zero, suc, ◌+◌, ◌-◌, ◌*◌, ◌/◌, ◌%◌, ◌^◌, Bool, true, false, not, ◌&&◌, Option, none, some,
  Text, Assoc, insert_sorted, List, [], ◌∷◌, ◌++◌, length, ltb, ◌==◌, if◌then◌else◌, ascii, text_eq,
}
use origindb.Document.{Kind, json_integer, json_floating, json_string, json_boolean, JsonLibrary}
use origindb.Codec.{
  Error, truncated, unknown_tag, Result, ok, err, Reader, bind, pure, raise, ◌>>=◌, need_take,
}

abbrev pub magic_byte_1 : ℕ
magic_byte_1 = 219

abbrev pub magic_byte_2 : ℕ
magic_byte_2 = 1

-- The values of MessageType that the frames below carry.
abbrev pub welcome_type : ℕ
welcome_type = 1

abbrev pub ping_type : ℕ
ping_type = 2

abbrev pub pong_type : ℕ
pong_type = 3

abbrev pub error_type : ℕ
error_type = 4

abbrev pub changefeed_event_type : ℕ
changefeed_event_type = 32

unfoldable pub write_uint8 : ℕ → Text
write_uint8 v = v % 256 ∷ []

unfoldable pub write_uint32 : ℕ → Text
write_uint32 v = v / 2 ^ 24 % 256 ∷ v / 2 ^ 16 % 256 ∷ v / 2 ^ 8 % 256 ∷ v % 256 ∷ []

-- `for (i = 7; i >= 0; i--)`: the rounds that are left are `i + 1`.
unfoldable pub write_uint64_loop : ℕ → ℕ → Text
write_uint64_loop zero v = []
write_uint64_loop (suc i) v = v / 2 ^ (i * 8) % 256 ∷ write_uint64_loop i v

unfoldable pub write_uint64 : ℕ → Text
write_uint64 v = write_uint64_loop 8 v

unfoldable pub write_string : Text → Text
write_string s = write_uint32 (length s % 2 ^ 32) ++ s

unfoldable pub write_message_header : ℕ → ℕ → ℕ → Text
write_message_header type payload_size flags =
    write_uint8 magic_byte_1
    ++ (write_uint8 magic_byte_2
        ++ (write_uint8 type ++ (write_uint8 flags ++ write_uint32 payload_size)))

-- The variant of an event's field, with the DataType that it is written as.
pub data FieldValue : Type 0 where
  int64 double : ℕ → FieldValue
  string : Text → FieldValue
  bool : Bool → FieldValue

unfoldable pub write_field_value : FieldValue → Text
write_field_value (int64 v) = write_uint8 5 ++ write_uint64 v
write_field_value (double v) = write_uint8 7 ++ write_uint64 v
write_field_value (string s) = write_uint8 8 ++ write_string s
write_field_value (bool b) = write_uint8 1 ++ write_uint8 (if b then 1 else 0)

-- The fields are a std::map.
unfoldable pub write_fields : Assoc FieldValue → Text
write_fields [] = []
write_fields ((name, value) ∷ fields) =
    write_string name ++ (write_field_value value ++ write_fields fields)

pub record BinaryEvent : Type 0 where
  pub table : Text
  pub operation : ℕ
  pub key : Text
  pub fields : Assoc FieldValue

unfoldable pub write_changefeed_event : BinaryEvent → Text
write_changefeed_event event =
    write_string event.table
    ++ (write_uint8 event.operation
        ++ (write_string event.key
            ++ (write_uint32 (length event.fields % 2 ^ 32) ++ write_fields event.fields)))

unfoldable pub read_uint8 : Reader ℕ
read_uint8 [] = err truncated
read_uint8 (b ∷ rest) = ok (b, rest)

unfoldable pub read_uint32 : Reader ℕ
read_uint32 (a ∷ b ∷ c ∷ d ∷ rest) = ok (a * 2 ^ 24 + b * 2 ^ 16 + c * 2 ^ 8 + d, rest)
read_uint32 _ = err truncated

-- `value = (value << 8) | data_[position_ + i]`, eight times.
unfoldable pub read_uint64 : Reader ℕ
read_uint64 (a ∷ b ∷ c ∷ d ∷ e ∷ f ∷ g ∷ h ∷ rest) = ok (
  ((((((a * 2 ^ 8 + b) * 2 ^ 8 + c) * 2 ^ 8 + d) * 2 ^ 8 + e) * 2 ^ 8 + f) * 2 ^ 8 + g) * 2 ^ 8 + h,
  rest,
)
read_uint64 _ = err truncated

unfoldable pub read_string : Reader Text
read_string = do n ← read_uint32; need_take n

pub record BinaryMessageHeader : Type 0 where
  pub magic_1 : ℕ
  pub magic_2 : ℕ
  pub type : ℕ
  pub flags : ℕ
  pub payload_size : ℕ

unfoldable pub read_message_header : Reader BinaryMessageHeader
read_message_header = do
  magic_1 ← read_uint8
  magic_2 ← read_uint8
  type ← read_uint8
  flags ← read_uint8
  payload_size ← read_uint32
  pure (record {
    magic_1 = magic_1;
    magic_2 = magic_2;
    type = type;
    flags = flags;
    payload_size = payload_size;
  })

-- The switch over the field's DataType.
unfoldable pub read_field_value : ℕ → Reader FieldValue
read_field_value type =
    if type == 5
    then (do v ← read_uint64; pure (int64 v))
    else if type == 7
    then (do v ← read_uint64; pure (double v))
    else if type == 8
    then (do s ← read_string; pure (string s))
    else if type == 1
    then (do b ← read_uint8; pure (bool (not (b == 0))))
    else raise unknown_tag

unfoldable pub read_typed_value : Reader FieldValue
read_typed_value = do type ← read_uint8; read_field_value type

-- `for (i = 0; i < field_count; i++)`, over the rounds that are left.
unfoldable pub read_fields : ℕ → Assoc FieldValue → Reader (Assoc FieldValue)
read_fields zero fields = pure fields
read_fields (suc n) fields = do
  name ← read_string
  value ← read_typed_value
  read_fields n (insert_sorted name value fields)

unfoldable pub read_changefeed_event : Reader BinaryEvent
read_changefeed_event = do
  table ← read_string
  operation ← read_uint8
  key ← read_string
  field_count ← read_uint32
  fields ← read_fields field_count []
  pure (record { table = table; operation = operation; key = key; fields = fields })

-- A header before its payload, as each Create function and ChangefeedEventToBinary write it.
unfoldable pub framed : ℕ → Text → Text
framed type payload = write_message_header type (length payload % 2 ^ 32) 0 ++ payload

-- The operation's texts are lower case.
unfoldable pub operation_type : Text → ℕ
operation_type operation =
    if text_eq operation (ascii "insert")
    then 1
    else if text_eq operation (ascii "update")
    then 2
    else if text_eq operation (ascii "delete")
    then 3
    else 4

-- What the data map takes of a JSON value: nothing of null, an array, an object or a binary value.
unfoldable pub field_of_kind : Kind → Option FieldValue
field_of_kind (json_integer v) = some (int64 v)
field_of_kind (json_floating v) = some (double v)
field_of_kind (json_string v) = some (string v)
field_of_kind (json_boolean v) = some (bool v)
field_of_kind _ = none

abbrev pub with_field : Text → Option FieldValue → Assoc FieldValue → Assoc FieldValue
with_field name none fields = fields
with_field name (some v) fields = insert_sorted name v fields

module _ {J : Type 0} (json : JsonLibrary J) where
  -- The loop that builds the data map.
  unfoldable pub fields_of_items : Assoc J → Assoc FieldValue → Assoc FieldValue
  unfolding field_of_kind
  fields_of_items [] fields = fields
  fields_of_items ((name, v) ∷ items) fields =
      fields_of_items items (with_field name (field_of_kind (json.kind v)) fields)

  abbrev pub converted_event : Text → Text → Text → J → BinaryEvent
  unfolding fields_of_items operation_type
  converted_event table operation key j = record {
    table = table;
    operation = operation_type operation;
    key = key;
    fields = fields_of_items (json.members j) [];
  }

  -- ChangefeedEventToBinary; `none` is the exception of the JSON parser.
  unfoldable pub changefeed_event_to_binary : Text → Text → Text → Text → Text → Option Text
  unfolding converted_event
  changefeed_event_to_binary subscription_id table operation key json_data =
      elim (json.parse json_data) [
        | none ↦ none
        | some j ↦ some (
            framed changefeed_event_type (
              write_string subscription_id
              ++ write_changefeed_event (converted_event table operation key j)))
      ]

-- BinaryToJsonChangefeedEvent up to the JSON that it prints: the subscription and the event. What
-- is not a changefeed event is refused.
unfoldable pub read_event_body : Reader (Text × BinaryEvent)
read_event_body = do
  subscription_id ← read_string
  event ← read_changefeed_event
  pure {A = Text × BinaryEvent} (subscription_id, event)

unfoldable pub message_of : Result ((Text × BinaryEvent) × Text) → Option (Text × BinaryEvent)
message_of (err e) = none
message_of (ok (message, rest)) = some message

unfoldable pub event_after : Result (BinaryMessageHeader × Text) → Option (Text × BinaryEvent)
event_after (err e) = none
event_after (ok (header, payload)) =
    if header.type == changefeed_event_type then message_of (read_event_body payload) else none

unfoldable pub read_event_message : Text → Option (Text × BinaryEvent)
read_event_message data' = event_after (read_message_header data')

unfoldable pub create_binary_welcome_message : Text → Text → Text
create_binary_welcome_message client_id server_version = framed welcome_type (
    write_string client_id
    ++ (write_string server_version
        ++ (write_uint32 3
            ++ (write_string (ascii "changefeed")
                ++ (write_string (ascii "wasm_subscriptions")
                    ++ write_string (ascii "binary_protocol"))))))

unfoldable pub create_binary_error_message : ℕ → Text → Text
create_binary_error_message error_code error_message =
    framed error_type (write_uint32 error_code ++ write_string error_message)

unfoldable pub create_binary_ping_message : ℕ → Text
create_binary_ping_message timestamp = framed ping_type (write_uint64 timestamp)

unfoldable pub create_binary_pong_message : ℕ → Text
create_binary_pong_message timestamp = framed pong_type (write_uint64 timestamp)

unfoldable pub is_binary_protocol : Text → Bool
is_binary_protocol (a ∷ b ∷ rest) = a == magic_byte_1 && b == magic_byte_2
is_binary_protocol _ = false

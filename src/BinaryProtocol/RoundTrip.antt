-- ===== src/BinaryProtocol/RoundTrip.antt =====
-- What src/websocket/binary_protocol.cpp writes, it reads back.
use origindb.Prelude.{
  ℕ, ◌%◌, ◌^◌, ◌<◌, ◌≡◌, refl, ◌∙◌, true, false, Option, none, some, Text, Assoc, insert_sorted,
  text_eq_iff, text_ltb, text_ltb_trans, text_ltb_irrefl, IsSorted, IsAbove, [], ◌∷◌, ◌++◌,
  append_assoc, append-nil, length, arith,
}
use origindb.Document.{JsonLibrary}
use origindb.Codec.Laws.{Reads, need_take-append}
use origindb.BinaryProtocol.{
  FieldValue, int64, double, string, bool, write_uint8, write_uint32, write_uint64,
  write_uint64_loop, write_string, write_field_value, write_fields, write_changefeed_event,
  read_typed_value, read_uint8, read_uint32, read_uint64, read_string, read_field_value,
  read_fields, read_changefeed_event, BinaryEvent, BinaryMessageHeader, field_of_kind, magic_byte_1,
  magic_byte_2,
}

read_uint32-write_uint32 : (v : ℕ) → v < 2 ^ 32 → Reads read_uint32 (write_uint32 v) v
unfolding read_uint32 write_uint32
read_uint32-write_uint32 v h rest = ground arith

read_uint32-write_count : (n : ℕ) → n < 2 ^ 32 → Reads read_uint32 (write_uint32 (n % 2 ^ 32)) n
read_uint32-write_count n h rest = rw small (read_uint32-write_uint32 n h rest)
  where
    small : n % 2 ^ 32 ≡ n
    small = omega arith

read_uint64-write_uint64 : (v : ℕ) → v < 2 ^ 64 → Reads read_uint64 (write_uint64 v) v
unfolding read_uint64 write_uint64 write_uint64_loop
read_uint64-write_uint64 v h rest = ground arith

read_string-write_string : (s : Text) → length s < 2 ^ 32 → Reads read_string (write_string s) s
unfolding read_string write_string
read_string-write_string s h rest =
    simp (append_assoc, read_uint32-write_count (length s) h) (need_take-append s rest)

abbrev pub Fits : Text → Type 0
Fits s = length s < 2 ^ 32

abbrev pub IsFieldValue : FieldValue → Type 0
IsFieldValue (int64 v) = v < 2 ^ 64
IsFieldValue (double v) = v < 2 ^ 64
IsFieldValue (string s) = Fits s
IsFieldValue (bool b) = Unit {0}

abbrev pub AreFields : Assoc FieldValue → Type 0
AreFields [] = Unit {0}
AreFields ((name, value) ∷ fields) = Fits name × IsFieldValue value × AreFields fields

read_typed_value-write_field_value :
    (v : FieldValue) → IsFieldValue v → Reads read_typed_value (write_field_value v) v
unfolding read_typed_value write_field_value read_field_value write_uint8 read_uint8
read_typed_value-write_field_value (int64 v) h rest = rw (read_uint64-write_uint64 v h)
read_typed_value-write_field_value (double v) h rest = rw (read_uint64-write_uint64 v h)
read_typed_value-write_field_value (string s) h rest = rw (read_string-write_string s h)
read_typed_value-write_field_value (bool true) h rest = refl
read_typed_value-write_field_value (bool false) h rest = refl

-- Every key is below a name.
abbrev Below : Text → Assoc FieldValue → Type 0
Below name [] = Unit {0}
Below name ((k, v) ∷ fields) = (text_ltb k name ≡ true) × Below name fields

insert_sorted-last :
    (name : Text) (value : FieldValue) (done : Assoc FieldValue)
    → Below name done
    → insert_sorted name value done ≡ done ++ (name, value) ∷ []
unfolding insert_sorted
insert_sorted-last name value [] h = refl
insert_sorted-last name value ((k, v) ∷ done) (b, h) = ground (
  arith,
  insert_sorted-last name value done h,
  text_eq_iff k name,
  text_ltb_irrefl name,
  text_ltb_irrefl k,
  text_ltb_trans k name k,
)

Below-snoc :
    (name k : Text) (v : FieldValue) (done : Assoc FieldValue)
    → Below k done
    → text_ltb k name ≡ true
    → Below name (done ++ (k, v) ∷ [])
Below-snoc name k v [] h l = (l, tt)
Below-snoc name k v ((j, w) ∷ done) (b, h) l =
    (text_ltb_trans j k name b l, Below-snoc name k v done h l)

-- The first name that is left, if any, is above those that are done.
abbrev Next : Assoc FieldValue → Assoc FieldValue → Type 0
Next done [] = Unit {0}
Next done ((name, value) ∷ fields) = Below name done × IsAbove name fields

Next-step :
    (done : Assoc FieldValue) (name : Text) (value : FieldValue) (fields : Assoc FieldValue)
    → Below name done
    → IsAbove name fields
    → Next (done ++ (name, value) ∷ []) fields
Next-step done name value [] b h = tt
Next-step done name value ((k, v) ∷ fields) b (l, h) = (Below-snoc k name value done b l, h)

read_fields-write_fields :
    (fields done : Assoc FieldValue)
    → AreFields fields
    → Next done fields
    → Reads (read_fields (length fields) done) (write_fields fields) (done ++ fields)
unfolding read_fields write_fields
read_fields-write_fields [] done h n rest = rw append-nil
read_fields-write_fields ((name, value) ∷ fields) done (fits, hv, hf) (b, a) rest =
    simp
      (
        append_assoc,
        read_string-write_string name fits,
        read_typed_value-write_field_value value hv,
      )
      (rw (insert_sorted-last name value done b) (
        read_fields-write_fields fields (done ++ (name, value) ∷ []) hf
          (Next-step done name value fields b a) rest
        ∙ rw append_assoc))

-- An event whose parts the C++ types and the length prefixes can hold, and whose fields a std::map
-- can.
pub record IsEvent (event : BinaryEvent) : Type 0 where
  pub table : Fits event.table
  pub operation : event.operation < 256
  pub key : Fits event.key
  pub count : length event.fields < 2 ^ 32
  pub fields : AreFields event.fields
  pub sorted : IsSorted event.fields

first-Next : (fields : Assoc FieldValue) → IsSorted fields → Next [] fields
first-Next [] h = tt
first-Next ((k, v) ∷ fields) h = (tt, h)

read_uint8-write_uint8 : (v : ℕ) → v < 256 → Reads read_uint8 (write_uint8 v) v
unfolding read_uint8 write_uint8
read_uint8-write_uint8 v h rest = ground arith

-- A changefeed event reads back as it was written, and what follows it is left, where its parts
-- fit their types and length prefixes and its fields ascend by name as those of a std::map do.
pub read_changefeed_event-write_changefeed_event :
    (event : BinaryEvent)
    → IsEvent event
    → Reads read_changefeed_event (write_changefeed_event event) event
unfolding read_changefeed_event write_changefeed_event
read_changefeed_event-write_changefeed_event event h rest = simp (
  append_assoc,
  read_string-write_string event.table h.table,
  read_uint8-write_uint8 event.operation h.operation,
  read_string-write_string event.key h.key,
  read_uint32-write_count (length event.fields) h.count,
  read_fields-write_fields event.fields [] h.fields (first-Next event.fields h.sorted),
)

header_of : ℕ → Text → BinaryMessageHeader
header_of type payload = record {
  magic_1 = magic_byte_1;
  magic_2 = magic_byte_2;
  type = type;
  flags = 0;
  payload_size = length payload;
}

module _ {J : Type 0} (json : JsonLibrary J) where
  -- The field that a JSON value, if there is one, becomes.
  abbrev pub field_of : Option J → Option FieldValue
  field_of none = none
  field_of (some j) = field_of_kind (json.kind j)

  abbrev or_there : Option FieldValue → Option FieldValue → Option FieldValue
  or_there none old = old
  or_there (some v) old = some v

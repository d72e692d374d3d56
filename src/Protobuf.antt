-- ===== src/Protobuf.antt =====
-- src/thingsboard_messages_protobuf.c: the attribute macros, and encoding with nanopb, which comes
-- in through `Env`. The field list is that of thingsboard.proto and thingsboard.options.in.
pub mod Laws
pub mod Entries
use thingsboard_sdk.Base.{
  ℕ, ◌+◌, ◌-◌, ◌^◌, ◌%◌, Bool, Option, none, some, List, [], ◌∷◌, ◌++◌, Bytes, ascii, bytes_eq,
  length, take, leb, ltb, if◌then◌else◌, ◌&&◌, ◌||◌,
}
use thingsboard_sdk.Types.{Result, ok, err, efault, Attributes, Telemetry, Timeseries, Kconfig}
use thingsboard_sdk.Platform.{Env, KeyValue, long_v, string_v, other_v, TsKv}

-- strncpy into an array of `max` bytes, whose last byte is then set to NUL.
abbrev pub copy_string : ℕ → Bytes → Bytes
copy_string max s = take (max - 1) s

-- UPDATE_ATTR_FIELDS for one optional field: the new value, and whether it was updated.
abbrev pub update_field {ℓ} : {A : Type ℓ} → (A → A) → Option A → Option A → Option A
update_field copy none current = current
update_field copy (some new) current = some (copy new)

abbrev pub is_set {ℓ} : {A : Type ℓ} → Option A → ℕ
is_set none = 0
is_set (some _) = 1

-- thingsboard_attributes_update
unfoldable pub attributes_update : Kconfig → Attributes → Attributes → ℕ × Attributes
attributes_update k changes current =
    let copy = copy_string k.max_strings_length in
    (
      is_set changes.fw_title + is_set changes.fw_version + is_set changes.fw_size,
      record {
        fw_title = update_field copy changes.fw_title current.fw_title;
        fw_version = update_field copy changes.fw_version current.fw_version;
        fw_size = update_field (λ n. n) changes.fw_size current.fw_size;
      },
    )

-- The types for which the source has a DECODE_ATTR_FIELD macro of a number.
pub data NumberType : Type 0 where
  uint32 int32 sint32 uint64 int64 sint64 : NumberType

-- Whether the int64 of this bit pattern is negative.
abbrev pub is_negative : ℕ → Bool
is_negative n = leb (2 ^ 63) n

-- A cast to a 32-bit type keeps the low 32 bits.
abbrev pub int32_of : ℕ → Option ℕ
int32_of n =
    if (is_negative n && ltb n (2 ^ 64 - 2 ^ 31)) || (ltb n (2 ^ 63) && leb (2 ^ 31) n)
    then none
    else some (n % 2 ^ 32)

decode_long : NumberType → ℕ → Option ℕ
decode_long uint32 n = if is_negative n || leb (2 ^ 32) n then none else some (n % 2 ^ 32)
decode_long int32 n = int32_of n
decode_long sint32 n = int32_of n
decode_long uint64 n = if is_negative n then none else some n
decode_long int64 n = some n
decode_long sint64 n = some n

-- DECODE_ATTR_FIELD_UINT32 and the other number macros: `none` where they return false.
unfoldable pub decode_number : NumberType → KeyValue → Option ℕ
unfolding decode_long
decode_number t (long_v n) = decode_long t n
decode_number t (string_v s) = none
decode_number t other_v = none

-- DECODE_ATTR_FIELD_STRING
unfoldable pub decode_string : Kconfig → KeyValue → Option Bytes
decode_string k (string_v s) = some (copy_string k.max_strings_length s)
decode_string k (long_v n) = none
decode_string k other_v = none

-- attribute_decode_cb for one entry of `sharedUpdated`: `none` where it returns false.
unfoldable pub attribute_decode : Kconfig → Option (Option TsKv) → Attributes → Option Attributes
unfolding decode_string decode_number
attribute_decode k none v = none
attribute_decode k (some none) v = some v
attribute_decode k (some (some tkp)) v =
    if bytes_eq tkp.key (ascii "fw_title")
    then elim (decode_string k tkp.kv) [
      | none ↦ none
      | some s ↦ some (record v { fw_title = some s })
    ]
    else if bytes_eq tkp.key (ascii "fw_version")
    then elim (decode_string k tkp.kv) [
      | none ↦ none
      | some s ↦ some (record v { fw_version = some s })
    ]
    else if bytes_eq tkp.key (ascii "fw_size")
    then elim (decode_number uint32 tkp.kv) [
      | none ↦ none
      | some n ↦ some (record v { fw_size = some n })
    ]
    else some v

abbrev bind_attributes : Option Attributes → (Attributes → Option Attributes) → Option Attributes
bind_attributes none f = none
bind_attributes (some v) f = f v

-- The callback, called for each entry in turn.
unfoldable pub attributes_decode_all :
    Kconfig → List (Option (Option TsKv)) → Attributes → Option Attributes
attributes_decode_all k [] v = some v
attributes_decode_all k (t ∷ ts) v =
    bind_attributes (attribute_decode k t v) (attributes_decode_all k ts)

abbrev pub no_attributes : Attributes
no_attributes = record { fw_title = none; fw_version = none; fw_size = none }

-- thingsboard_AttributeUpdateNotificationMsg_decode
unfoldable pub notification_decode : Env → Bytes → Result Attributes
unfolding attributes_decode_all
notification_decode e payload = elim (e.pb_decode_notification payload) [
  | none ↦ err efault
  | some entries ↦ elim (attributes_decode_all e.kconfig entries no_attributes) [
    | none ↦ err efault
    | some v ↦ ok v
  ]
]

-- thingsboard_attributes_decode
unfoldable pub attributes_decode : Env → Bytes → Result Attributes
attributes_decode e payload =
    if e.kconfig.attributes_workaround_default
    then notification_decode e payload
    else elim (e.pb_decode_attributes payload) [
      | some v ↦ ok v
      | none ↦ notification_decode e payload
    ]

-- thingsboard_rpc_response_decode
unfoldable pub rpc_response_decode : Env → Bytes → Result Bytes
rpc_response_decode e payload = elim (e.pb_decode_rpc_response payload) [
  | none ↦ err efault
  | some s ↦ ok s
]

-- thingsboard_rpc_request_encode
unfoldable pub rpc_request_encode : Env → Bytes → ℕ → Result Bytes
rpc_request_encode e method len = elim (e.pb_encode_rpc_request method len) [
  | none ↦ err efault
  | some s ↦ ok s
]

-- thingsboard_telemetry_encode
unfoldable pub telemetry_encode : Env → Telemetry → ℕ → Result Bytes
telemetry_encode e v len = elim (e.pb_encode_telemetry v len) [ none ↦ err efault | some s ↦ ok s ]

-- timeseries_encode_cb: the tag and the submessage of each entry, until the stream refuses one. It
-- counts the entries in `encoded`, the member of its context that the caller reads afterwards.
timeseries_encode_cb : Env → List Timeseries → Bytes → ℕ → ℕ → Option Bytes × ℕ
timeseries_encode_cb e [] out left encoded = (some out, encoded)
timeseries_encode_cb e (t ∷ ts) out left encoded = elim (e.pb_encode_timeseries_entry t left) [
  | none ↦ (none, encoded)
  | some s ↦ timeseries_encode_cb e ts (out ++ s) (left - length s) (encoded + 1)
]

-- thingsboard_timeseries_encode: the bytes and the new `*ts_count`, which is the callback's counter.
-- On failure the source sets `*len` and `*ts_count` as well, but its caller reads neither.
unfoldable pub timeseries_encode : Env → List Timeseries → ℕ → Result (Bytes × ℕ)
unfolding timeseries_encode_cb
timeseries_encode e ts len =
    let r = timeseries_encode_cb e ts [] len 0 in
    elim (r.0) [ none ↦ err efault | some s ↦ ok (s, r.1) ]

-- ===== src/Protobuf/Laws.antt =====
-- Laws of the Protobuf attributes.
use thingsboard_sdk.Base.{
  ℕ, ◌-◌, ◌^◌, ◌≡◌, refl, Bool, true, false, ◌||◌, ltb, leb, if◌then◌else◌, Option, none, some,
  List, [], ◌∷◌, ascii, bytes_eq, arith, Bool-cases, inl, inr,
}
use thingsboard_sdk.Types.{Attributes, Kconfig}
use thingsboard_sdk.Platform.{TsKv}
use thingsboard_sdk.Protobuf.{
  NumberType, uint32, int32, sint32, uint64, int64, sint64, attribute_decode, attributes_decode_all,
  bind_attributes,
}

-- Whether the int64 with this bit pattern is a value of the type.
abbrev pub is_in_range : NumberType → ℕ → Bool
is_in_range uint32 n = ltb n (2 ^ 32)
is_in_range int32 n = ltb n (2 ^ 31) || leb (2 ^ 64 - 2 ^ 31) n
is_in_range sint32 n = ltb n (2 ^ 31) || leb (2 ^ 64 - 2 ^ 31) n
is_in_range uint64 n = ltb n (2 ^ 63)
is_in_range int64 n = true
is_in_range sint64 n = true

abbrev pub width : NumberType → ℕ
width uint32 = 32
width int32 = 32
width sint32 = 32
width uint64 = 64
width int64 = 64
width sint64 = 64

-- Whether the callback does something for the entry: it cannot be decoded, or it has a value and its
-- key is one of the schema.
abbrev pub is_known : Option (Option TsKv) → Bool
is_known none = true
is_known (some none) = false
is_known (some (some t)) =
    bytes_eq t.key (ascii "fw_title")
    || bytes_eq t.key (ascii "fw_version")
    || bytes_eq t.key (ascii "fw_size")

abbrev pub known : List (Option (Option TsKv)) → List (Option (Option TsKv))
known [] = []
known (t ∷ ts) = if is_known t then t ∷ known ts else known ts

attribute_decode-unknown :
    (k : Kconfig) (t : Option (Option TsKv)) (v : Attributes)
    → is_known t ≡ false
    → attribute_decode k t v ≡ some v
unfolding attribute_decode
attribute_decode-unknown k none v h = ground arith
attribute_decode-unknown k (some none) v h = refl
attribute_decode-unknown k (some (some t)) v h = ground arith

bind-same :
    (k : Kconfig) (ts : List (Option (Option TsKv))) (o : Option Attributes)
    → ((v : Attributes) → attributes_decode_all k ts v ≡ attributes_decode_all k (known ts) v)
    → bind_attributes o (attributes_decode_all k ts)
      ≡ bind_attributes o (attributes_decode_all k (known ts))
bind-same k ts none h = refl
bind-same k ts (some v) h = h v

-- Entries that nanopb decodes, and that have no value or a key that is no attribute of the schema,
-- change nothing and make nothing fail: decoding the entries of a notification gives what decoding
-- the others gives.
pub attributes_decode_all-known :
    (k : Kconfig) (ts : List (Option (Option TsKv))) (v : Attributes)
    → attributes_decode_all k ts v ≡ attributes_decode_all k (known ts) v
unfolding attributes_decode_all
attributes_decode_all-known k [] v = refl
attributes_decode_all-known k (t ∷ ts) v = elim (Bool-cases (is_known t)) [
  | inl p ↦
      rw (p, attributes_decode_all)
        (bind-same k ts (attribute_decode k t v) (attributes_decode_all-known k ts))
  | inr p ↦
      rw (p, attribute_decode-unknown k t v p, attributes_decode_all)
        (attributes_decode_all-known k ts v)
]

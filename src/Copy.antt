-- ===== src/Copy.antt =====
-- copy/copy.go. The codecs of encoding/json, encoding/gob and the other libraries are parameters; a nil
-- interface is `none`. A target is what `dst` points to, which a decoder may change even if it fails.
pub mod Gob
pub mod Exclusive
mod Examples
use framego.Prelude.{ℕ, Option, none, some}
use framego.Prelude.Text.{Str, bytes}
use framego.Errors.{Cause, Error, new_error, wrap}

abbrev pub error_nil_pointer : Str
error_nil_pointer = bytes "src_or_dst_cannot_be_nil"

abbrev pub error_encoding : Str
error_encoding = bytes "encoding_failed_during_deep_copy"

abbrev pub error_decoding : Str
error_decoding = bytes "decoding_failed_during_deep_copy"

pub data Marshaled (B : Type 0) : Type 0 where
  bytes_of : B → Marshaled B
  marshal_error : Cause → Marshaled B

-- `Marshal` and `Unmarshal` of a library, with the target after and the error.
pub record Codec (B V D : Type 0) : Type 0 where
  pub marshal : V → Marshaled B
  pub unmarshal : B → D → D × Option Cause

abbrev pub decoded : {D : Type 0} → D × Option Cause → D × Option Error
decoded (dst, none) = (dst, none)
decoded (dst, some cause) = (dst, some (wrap cause error_decoding))

abbrev pub unmarshaled : {B V D : Type 0} → Codec B V D → D → Marshaled B → D × Option Error
unmarshaled codec dst (marshal_error cause) = (dst, some (wrap cause error_encoding))
unmarshaled codec dst (bytes_of encoded_bytes) = decoded (codec.unmarshal encoded_bytes dst)

-- The target after, unless it is nil, and the error.
abbrev pub copied : {D : Type 0} → D × Option Error → Option D × Option Error
copied (dst, e) = (some dst, e)

abbrev pub nil_pointer : {D : Type 0} → Option D → Option D × Option Error
nil_pointer dst = (dst, some (new_error error_nil_pointer))

module _ {B V D : Type 0} (codec : Codec B V D) where
  unfoldable pub json_deep_copy : Option D → Option V → Option D × Option Error
  unfolding new_error wrap
  json_deep_copy (some dst) (some src) = copied (unmarshaled codec dst (codec.marshal src))
  json_deep_copy dst _ = nil_pointer dst

  unfoldable pub msgpack_deep_copy : Option D → Option V → Option D × Option Error
  unfolding new_error wrap
  msgpack_deep_copy (some dst) (some src) = copied (unmarshaled codec dst (codec.marshal src))
  msgpack_deep_copy dst _ = nil_pointer dst

  unfoldable pub jsoniter_deep_copy : Option D → Option V → Option D × Option Error
  unfolding new_error wrap
  jsoniter_deep_copy (some dst) (some src) = copied (unmarshaled codec dst (codec.marshal src))
  jsoniter_deep_copy dst _ = nil_pointer dst

  unfoldable pub ffjson_deep_copy : Option D → Option V → Option D × Option Error
  unfolding new_error wrap
  ffjson_deep_copy (some dst) (some src) = copied (unmarshaled codec dst (codec.marshal src))
  ffjson_deep_copy dst _ = nil_pointer dst

  unfoldable pub shamaton_msgpack_deep_copy : Option D → Option V → Option D × Option Error
  unfolding new_error wrap
  shamaton_msgpack_deep_copy (some dst) (some src) =
      copied (unmarshaled codec dst (codec.marshal src))
  shamaton_msgpack_deep_copy dst _ = nil_pointer dst

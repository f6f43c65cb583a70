-- ===== src/Copy/Exclusive.antt =====
-- What GobDeepCopy promises: each copy has its codec for itself.
pub mod Kept
pub mod Steps
pub mod Whole
use framego.Prelude.{
  ℕ, zero, suc, ◌+◌, ◌<◌, ◌≡◌, ◌≢◌, ◌⊎◌, refl, sym, ap, ◌∙◌, subst, Bool, true, false, List, [],
  ◌∷◌, Option, none, some, ◌==◌, if◌then◌else◌, arith, Bool-cases, inl, inr,
}
use framego.Prelude.Assoc.{lookup, delete, insert, lookup-delete, lookup-insert}
use framego.Errors.{Cause, Error, new_error, wrap}
use framego.Pool.Methods.{PoolConn, Config, Pool, new_pool}
use framego.Pool.Get.{Got, waits, refused, reused, dial, get}
use framego.Pool.Get.Unlimited.{IsOther, AreGood, IsReady, IsGiven, get-IsGiven}
use framego.Pool.Get.Returned.{IsOther-outside, AreGood-map, IsPut, put-IsPut}
use framego.Pool.Conns.{Conns, Returned, panicked, put_done, register, put}
use framego.Copy.{error_nil_pointer, error_encoding, decoded}
use framego.Copy.Gob.{
  Gob, Encoding, is_encoded, fails, raises, gob_pool_config, Phase, out, fresh, encoded, Copier,
  Event, starts, encodes, decodes, Answer, goes_on, ends, ends_with, panics, set_at, new_copier,
  dialed, took, start_with, after_put, give_back, encoded_at, encode_in, ended, decoded_at,
  decode_in, exec,
}

abbrev pub expected_encode : {D : Type 0} → Encoding → Answer D
expected_encode is_encoded = goes_on
expected_encode (fails cause) = ends (some (wrap cause error_encoding))
expected_encode raises = panics

-- The copy did not end with an error or a panic of its codec.
abbrev pub HasSucceeded : {V D : Type 0} → Event V D → Answer D → Type 0
HasSucceeded (starts present now) answer = Unit {0}
HasSucceeded (encodes c src now) answer = answer ≡ goes_on
HasSucceeded {V} {D} (decodes c dst now) answer =
    (answer ≡ goes_on) ⊎ ((after : D) × (answer ≡ ends_with after none))

module _ {C V D : Type 0} where
  -- A codec that has done whole copies answers as a new one does.
  pub record IsGob (gob : Gob C V D) (IsClean : C → Type 0) : Type 0 where
    pub new_clean : IsClean gob.new_gob_codec
    pub encode_lem :
        (c : C) (src : V) → IsClean c → (gob.encode c src).1 ≡ (gob.encode gob.new_gob_codec src).1
    pub decode_lem :
        (c : C) (src : V) (dst : D)
        → IsClean c
        → (gob.encode c src).1 ≡ is_encoded
        → (gob.decode (gob.encode c src).0 dst).1
          ≡ (gob.decode (gob.encode gob.new_gob_codec src).0 dst).1
    pub copy_clean :
        (c : C) (src : V) (dst : D)
        → IsClean c
        → (gob.encode c src).1 ≡ is_encoded
        → (gob.decode (gob.encode c src).0 dst).1.1 ≡ none
        → IsClean (gob.decode (gob.encode c src).0 dst).0

  -- What a copy with a new codec of its own would say.
  abbrev pub encode_expected : Gob C V D → V → Phase V → Answer D
  encode_expected gob src fresh = expected_encode (gob.encode gob.new_gob_codec src).1
  encode_expected gob src _ = goes_on

  abbrev pub decode_expected : Gob C V D → D → Phase V → Answer D
  decode_expected gob dst (encoded src) =
      ended gob (decoded (gob.decode (gob.encode gob.new_gob_codec src).0 dst).1)
  decode_expected gob dst _ = goes_on

  abbrev pub expected : Gob C V D → (ℕ → Phase V) → Event V D → Answer D
  expected gob phase (starts false now) = ends (some (new_error error_nil_pointer))
  expected gob phase (starts true now) = goes_on
  expected gob phase (encodes c src now) = encode_expected gob src (phase c)
  expected gob phase (decodes c dst now) = decode_expected gob dst (phase c)

  -- Copiers that are reached without such an end.
  pub data Reached (gob : Gob C V D) : Copier C V → Type 0 where
    begun : Reached gob (new_copier gob)
    then_ :
        {st : Copier C V}
        → Reached gob st
        → (e : Event V D) → HasSucceeded e (exec gob e st).1
        → Reached gob (exec gob e st).0

-- ===== src/Copy/Exclusive/Whole.antt =====
-- A whole copy.
use framego.Prelude.{ℕ, ◌≡◌, refl, ap, ◌∙◌, true, Option, none, some, arith}
use framego.Errors.{new_error, wrap}
use framego.Pool.Get.{Got, waits, refused, reused, dial, get}
use framego.Pool.Get.Unlimited.{IsGiven, get-IsGiven}
use framego.Pool.Conns.{Conns}
use framego.Copy.{error_nil_pointer, error_encoding, decoded}
use framego.Copy.Gob.{
  Gob, Encoding, is_encoded, fails, raises, panics, gob_pool_config, Phase, out, fresh, encoded,
  Copier, starts, encodes, decodes, Answer, goes_on, ends, start_with, encoded_at, encode_in, ended,
  exec,
}
use framego.Copy.Exclusive.{
  IsGob, expected_encode, encode_expected, decode_expected, Reached, then_,
}
use framego.Copy.Exclusive.Kept.{set_at_same, IsFree, conns_of, clean_fresh}
use framego.Copy.Gob.{codec_of, go_on_if, and_then, deep_copy}
use framego.Copy.Exclusive.Steps.{exec-expected, Reached-Inv}

module _ {C V D : Type 0} (gob : Gob C V D) (IsClean : C → Type 0) where
  -- A source and a target that are there, with a new codec.
  abbrev pub copy_of : D → V → C × Encoding → Answer D
  copy_of dst src (codec, is_encoded) = ended gob (decoded (gob.decode codec dst).1)
  copy_of dst src (codec, fails cause) = ends (some (wrap cause error_encoding))
  copy_of dst src (codec, raises) = panics

  abbrev pub expected_copy : Option D → Option V → Answer D
  expected_copy (some dst) (some src) = copy_of dst src (gob.encode gob.new_gob_codec src)
  expected_copy dst _ = ends (some (new_error error_nil_pointer))

  start_with-phase :
      (st : Copier C V) (s : Conns) (now : ℕ) (g : Got)
      → IsGiven (IsFree gob IsClean st) gob_pool_config g
      → (start_with gob st s now g).0.phase (codec_of gob st g) ≡ fresh
  start_with-phase st s now waits given = absurd given
  start_with-phase st s now (refused p closes) given = absurd given
  start_with-phase st s now (reused p pc closes) given = set_at_same pc.c fresh st.phase
  start_with-phase st s now (dial p closes) given = set_at_same st.next fresh st.phase

  encoded_at-phase :
      (st : Copier C V) (c : ℕ) (src : V) (now : ℕ) (r : C × Encoding)
      → r.1 ≡ is_encoded
      → (encoded_at gob st c src now r).0.phase c ≡ encoded src
  encoded_at-phase st c src now (codec, is_encoded) e = set_at_same c (encoded src) st.phase
  encoded_at-phase st c src now (codec, fails cause) e = absurd (ground (e, arith))
  encoded_at-phase st c src now (codec, raises) e = absurd (ground (e, arith))

  encode_in-phase :
      (st : Copier C V) (c : ℕ) (src : V) (now : ℕ) (p : Phase V)
      → p ≡ fresh
      → (gob.encode (st.codecs c) src).1 ≡ is_encoded
      → (encode_in gob st c src now p).0.phase c ≡ encoded src
  encode_in-phase st c src now out e ok = absurd (ground (e, arith))
  encode_in-phase st c src now (encoded s) e ok = absurd (ground (e, arith))
  encode_in-phase st c src now fresh e ok =
      encoded_at-phase st c src now (gob.encode (st.codecs c) src) ok

  -- From where the codec is in hand.
  rest_of_copy :
      (st : Copier C V) (c : ℕ) (dst : D) (src : V) (now : ℕ) (r : C × Encoding)
      → IsGob gob IsClean
      → Reached gob st
      → st.phase c ≡ fresh
      → gob.encode gob.new_gob_codec src ≡ r
      → (and_then gob (exec gob (encodes c src now) st) (exec gob (decodes c dst now))).1
        ≡ copy_of dst src r
  unfolding exec
  rest_of_copy st c dst src now (codec, is_encoded) is_gob reached e r =
      let inv = Reached-Inv gob IsClean st is_gob reached in
      let same : (gob.encode (st.codecs c) src).1 ≡ is_encoded =
        is_gob.encode_lem (st.codecs c) src (clean_fresh gob IsClean st inv c e)
        ∙ ap (λ (x : C × Encoding). x.1) r in
      let first : (exec gob (encodes c src now) st).1 ≡ goes_on =
        exec-expected gob IsClean st (encodes c src now) is_gob reached
        ∙ (ap (encode_expected gob src) e ∙ ap (λ (x : C × Encoding). expected_encode x.1) r) in
      let st' = (exec gob (encodes c src now) st).0 in
      let phase' : st'.phase c ≡ encoded src = encode_in-phase st c src now (st.phase c) e same in
      let second =
        exec-expected gob IsClean st' (decodes c dst now) is_gob
          (then_ reached (encodes c src now) first) in
      ap (λ (a : Answer D). (go_on_if gob a st' (exec gob (decodes c dst now))).1) first
      ∙ (second
          ∙ (ap (decode_expected gob dst) phase'
              ∙ ap (λ (x : C × Encoding). ended gob (decoded (gob.decode x.0 dst).1)) r))
  rest_of_copy st c dst src now (codec, fails cause) is_gob reached e r =
      let first : (exec gob (encodes c src now) st).1 ≡ ends (some (wrap cause error_encoding)) =
        exec-expected gob IsClean st (encodes c src now) is_gob reached
        ∙ (ap (encode_expected gob src) e ∙ ap (λ (x : C × Encoding). expected_encode x.1) r) in
      let st' = (exec gob (encodes c src now) st).0 in
      ap (λ (a : Answer D). (go_on_if gob a st' (exec gob (decodes c dst now))).1) first
  rest_of_copy st c dst src now (codec, raises) is_gob reached e r =
      let first : (exec gob (encodes c src now) st).1 ≡ panics =
        exec-expected gob IsClean st (encodes c src now) is_gob reached
        ∙ (ap (encode_expected gob src) e ∙ ap (λ (x : C × Encoding). expected_encode x.1) r) in
      let st' = (exec gob (encodes c src now) st).0 in
      ap (λ (a : Answer D). (go_on_if gob a st' (exec gob (decodes c dst now))).1) first

  -- Once the pool of codecs is made, and as long as no copy has ended with an error or a panic of its codec, DeepCopy, if no other copy comes in between, answers as a new codec does: with the error for a nil source or target, with the encoder's error, wrapped, or its panic, or with what the decoder makes of the target and its error, wrapped; condition: a codec that has done whole copies answers as a new one.
  pub deep_copy-expected :
      (st : Copier C V) (dst : Option D) (src : Option V) (now : ℕ)
      → IsGob gob IsClean
      → Reached gob st
      → (deep_copy gob dst src now st).1 ≡ expected_copy dst src
  unfolding deep_copy exec
  deep_copy-expected st (some dst) (some src) now is_gob reached =
      let inv = Reached-Inv gob IsClean st is_gob reached in
      let g = get (conns_of gob IsClean st).pool now (λ pc. true) in
      let given =
        get-IsGiven (IsFree gob IsClean st) gob_pool_config (conns_of gob IsClean st).pool now
          (λ pc. true) refl inv.ready in
      let c = codec_of gob st g in
      let first : (exec gob (starts true now) st).1 ≡ goes_on =
        exec-expected gob IsClean st (starts true now) is_gob reached in
      let st' = (exec gob (starts true now) st).0 in
      ap
        (λ (a : Answer D).
          (go_on_if gob a st'
            (λ s. and_then gob (exec gob (encodes c src now) s) (exec gob (decodes c dst now)))).1)
        first
      ∙ rest_of_copy st' c dst src now (gob.encode gob.new_gob_codec src) is_gob
          (then_ reached (starts true now) tt)
          (start_with-phase st (conns_of gob IsClean st) now g given) refl
  deep_copy-expected st (some dst) none now is_gob reached = refl
  deep_copy-expected st none src now is_gob reached = refl

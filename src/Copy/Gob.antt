-- ===== src/Copy/Gob.antt =====
-- copy/copy.go: GobDeepCopy by many goroutines over its pool of codecs, from when the pool is made and no
-- goroutine is left between `gobCodecPool == nil` and its assignment: that test takes no lock, and before,
-- two first copies may each make a pool. A copy is cut between its Get, its Encode, and its Decode with the
-- Put.
use framego.Prelude.{ℕ, ◌+◌, Bool, true, false, [], Option, some, ◌==◌, if◌then◌else◌}
use framego.Errors.{Cause, Error, new_error, wrap}
use framego.Pool.Methods.{PoolConn, Config, new_pool}
use framego.Pool.Get.{Got, waits, refused, reused, dial, get}
use framego.Pool.Conns.{Conns, Returned, panicked, put_done, register, put}
use framego.Copy.{error_nil_pointer, error_encoding, decoded}

-- Encode has no error, has one, or panics, as it does at a nil pointer.
pub data Encoding : Type 0 where
  is_encoded : Encoding
  fails : Cause → Encoding
  raises : Encoding

-- A codec of encoding/gob, with an encoder and a decoder on one buffer.
pub record Gob (C V D : Type 0) : Type 0 where
  pub new_gob_codec : C
  pub encode : C → V → C × Encoding
  pub decode : C → D → C × (D × Option Cause)

-- Durations are in nanoseconds.
abbrev pub gob_pool_config : Config
gob_pool_config = record {
  max_idle = 100;
  max_active = 0;
  idle_timeout = 10000000000;
  wait = true;
  max_conn_lifetime = 0;
}

-- Where the goroutine stands that has a codec: it is not in hand, or fresh from the pool, or has this
-- source encoded.
pub data Phase (V : Type 0) : Type 0 where
  out : Phase V
  fresh : Phase V
  encoded : V → Phase V

pub record Copier (C V : Type 0) : Type 0 where
  pub gob_codec_pool : Conns
  pub codecs : ℕ → C
  pub phase : ℕ → Phase V
  pub next : ℕ

-- A copy starts at a time, with whether source and target are there.
pub data Event (V D : Type 0) : Type 0 where
  starts : Bool → ℕ → Event V D
  encodes : ℕ → V → ℕ → Event V D
  decodes : ℕ → D → ℕ → Event V D

-- What an event ends a copy with: the target's value and an error.
pub data Answer (D : Type 0) : Type 0 where
  goes_on : Answer D
  waits_for_codec : Answer D
  ends : Option Error → Answer D
  ends_with : D → Option Error → Answer D
  panics : Answer D

abbrev pub set_at : {A : Type 0} → ℕ → A → (ℕ → A) → ℕ → A
set_at k a f i = if i == k then a else f i

module _ {C V D : Type 0} (gob : Gob C V D) where
  -- With the pool just made.
  unfoldable pub new_copier : Copier C V
  unfolding new_pool
  new_copier = record {
    gob_codec_pool = record { pool = new_pool gob_pool_config; conn_map = [] };
    codecs = λ i. gob.new_gob_codec;
    phase = λ i. out;
    next = 0;
  }

  -- The new codec that `Dial` makes.
  abbrev pub dialed : Copier C V → ℕ → PoolConn
  dialed st now = record { c = st.next; t = now; created = now }

  -- With a connection in hand that the pool gave.
  abbrev pub took : Copier C V → Conns → PoolConn → Copier C V
  took st s pc = record st { gob_codec_pool = register s pc; phase = set_at pc.c fresh st.phase }

  -- `gc.(*gobCodec)` of the nil that Get gives on an error panics.
  abbrev pub start_with : Copier C V → Conns → ℕ → Got → Copier C V × Answer D
  start_with st s now waits = (st, waits_for_codec)
  start_with st s now (refused p closes) =
      (record st { gob_codec_pool = record s { pool = p } }, panics)
  start_with st s now (reused p pc closes) = (took st (record s { pool = p }) pc, goes_on)
  start_with st s now (dial p closes) = (
    took (record st { codecs = set_at st.next gob.new_gob_codec st.codecs; next = st.next + 1 })
        (record s { pool = p }) (dialed st now),
    goes_on,
  )

  -- The deferred Put.
  abbrev pub after_put : Copier C V → ℕ → Answer D → Returned → Copier C V × Answer D
  after_put st c answer panicked = (st, panics)
  after_put st c answer (put_done s closes) =
      (record st { gob_codec_pool = s; phase = set_at c out st.phase }, answer)

  abbrev pub give_back : Copier C V → ℕ → ℕ → Answer D → Copier C V × Answer D
  give_back st c now answer = after_put st c answer (put st.gob_codec_pool c now)

  -- The deferred Put runs after an error and after a panic too.
  abbrev pub encoded_at : Copier C V → ℕ → V → ℕ → C × Encoding → Copier C V × Answer D
  encoded_at st c src now (codec, is_encoded) = (
    record st { codecs = set_at c codec st.codecs; phase = set_at c (encoded src) st.phase },
    goes_on,
  )
  encoded_at st c src now (codec, fails cause) =
      give_back (record st { codecs = set_at c codec st.codecs }) c now
        (ends (some (wrap cause error_encoding)))
  encoded_at st c src now (codec, raises) =
      give_back (record st { codecs = set_at c codec st.codecs }) c now panics

  abbrev pub encode_in : Copier C V → ℕ → V → ℕ → Phase V → Copier C V × Answer D
  encode_in st c src now fresh = encoded_at st c src now (gob.encode (st.codecs c) src)
  encode_in st c src now _ = (st, goes_on)

  abbrev pub ended : D × Option Error → Answer D
  ended (dst, e) = ends_with dst e

  abbrev pub decoded_at : Copier C V → ℕ → ℕ → C × (D × Option Cause) → Copier C V × Answer D
  decoded_at st c now (codec, result) =
      give_back (record st { codecs = set_at c codec st.codecs }) c now (ended (decoded result))

  abbrev pub decode_in : Copier C V → ℕ → D → ℕ → Phase V → Copier C V × Answer D
  decode_in st c dst now (encoded src) = decoded_at st c now (gob.decode (st.codecs c) dst)
  decode_in st c dst now _ = (st, goes_on)

  -- An event for which no goroutine stands where it should does nothing.
  unfoldable pub exec : Event V D → Copier C V → Copier C V × Answer D
  unfolding get register put new_error wrap
  exec (starts false now) st = (st, ends (some (new_error error_nil_pointer)))
  exec (starts true now) st =
      let s = st.gob_codec_pool in start_with st s now (get s.pool now (λ pc. true))
  exec (encodes c src now) st = encode_in st c src now (st.phase c)
  exec (decodes c dst now) st = decode_in st c dst now (st.phase c)

  -- The codec that Get gave.
  abbrev pub codec_of : Copier C V → Got → ℕ
  codec_of st (reused p pc closes) = pc.c
  codec_of st _ = st.next

  abbrev pub go_on_if :
      Answer D → Copier C V → (Copier C V → Copier C V × Answer D) → Copier C V × Answer D
  go_on_if goes_on st rest = rest st
  go_on_if answer st rest = (st, answer)

  abbrev pub and_then :
      Copier C V × Answer D → (Copier C V → Copier C V × Answer D) → Copier C V × Answer D
  and_then r rest = go_on_if r.1 r.0 rest

  -- A whole copy, with no other in between.
  unfoldable pub gob_deep_copy : Option D → Option V → ℕ → Copier C V → Copier C V × Answer D
  unfolding exec
  gob_deep_copy (some dst) (some src) now st =
      let c = codec_of st (get st.gob_codec_pool.pool now (λ pc. true)) in
      and_then (exec (starts true now) st)
        (λ st. and_then (exec (encodes c src now) st) (exec (decodes c dst now)))
  gob_deep_copy dst _ now st = exec (starts false now) st

  unfoldable pub deep_copy : Option D → Option V → ℕ → Copier C V → Copier C V × Answer D
  unfolding gob_deep_copy
  deep_copy dst src now st = gob_deep_copy dst src now st

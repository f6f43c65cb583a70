-- ===== src/Copy/Examples.antt =====
-- An instance of the codec, with a buffer of numbers.
use framego.Prelude.{ℕ, ◌≡◌, refl, ap, true, List, [], ◌∷◌, ◌++◌, Option, none, some, arith}
use framego.Errors.{Cause, plain}
use framego.Prelude.Text.{bytes}
use framego.Pool.Methods.{Pool, new_pool}
use framego.Pool.Get.Unlimited.{IsReady}
use framego.Copy.Gob.{
  Gob, is_encoded, Copier, gob_pool_config, starts, encodes, exec, new_copier, deep_copy,
}
use framego.Copy.Exclusive.{IsGob, expected, Reached, begun, then_}
use framego.Copy.Exclusive.Steps.{exec-expected}
use framego.Copy.Exclusive.Whole.{expected_copy, deep_copy-expected}

abbrev read : List ℕ → ℕ → List ℕ × (ℕ × Option Cause)
read [] dst = ([], (dst, some (plain (bytes "EOF"))))
read (x ∷ buffer) dst = (buffer, (x, none))

abbrev buffered : Gob (List ℕ) ℕ ℕ
buffered = record {
  new_gob_codec = [];
  encode = λ buffer src. (buffer ++ src ∷ [], is_encoded);
  decode = read;
}

abbrev IsEmpty : List ℕ → Type 0
IsEmpty buffer = buffer ≡ []

buffered-IsGob : IsGob buffered IsEmpty
buffered-IsGob = record {
  new_clean = refl;
  encode_lem = λ c src clean. refl;
  decode_lem = λ c src dst clean ok. ap (λ (b : List ℕ). (read (b ++ src ∷ []) dst).1) clean;
  copy_clean = λ c src dst clean ok fine. ap (λ (b : List ℕ). (read (b ++ src ∷ []) dst).0) clean;
}

-- One copy has started when another one does.
abbrev copier : Copier (List ℕ) ℕ
copier = (exec buffered (starts true 5) (new_copier buffered)).0

copier-Reached : Reached buffered copier
copier-Reached = then_ begun (starts true 5) tt

exec-expected_example :
    (exec buffered (encodes 0 7 6) copier).1 ≡ expected buffered copier.phase (encodes 0 7 6)
exec-expected_example =
    exec-expected buffered IsEmpty copier (encodes 0 7 6) buffered-IsGob copier-Reached

deep_copy-expected_example :
    (deep_copy buffered (some 1) (some 7) 6 copier).1
    ≡ expected_copy buffered IsEmpty (some 1) (some 7)
deep_copy-expected_example =
    deep_copy-expected buffered IsEmpty copier (some 1) (some 7) 6 buffered-IsGob copier-Reached

abbrev idle_pool : Pool
idle_pool = record (new_pool gob_pool_config) {
  idle = record { c = 0; t = 3; created = 1 } ∷ record { c = 1; t = 2; created = 1 } ∷ [];
}

abbrev IsSmall : ℕ → Type 0
IsSmall c = Unit {0}

idle_pool-IsReady : IsReady IsSmall gob_pool_config idle_pool
unfolding new_pool
idle_pool-IsReady = (refl, refl, (tt, (λ e. ground (e, arith), tt), (tt, tt, tt)))

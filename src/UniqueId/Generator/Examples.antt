-- ===== src/UniqueId/Generator/Examples.antt =====
-- Tests and instances for the id generator.
use framego.Prelude.{
  ℕ, zero, suc, ◌+◌, ◌^◌, ◌<◌, ◌≡◌, ◌≢◌, refl, List, [], ◌∷◌, some, length, All, Distinct, arith,
}
use framego.Prelude.Int.{pos}
use framego.UniqueId.Generator.{
  Generator, Block, err, invalid_node_id, epoch, max_reserved_id, advance, compose, since_epoch,
  snowflake_id, put_uint64, uint64, encode, new_id, new_ids, new_generator,
}
use framego.UniqueId.Generator.Layout.{IsReady}
use framego.UniqueId.Generator.Order.{IsInEra, Rising, floor, snowflakes, snowflakes-Rising}
use framego.UniqueId.Generator.Cipher.{IsCipher}
use framego.UniqueId.Generator.Mint.{new_ids-Distinct, new_ids_disjoint}
use framego.UniqueId.Generator.Returns.{new_id-returns}

-- A cipher that changes nothing.
abbrev plain_cipher : Block
plain_cipher = λ b. b

plain_cipher-IsCipher : IsCipher plain_cipher
plain_cipher-IsCipher = record { keeps = λ b h. h; one_to_one = λ a b ha hb e. e }

abbrev generator_at : ℕ → Generator
generator_at node = record {
  last_time = 0;
  node_id = node;
  step = 0;
  block = plain_cipher;
  step_max = 1023;
  time_shift = 22;
  node_shift = 10;
}

-- The clock stands still and is then set back.
abbrev clock : List ℕ
clock = (epoch + 5000) ∷ (epoch + 5000) ∷ (epoch + 4000) ∷ []

generator_at-IsReady : (node : ℕ) → node < 4096 → IsReady (generator_at node)
generator_at-IsReady node h = omega arith

clock-IsInEra : (node : ℕ) → IsInEra 3 (generator_at node) clock
unfolding since_epoch
clock-IsInEra node = omega arith

made : new_ids 3 (generator_at 5) clock ≡ 20971525120 ∷ 20971525121 ∷ 20971525122 ∷ []
unfolding new_ids new_id snowflake_id advance compose encode put_uint64 uint64
made = refl

refused : new_generator (λ key. some plain_cipher) [] (pos 4096) ≡ err invalid_node_id
unfolding new_generator
refused = refl

snowflakes-Rising_example : Rising (floor (generator_at 5)) (snowflakes (generator_at 5) clock)
snowflakes-Rising_example =
    snowflakes-Rising 3 (generator_at 5) clock (generator_at-IsReady 5 (omega arith))
      (clock-IsInEra 5)

new_ids-Distinct_example :
    Distinct (new_ids 3 (generator_at 5) clock)
    × All (λ id. max_reserved_id < id) (new_ids 3 (generator_at 5) clock)
new_ids-Distinct_example =
    new_ids-Distinct 3 3 (generator_at 5) clock (generator_at-IsReady 5 (omega arith))
      plain_cipher-IsCipher (clock-IsInEra 5)

five_is_not_six : ◌≢◌ {A = ℕ} 5 6
five_is_not_six = omega arith

new_ids_disjoint_example :
    All
      (λ x. All (λ y. ¬ (x ≡ y)) (new_ids 3 (generator_at 6) clock))
      (new_ids 3 (generator_at 5) clock)
new_ids_disjoint_example =
    new_ids_disjoint 3 3 3 3 (generator_at 5) (generator_at 6) clock clock
      (generator_at-IsReady 5 (omega arith)) (generator_at-IsReady 6 (omega arith))
      plain_cipher-IsCipher refl five_is_not_six (clock-IsInEra 5) (clock-IsInEra 6)

-- A clock that stands still for `n` readings.
readings : ℕ → List ℕ
readings zero = []
readings (suc n) = (epoch + 5000) ∷ readings n

length-readings : (n : ℕ) → length (readings n) ≡ n
unfolding readings
length-readings zero = refl
length-readings (suc n) = omega (arith, length-readings n)

readings-All : (n m : ℕ) → 5000 + m < 2 ^ 42 → All (λ t. since_epoch t + m < 2 ^ 42) (readings n)
unfolding readings since_epoch
readings-All zero m h = tt
readings-All (suc n) m h = (omega arith, readings-All n m h)

readings-IsInEra : (n : ℕ) → 5000 + n < 2 ^ 42 → IsInEra n (generator_at 5) (readings n)
readings-IsInEra n h = record {
  calls = omega (arith, length-readings n);
  room = omega (arith, length-readings n);
  readings = readings-All n n h;
}

abbrev many : ℕ
many = max_reserved_id + 2

new_id-returns_example :
    (r : ℕ × Generator × List ℕ) × (new_id (generator_at 5) (readings many) ≡ some r)
new_id-returns_example =
    new_id-returns many (generator_at 5) (readings many) (generator_at-IsReady 5 (omega arith))
      plain_cipher-IsCipher (readings-IsInEra many (omega arith))
      (omega (arith, length-readings many))

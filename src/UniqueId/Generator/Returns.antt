-- ===== src/UniqueId/Generator/Returns.antt =====
-- The loop of `NewID` ends.
use framego.Prelude.{
  ℕ, suc, ◌+◌, ◌<◌, ◌≡◌, refl, sym, ◌∙◌, ap, subst, List, [], ◌∷◌, none, some, inl, inr, length,
  All, All-mono, Distinct, ltb, Bool-cases, Option-cases, some-ne-none, arith,
}
use framego.Prelude.Pigeonhole.{length-le-bound}
use framego.UniqueId.Generator.{Generator, Block, max_reserved_id, snowflake_id, encode, new_id}
use framego.UniqueId.Generator.Layout.{IsReady}
use framego.UniqueId.Generator.Order.{floor, IsInEra, IsNext, snowflake_id-IsNext}
use framego.UniqueId.Generator.Cipher.{IsCipher}
use framego.UniqueId.Generator.Mint.{
  Encodes, Encodes-mono, Encodes-ne, round-Encodes, snowflake_id-block,
}

-- The cipher ids that the loop of one call tries, if none is high enough to end it.
attempts : Generator → List ℕ → List ℕ
attempts g [] = []
attempts g (t ∷ later) = encode g.block (snowflake_id g t).1 ∷ attempts (snowflake_id g t).0 later

length-attempts : (g : Generator) (clock : List ℕ) → length (attempts g clock) ≡ length clock
unfolding attempts
length-attempts g [] = refl
length-attempts g (t ∷ later) = ap suc (length-attempts (snowflake_id g t).0 later)

attempts-low :
    (g : Generator) (clock : List ℕ)
    → new_id g clock ≡ none
    → All (λ id. id < suc max_reserved_id) (attempts g clock)
unfolding attempts new_id
attempts-low g [] eq = tt
attempts-low g (t ∷ later) eq =
    elim (Bool-cases (ltb max_reserved_id (encode g.block (snowflake_id g t).1))) [
      | inl high ↦ absurd (some-ne-none (rw high at eq))
      | inr low ↦ (ground (arith, low), attempts-low (snowflake_id g t).0 later (rw low at eq))
    ]

-- What is made after a round, seen from before it.
round-later :
    (n : ℕ) (g : Generator) (t : ℕ) (later : List ℕ) (id : ℕ)
    → IsNext n g later (snowflake_id g t)
    → Encodes
        (snowflake_id g t).0.block
        (snowflake_id g t).0.node_id
        (floor (snowflake_id g t).0)
        id
    → Encodes g.block g.node_id (snowflake_id g t).1 id
round-later n g t later id s (p, above, fits, at, eq) = (
  p,
  omega (arith, s.id_eq),
  fits,
  at ∙ s.node_eq,
  eq ∙ ap (λ (b : Block). encode b p) (snowflake_id-block g t),
)

attempts-Encodes :
    (n : ℕ) (g : Generator) (clock : List ℕ)
    → IsReady g
    → IsInEra n g clock
    → All (Encodes g.block g.node_id (floor g)) (attempts g clock)
unfolding attempts
attempts-Encodes n g [] h e = tt
attempts-Encodes n g (t ∷ later) h e =
    let s = snowflake_id-IsNext n g t later h e in
    (
      round-Encodes n g t later s,
      All-mono _ _ (attempts (snowflake_id g t).0 later)
          (λ id at.
            Encodes-mono g.block g.node_id (floor g) (snowflake_id g t).1 id
              (omega (arith, s.grows, s.id_eq)) (round-later n g t later id s at))
          (attempts-Encodes n (snowflake_id g t).0 later s.ready s.era),
    )

attempts-Distinct :
    (n : ℕ) (g : Generator) (clock : List ℕ)
    → IsReady g
    → IsCipher g.block
    → IsInEra n g clock
    → Distinct (attempts g clock)
unfolding attempts
attempts-Distinct n g [] h c e = tt
attempts-Distinct n g (t ∷ later) h c e =
    let s = snowflake_id-IsNext n g t later h e in
    (
      All-mono _ _ (attempts (snowflake_id g t).0 later)
          (λ id at.
            Encodes-ne g.block g.node_id (snowflake_id g t).1 id c s.fits
              (round-later n g t later id s at))
          (attempts-Encodes n (snowflake_id g t).0 later s.ready s.era),
      attempts-Distinct n (snowflake_id g t).0 later s.ready
          (subst IsCipher (sym (snowflake_id-block g t)) c) s.era,
    )

-- The loop of `NewID` ends: given more readings of the clock than there are reserved ids and one
-- more, a call returns; conditions: the generator has the layout of `NewGenerator`, the cipher
-- permutes the blocks of eight bytes, and the times of the readings fit 42 bits.
pub new_id-returns :
    (n : ℕ) (g : Generator) (clock : List ℕ)
    → IsReady g
    → IsCipher g.block
    → IsInEra n g clock
    → max_reserved_id + 1 < length clock
    → (r : ℕ × Generator × List ℕ) × (new_id g clock ≡ some r)
new_id-returns n g clock h c e long = elim (Option-cases (new_id g clock)) [
  | inl stop ↦ absurd (
      omega (
        arith,
        length-attempts g clock,
        length-le-bound (suc max_reserved_id) (attempts g clock) (attempts-Distinct n g clock h c e)
            (attempts-low g clock stop),
      ))
  | inr found ↦ found
]

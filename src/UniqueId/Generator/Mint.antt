-- ===== src/UniqueId/Generator/Mint.antt =====
-- `NewID`: what it gives out.
use framego.Prelude.{
  ℕ, zero, suc, ◌/◌, ◌%◌, ◌^◌, ◌≤◌, ◌<◌, ◌≡◌, ◌≢◌, refl, sym, ◌∙◌, ap, subst, List, [], ◌∷◌, some,
  inl, inr, All, All-mono, Distinct, ltb, ltb→lt, Bool-cases, Option-cases, some-eq, arith,
}
use framego.UniqueId.Generator.{
  Generator, Block, max_reserved_id, snowflake_id, since_epoch, encode, new_id, new_ids,
}
use framego.UniqueId.Generator.Layout.{IsReady, advance-block}
use framego.UniqueId.Generator.Order.{floor, IsInEra, IsNext, snowflake_id-IsNext}
use framego.UniqueId.Generator.Cipher.{IsCipher, encode_injective}

-- `id` is the cipher id of a 64-bit plain id above `low` that carries the node `node`.
abbrev pub Encodes : Block → ℕ → ℕ → ℕ → Type 0
Encodes c node low id =
    (p : ℕ) × (low < p) × (p < 2 ^ 64) × (p / 2 ^ 10 % 2 ^ 12 ≡ node) × (id ≡ encode c p)

pub Encodes-mono :
    (c : Block) (node low high id : ℕ) → low ≤ high → Encodes c node high id → Encodes c node low id
Encodes-mono c node low high id h (p, above, fits, at, e) = (p, omega arith, fits, at, e)

-- An id made at `p` differs from all that were made above `p`.
pub Encodes-ne :
    (c : Block) (node p id : ℕ)
    → IsCipher c
    → p < 2 ^ 64
    → Encodes c node p id
    → ¬ (encode c p ≡ id)
Encodes-ne c node p id k fits (q, above, fits', at, e) same =
    omega (arith, encode_injective c p q k fits fits' (same ∙ e))

pub snowflake_id-block : (g : Generator) (t : ℕ) → (snowflake_id g t).0.block ≡ g.block
unfolding snowflake_id
snowflake_id-block g t = advance-block g (since_epoch t)

-- What one round of the loop makes.
pub round-Encodes :
    (n : ℕ) (g : Generator) (t : ℕ) (later : List ℕ)
    → IsNext n g later (snowflake_id g t)
    → Encodes g.block g.node_id (floor g) (encode g.block (snowflake_id g t).1)
round-Encodes n g t later s = (
  (snowflake_id g t).1,
  omega (arith, s.id_eq, s.grows),
  s.fits,
  omega (arith, s.id_eq, s.node_eq, s.ready.node_capped, s.ready.step_capped),
  refl,
)

-- The state and the id after a call that returned.
pub record IsMinted (n : ℕ) (g : Generator) (r : ℕ × Generator × List ℕ) : Type 0 where
  pub ready : IsReady r.1
  pub era : IsInEra n r.1 r.2
  pub block_eq : r.1.block ≡ g.block
  pub node_eq : r.1.node_id ≡ g.node_id
  pub grows : floor g < floor r.1
  pub fits : floor r.1 < 2 ^ 64
  pub id_eq : r.0 ≡ encode g.block (floor r.1)
  pub unreserved : max_reserved_id < r.0

IsMinted-later :
    (n : ℕ) (g : Generator) (t : ℕ) (later : List ℕ) (r : ℕ × Generator × List ℕ)
    → IsNext n g later (snowflake_id g t)
    → IsMinted n (snowflake_id g t).0 r
    → IsMinted n g r
IsMinted-later n g t later r s m = record {
  ready = m.ready;
  era = m.era;
  block_eq = m.block_eq ∙ snowflake_id-block g t;
  node_eq = m.node_eq ∙ s.node_eq;
  grows = omega (arith, s.grows, m.grows);
  fits = m.fits;
  id_eq = m.id_eq ∙ ap (λ (b : Block). encode b (floor r.1)) (snowflake_id-block g t);
  unreserved = m.unreserved;
}

IsMinted-now :
    (n : ℕ) (g : Generator) (t : ℕ) (later : List ℕ)
    → IsNext n g later (snowflake_id g t)
    → max_reserved_id < encode g.block (snowflake_id g t).1
    → IsMinted n g (encode g.block (snowflake_id g t).1, (snowflake_id g t).0, later)
IsMinted-now n g t later s high = record {
  ready = s.ready;
  era = s.era;
  block_eq = snowflake_id-block g t;
  node_eq = s.node_eq;
  grows = s.grows;
  fits = omega (arith, s.fits, s.id_eq);
  id_eq = ap (encode g.block) s.id_eq;
  unreserved = high;
}

-- A call that returns gives an id outside the reserved range, made at a plain id above all earlier
-- ones.
pub new_id-IsMinted :
    (n : ℕ) (g : Generator) (clock : List ℕ) (r : ℕ × Generator × List ℕ)
    → IsReady g
    → IsInEra n g clock
    → new_id g clock ≡ some r
    → IsMinted n g r
unfolding new_id
new_id-IsMinted n g [] r h e eq = cc
new_id-IsMinted n g (t ∷ later) r h e eq =
    let s = snowflake_id-IsNext n g t later h e in
    elim (Bool-cases (ltb max_reserved_id (encode g.block (snowflake_id g t).1))) [
      | inl high ↦
          subst (IsMinted n g) (some-eq (rw high at eq))
            (IsMinted-now n g t later s (ltb→lt _ _ high))
      | inr low ↦
          IsMinted-later n g t later r s
            (new_id-IsMinted n (snowflake_id g t).0 later r s.ready s.era (rw low at eq))
    ]

Encodes-earlier :
    (n : ℕ) (g : Generator) (r : ℕ × Generator × List ℕ) (id : ℕ)
    → IsMinted n g r
    → Encodes r.1.block r.1.node_id (floor r.1) id
    → Encodes g.block g.node_id (floor r.1) id
Encodes-earlier n g r id m (p, above, fits, at, e) =
    (p, above, fits, at ∙ m.node_eq, e ∙ ap (λ (b : Block). encode b p) m.block_eq)

IsMinted-Encodes :
    (n : ℕ) (g : Generator) (r : ℕ × Generator × List ℕ)
    → IsMinted n g r
    → Encodes g.block g.node_id (floor g) r.0
IsMinted-Encodes n g r m = (
  floor r.1,
  m.grows,
  m.fits,
  omega (arith, m.node_eq, m.ready.node_capped, m.ready.step_capped),
  m.id_eq,
)

-- The ids of a series of calls, after the first.
later-Encodes :
    (n : ℕ) (g : Generator) (r : ℕ × Generator × List ℕ) (ids : List ℕ)
    → IsMinted n g r
    → All (Encodes r.1.block r.1.node_id (floor r.1)) ids
    → All (Encodes g.block g.node_id (floor r.1)) ids
later-Encodes n g r ids m = All-mono _ _ ids (λ id. Encodes-earlier n g r id m)

pub new_ids-Encodes :
    (k n : ℕ) (g : Generator) (clock : List ℕ)
    → IsReady g
    → IsInEra n g clock
    → All (Encodes g.block g.node_id (floor g)) (new_ids k g clock)
unfolding new_ids
new_ids-Encodes zero n g clock h e = tt
new_ids-Encodes (suc k) n g clock h e = elim (Option-cases (new_id g clock)) [
  | inl stop ↦ rw (stop, new_ids) tt
  | inr (r, eq) ↦
      let m = new_id-IsMinted n g clock r h e eq in
      rw (eq, new_ids)
        (
          IsMinted-Encodes n g r m,
          All-mono _ _ (new_ids k r.1 r.2)
              (λ id.
                Encodes-mono g.block g.node_id (floor g) (floor r.1) id (omega (arith, m.grows)))
              (later-Encodes n g r _ m (new_ids-Encodes k n r.1 r.2 m.ready m.era)),
        )
]

-- The ids that a generator gives out never repeat, and none lies in the reserved range;
-- conditions: the generator has the layout of `NewGenerator`, the cipher permutes the blocks of
-- eight bytes, and the times of the calls fit 42 bits.
pub new_ids-Distinct :
    (k n : ℕ) (g : Generator) (clock : List ℕ)
    → IsReady g
    → IsCipher g.block
    → IsInEra n g clock
    → Distinct (new_ids k g clock) × All (λ id. max_reserved_id < id) (new_ids k g clock)
unfolding new_ids
new_ids-Distinct zero n g clock h c e = (tt, tt)
new_ids-Distinct (suc k) n g clock h c e = elim (Option-cases (new_id g clock)) [
  | inl stop ↦ rw (stop, new_ids) (tt, tt)
  | inr (r, eq) ↦
      let m = new_id-IsMinted n g clock r h e eq in
      let rest = new_ids-Distinct k n r.1 r.2 m.ready (subst IsCipher (sym m.block_eq) c) m.era in
      let others = later-Encodes n g r _ m (new_ids-Encodes k n r.1 r.2 m.ready m.era) in
      rw (eq, new_ids)
        (
          (
            All-mono _ _ (new_ids k r.1 r.2)
                (λ id at same.
                  Encodes-ne g.block g.node_id (floor r.1) id c m.fits at (sym m.id_eq ∙ same))
                others,
            rest.0,
          ),
          (m.unreserved, rest.1),
        )
]

Encodes-apart :
    (c : Block) (a b low high x y : ℕ)
    → IsCipher c
    → a ≢ b
    → Encodes c a low x
    → Encodes c b high y
    → ¬ (x ≡ y)
Encodes-apart c a b low high x y k ne (p, _, fits, at, e) (q, _, fits', at', e') same =
    ne (sym at ∙ ap (λ (v : ℕ). v / 2 ^ 10 % 2 ^ 12) plain ∙ at')
  where
    plain : p ≡ q
    plain = encode_injective c p q k fits fits' (sym e ∙ same ∙ e')

-- Two generators with one key and different node ids never give out the same id; conditions: both
-- have the layout of `NewGenerator`, the cipher permutes the blocks of eight bytes, and the times
-- of the calls fit 42 bits.
pub new_ids_disjoint :
    (j k n m : ℕ) (g h : Generator) (clock clock' : List ℕ)
    → IsReady g
    → IsReady h
    → IsCipher g.block
    → h.block ≡ g.block
    → g.node_id ≢ h.node_id
    → IsInEra n g clock
    → IsInEra m h clock'
    → All (λ x. All (λ y. ¬ (x ≡ y)) (new_ids k h clock')) (new_ids j g clock)
new_ids_disjoint j k n m g h clock clock' rg rh c same ne eg eh =
    All-mono _ _ (new_ids j g clock)
      (λ x at.
        All-mono _ _ (new_ids k h clock')
          (λ y at'.
            Encodes-apart g.block g.node_id h.node_id (floor g) (floor h) x y c ne at
              (subst (λ b. Encodes b h.node_id (floor h) y) same at'))
          (new_ids-Encodes k m h clock' rh eh))
      (new_ids-Encodes j n g clock rg eg)

-- ===== src/UniqueId/Generator/Cipher.antt =====
-- The cipher ids: `encode` maps distinct plain ids to distinct ids, since a block cipher is a
-- permutation of the blocks of eight bytes.
use framego.Prelude.{ℕ, ◌^◌, ◌<◌, ◌≡◌, sym, ◌∙◌, ap, List, [], ◌∷◌, length, All, arith}
use framego.UniqueId.Generator.{Block, put_uint64, uint64, encode}

-- A block of eight bytes.
abbrev pub IsBlock : List ℕ → Type 0
IsBlock b = (length b ≡ 8) × All (λ x. x < 256) b

-- What is relied on of `xtea.Cipher`: under one key, encryption is a permutation of the blocks.
pub record IsCipher (c : Block) : Type 0 where
  pub keeps : (b : List ℕ) → IsBlock b → IsBlock (c b)
  pub one_to_one : (a b : List ℕ) → IsBlock a → IsBlock b → c a ≡ c b → a ≡ b

put_uint64-IsBlock : (v : ℕ) → IsBlock (put_uint64 v)
unfolding put_uint64
put_uint64-IsBlock v = omega arith

-- `Uint64` reads what `PutUint64` wrote.
pub uint64-put_uint64 : (v : ℕ) → v < 2 ^ 64 → uint64 (put_uint64 v) ≡ v
unfolding uint64 put_uint64
uint64-put_uint64 v h = omega arith

-- `PutUint64` writes back what `Uint64` read.
put_uint64-uint64 : (b : List ℕ) → IsBlock b → put_uint64 (uint64 b) ≡ b
unfolding uint64 put_uint64
put_uint64-uint64 (a ∷ b ∷ c ∷ d ∷ e ∷ f ∷ g ∷ h ∷ []) v = ground arith
put_uint64-uint64 b v = absurd (omega arith)

pub encode_injective :
    (c : Block) (v w : ℕ) → IsCipher c → v < 2 ^ 64 → w < 2 ^ 64 → encode c v ≡ encode c w → v ≡ w
unfolding encode
encode_injective c v w k hv hw e =
    let bv = put_uint64-IsBlock v in
    let bw = put_uint64-IsBlock w in
    let same : c (put_uint64 v) ≡ c (put_uint64 w) =
      sym (put_uint64-uint64 _ (k.keeps _ bv))
      ∙ ap put_uint64 e
      ∙ put_uint64-uint64 _ (k.keeps _ bw) in
    sym (uint64-put_uint64 v hv) ∙ ap uint64 (k.one_to_one _ _ bv bw same) ∙ uint64-put_uint64 w hw

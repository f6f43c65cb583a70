-- ===== src/UniqueId/Generator/Setup.antt =====
-- What `NewGenerator` makes.
use framego.Prelude.{ℕ, ◌≡◌, List, Option, some, inl, inr, Option-cases, arith}
use framego.Prelude.Int.{ℤ, pos, negsuc}
use framego.UniqueId.Generator.{Generator, Block, ok, new_generator}
use framego.UniqueId.Generator.Layout.{IsReady}

pub record IsFresh (cipher : Option Block) (i : ℤ) (g : Generator) : Type 0 where
  pub ready : IsReady g
  pub node_eq : i ≡ pos g.node_id
  pub cipher_eq : cipher ≡ some g.block
  pub start_eq : g.last_time ≡ 0

-- A generator that was made is ready, has the node id and the cipher asked for and starts at the
-- epoch.
pub new_generator-IsFresh :
    (nc : List ℕ → Option Block) (key : List ℕ) (i : ℤ) (g : Generator)
    → new_generator nc key i ≡ ok g
    → IsFresh (nc key) i g
unfolding new_generator
new_generator-IsFresh nc key (pos n) g e = elim (Option-cases (nc key)) [
  | inl no_cipher ↦ ground (arith, no_cipher)
  | inr (c, made) ↦ ground (arith, made)
]
new_generator-IsFresh nc key (negsuc n) g e = ground arith

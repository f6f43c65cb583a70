-- ===== src/UniqueId/Generator.antt =====
-- uniqueid/generator.go. The 64-bit arithmetic wraps; `time.Now().UnixMilli()` is an argument of
-- each call, as the `uint64` that the code converts it to. XTEA and the host's name are parameters.
pub mod Layout
pub mod Order
pub mod Cipher
pub mod Setup
pub mod Mint
pub mod Returns
mod Examples
use Prim.Native.Nat.{bit_or}
use framego.Prelude.{
  ℕ, zero, suc, ◌+◌, ◌-◌, ◌*◌, ◌/◌, ◌%◌, ◌^◌, List, [], ◌∷◌, Option, none, some, ltb, leb, ◌||◌,
  if◌then◌else◌,
}
use framego.Prelude.Int.{ℤ, pos, pos_part, ltb_ℤ}

abbrev pub u64 : ℕ → ℕ
u64 n = n % 2 ^ 64

-- 2020-01-01T00:00:00Z in milliseconds.
abbrev pub epoch : ℕ
epoch = 1577836800000

abbrev pub node_bits : ℕ
node_bits = 12

abbrev pub instance_index_bits : ℕ
instance_index_bits = 6

abbrev pub step_bits : ℕ
step_bits = 10

abbrev pub max_reserved_id : ℕ
max_reserved_id = 0xffffffff

-- `cipher.Block`: what `Encrypt` writes for the eight bytes that it reads.
abbrev pub Block : Type 0
Block = List ℕ → List ℕ

pub record Generator : Type 0 where
  pub last_time : ℕ
  pub node_id : ℕ
  pub step : ℕ
  pub block : Block
  pub step_max : ℕ
  pub time_shift : ℕ
  pub node_shift : ℕ

pub data Error : Type 0 where
  invalid_node_id new_xtea_cipher_error service_id_overflow get_hostname_error invalid_hostname
        parse_instance_index_error instance_index_overflow :
      Error

pub data Result {ℓ} (A : Type ℓ) : Type ℓ where
  ok : A → Result A
  err : Error → Result A

-- `-1 ^ (-1 << n)`.
abbrev pub low_ones : ℕ → ℕ
low_ones n = 2 ^ n - 1

-- The new generator, from the cipher that `xtea.NewCipher` made of the key, if it made one.
pub with_cipher : Option Block → ℕ → Result Generator
with_cipher none node_id = err new_xtea_cipher_error
with_cipher (some c) node_id = ok (record {
  last_time = 0;
  node_id = node_id;
  step = 0;
  block = c;
  step_max = low_ones step_bits;
  time_shift = node_bits + step_bits;
  node_shift = step_bits;
})

unfoldable pub new_generator : (List ℕ → Option Block) → List ℕ → ℤ → Result Generator
unfolding with_cipher
new_generator new_cipher key node_id =
    if ltb_ℤ node_id (pos 0) || ltb_ℤ (pos (low_ones node_bits)) node_id
    then err invalid_node_id
    else with_cipher (new_cipher key) (pos_part node_id)

-- `lastTime` and `step` after a call of `snowflakeID` at `now` milliseconds since the epoch.
pub advance : Generator → ℕ → Generator
advance g now =
    if leb now g.last_time
    then if ltb g.step_max (u64 (g.step + 1))
      then record g { last_time = u64 (g.last_time + 1); step = 0 }
      else record g { step = u64 (g.step + 1) }
    else record g { last_time = now; step = 0 }

pub compose : Generator → ℕ
compose g =
    bit_or (bit_or (u64 (g.last_time * 2 ^ g.time_shift)) (u64 (g.node_id * 2 ^ g.node_shift)))
      g.step

-- `uint64(time.Now().UnixMilli()) - epoch`.
pub since_epoch : ℕ → ℕ
since_epoch unix_milli = u64 (unix_milli + 2 ^ 64 - epoch)

pub snowflake_id : Generator → ℕ → Generator × ℕ
unfolding since_epoch
snowflake_id g unix_milli = let g' = advance g (since_epoch unix_milli) in (g', compose g')

-- `binary.BigEndian.PutUint64` and `Uint64`.
pub put_uint64 : ℕ → List ℕ
put_uint64 v =
    (v / 2 ^ 56 % 256)
    ∷ (v / 2 ^ 48 % 256)
    ∷ (v / 2 ^ 40 % 256)
    ∷ (v / 2 ^ 32 % 256)
    ∷ (v / 2 ^ 24 % 256)
    ∷ (v / 2 ^ 16 % 256)
    ∷ (v / 2 ^ 8 % 256)
    ∷ (v % 256)
    ∷ []

pub uint64 : List ℕ → ℕ
uint64 (a ∷ b ∷ c ∷ d ∷ e ∷ f ∷ g ∷ h ∷ _) =
    a * 2 ^ 56 + b * 2 ^ 48 + c * 2 ^ 40 + d * 2 ^ 32 + e * 2 ^ 24 + f * 2 ^ 16 + g * 2 ^ 8 + h
uint64 _ = 0

-- The cipher id of a plain id.
pub encode : Block → ℕ → ℕ
encode block plain = uint64 (block (put_uint64 plain))

-- `NewID` under the readings that its clock will give: the id, the generator afterwards and the
-- readings left over. `none` means that the loop had not ended when the readings were used up.
pub new_id : Generator → List ℕ → Option (ℕ × Generator × List ℕ)
new_id g [] = none
new_id g (t ∷ later) =
    let r = snowflake_id g t in
    let id = encode g.block r.1 in
    let again = new_id r.0 later in if ltb max_reserved_id id then some (id, r.0, later) else again

-- The ids of at most `n` calls of `NewID` in turn.
pub new_ids : ℕ → Generator → List ℕ → List ℕ
new_ids zero g clock = []
new_ids (suc n) g clock = elim (new_id g clock) [
  | none ↦ []
  | some (id, g', later) ↦ id ∷ new_ids n g' later
]

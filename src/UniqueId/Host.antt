-- ===== src/UniqueId/Host.antt =====
-- The node id that uniqueid/generator.go derives from the host's name. Text is a list of bytes.
pub mod NodeIds
mod Examples
use Prim.Native.Nat.{bit_or}
use framego.Prelude.{
  ℕ, zero, suc, ◌+◌, ◌-◌, ◌*◌, ◌^◌, Bool, true, false, ◌&&◌, ◌||◌, List, [], ◌∷◌, Option, none,
  some, drop, ltb, leb, ◌==◌, if◌then◌else◌,
}
use framego.Prelude.Int.{ℤ, pos, negsuc, pos_part, ltb_ℤ}
use framego.UniqueId.Generator.{
  Generator, Block, Error, Result, ok, err, service_id_overflow, get_hostname_error,
  invalid_hostname, parse_instance_index_error, instance_index_overflow, low_ones, node_bits,
  instance_index_bits, new_generator,
}

-- `strings.LastIndex` of a text of one byte.
last_index : ℕ → List ℕ → Option ℕ
last_index c [] = none
last_index c (x ∷ xs) = elim (last_index c xs) [
  | none ↦ if x == c then some 0 else none
  | some i ↦ some (suc i)
]

-- `strconv.Atoi`.
is_digit : ℕ → Bool
is_digit c = leb b'0' c && leb c b'9'

digits_from : ℕ → List ℕ → Option ℕ
digits_from n [] = some n
digits_from n (c ∷ cs) = if is_digit c then digits_from (n * 10 + (c - b'0')) cs else none

magnitude : List ℕ → Option ℕ
magnitude [] = none
magnitude (c ∷ cs) = digits_from 0 (c ∷ cs)

positive : Option ℕ → Option ℤ
positive none = none
positive (some n) = if ltb n (2 ^ 63) then some (pos n) else none

negative : Option ℕ → Option ℤ
negative none = none
negative (some zero) = some (pos 0)
negative (some (suc n)) = if ltb n (2 ^ 63) then some (negsuc n) else none

unfoldable pub atoi : List ℕ → Option ℤ
unfolding is_digit digits_from magnitude positive negative
atoi [] = none
atoi (c ∷ cs) =
    if c == b'-'
    then negative (magnitude cs)
    else if c == b'+'
    then positive (magnitude cs)
    else positive (magnitude (c ∷ cs))

-- What follows the last dash, unless that is the first byte or there is none.
after_dash : Option ℕ → List ℕ → List ℕ
after_dash none host = host
after_dash (some zero) host = host
after_dash (some (suc i)) host = drop (suc (suc i)) host

parsed_index : Option ℤ → Result ℕ
parsed_index none = err parse_instance_index_error
parsed_index (some i) =
    if ltb_ℤ i (pos 0) || ltb_ℤ (pos (low_ones instance_index_bits)) i
    then err instance_index_overflow
    else ok (pos_part i)

pub suffix_index : List ℕ → Result ℕ
unfolding parsed_index
suffix_index [] = err invalid_hostname
suffix_index (c ∷ cs) = parsed_index (atoi (c ∷ cs))

-- `hostname` is what `os.Hostname` returns, `none` for its error.
pub instance_index : Bool → Option (List ℕ) → Result ℕ
unfolding suffix_index after_dash last_index
instance_index true hostname = ok 0
instance_index false none = err get_hostname_error
instance_index false (some host) = suffix_index (after_dash (last_index b'-' host) host)

generator_of : (List ℕ → Option Block) → List ℕ → ℕ → Result ℕ → Result Generator
generator_of new_cipher key service_id (err e) = err e
generator_of new_cipher key service_id (ok index) =
    new_generator new_cipher key (pos (bit_or (service_id * 2 ^ instance_index_bits) index))

pub new_generator_from_host_name :
    (List ℕ → Option Block) → List ℕ → ℤ → Bool → Option (List ℕ) → Result Generator
unfolding generator_of instance_index
new_generator_from_host_name new_cipher key service_id debug hostname =
    if ltb_ℤ service_id (pos 0)
      || ltb_ℤ (pos (low_ones (node_bits - instance_index_bits))) service_id
    then err service_id_overflow
    else generator_of new_cipher key (pos_part service_id) (instance_index debug hostname)

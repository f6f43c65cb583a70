-- ===== src/UniqueId/Host/NodeIds.antt =====
-- Which node ids a generator can have, and whose they are.
use framego.Prelude.{
  ℕ, suc, ◌+◌, ◌*◌, ◌<◌, ◌≡◌, refl, sym, ap, ◌∙◌, Bool, true, false, List, [], ◌∷◌, ◌++◌, Option,
  none, some, inl, inr, drop, length, All, Bool-cases, ltb, arith,
}
use framego.Prelude.Int.{ℤ, pos, negsuc, pos_part}
use framego.Prelude.Bits.{bit_or-eq-add}
use framego.UniqueId.Generator.{Generator, Block, Result, ok, err}
use framego.UniqueId.Generator.Setup.{new_generator-IsFresh}
use framego.UniqueId.Host.{
  last_index, after_dash, suffix_index, parsed_index, instance_index, generator_of, atoi,
  new_generator_from_host_name,
}

parsed_index-lt : (i : Option ℤ) (n : ℕ) → parsed_index i ≡ ok n → n < 64
unfolding parsed_index
parsed_index-lt none n e = cc
parsed_index-lt (some i) n e = ground arith

suffix_index-lt : (s : List ℕ) (n : ℕ) → suffix_index s ≡ ok n → n < 64
unfolding suffix_index
suffix_index-lt [] n e = cc
suffix_index-lt (c ∷ cs) n e = parsed_index-lt (atoi (c ∷ cs)) n e

instance_index-lt :
    (debug : Bool) (host : Option (List ℕ)) (n : ℕ) → instance_index debug host ≡ ok n → n < 64
unfolding instance_index
instance_index-lt true host n e = ground arith
instance_index-lt false none n e = cc
instance_index-lt false (some h) n e = suffix_index-lt (after_dash (last_index b'-' h) h) n e

-- What made the generator: the service and the index of the instance, each below 64.
pub record IsOf (service_id : ℤ) (index : Result ℕ) (g : Generator) : Type 0 where
  pub service : ℕ
  pub instance : ℕ
  pub service_eq : service_id ≡ pos service
  pub index_eq : index ≡ ok instance
  pub service_capped : service < 64
  pub instance_capped : instance < 64
  pub node_eq : g.node_id ≡ service * 64 + instance

generator_of-IsOf :
    (nc : List ℕ → Option Block) (key : List ℕ) (s : ℕ) (index : Result ℕ) (g : Generator)
    → s < 64
    → ((n : ℕ) → index ≡ ok n → n < 64)
    → generator_of nc key s index ≡ ok g
    → IsOf (pos s) index g
unfolding generator_of
generator_of-IsOf nc key s (err x) g h b e = cc
generator_of-IsOf nc key s (ok n) g h b e =
    let fresh = new_generator-IsFresh nc key _ g e in
    let small = b n refl in
    record {
      service = s;
      instance = n;
      service_eq = refl;
      index_eq = refl;
      service_capped = h;
      instance_capped = small;
      node_eq = sym (ap pos_part fresh.node_eq) ∙ bit_or-eq-add 6 s n small;
    }

-- A generator from a host's name has the node id `serviceID * 64 + index`.
pub new_generator_from_host_name-IsOf :
    (nc : List ℕ → Option Block) (key : List ℕ) (service_id : ℤ) (debug : Bool)
    (host : Option (List ℕ)) (g : Generator)
    → new_generator_from_host_name nc key service_id debug host ≡ ok g
    → IsOf service_id (instance_index debug host) g
unfolding new_generator_from_host_name
new_generator_from_host_name-IsOf nc key (negsuc s) debug host g e = ground arith
new_generator_from_host_name-IsOf nc key (pos s) debug host g e = elim (Bool-cases (ltb 63 s)) [
  | inl over ↦ ground (arith, over)
  | inr under ↦
      generator_of-IsOf nc key s (instance_index debug host) g (ground (arith, under))
        (instance_index-lt debug host) (ground (arith, under))
]

-- Two generators that were made from host names have the same node id only if they have the same
-- service id and the same instance index.
pub node_id_injective :
    (nc nc' : List ℕ → Option Block) (key key' : List ℕ) (s s' : ℤ) (debug debug' : Bool)
    (host host' : Option (List ℕ)) (g g' : Generator)
    → new_generator_from_host_name nc key s debug host ≡ ok g
    → new_generator_from_host_name nc' key' s' debug' host' ≡ ok g'
    → g.node_id ≡ g'.node_id
    → (s ≡ s') × (instance_index debug host ≡ instance_index debug' host')
node_id_injective nc nc' key key' s s' debug debug' host host' g g' e e' same =
    let a = new_generator_from_host_name-IsOf nc key s debug host g e in
    let b = new_generator_from_host_name-IsOf nc' key' s' debug' host' g' e' in
    let services : a.service ≡ b.service =
      omega (arith, same, a.node_eq, b.node_eq, a.instance_capped, b.instance_capped) in
    let instances : a.instance ≡ b.instance = omega (arith, same, a.node_eq, b.node_eq, services) in
    (
      a.service_eq ∙ ap pos services ∙ sym b.service_eq,
      a.index_eq ∙ ap (λ (n : ℕ). ok n) instances ∙ sym b.index_eq,
    )

last_index-absent : (c : ℕ) (s : List ℕ) → All (λ x. ¬ (x ≡ c)) s → last_index c s ≡ none
unfolding last_index
last_index-absent c [] h = refl
last_index-absent c (x ∷ xs) h = rw (last_index-absent c xs h.1) (ground (arith, h.0))

last_index-last :
    (c : ℕ) (name s : List ℕ)
    → All (λ x. ¬ (x ≡ c)) s
    → last_index c (name ++ c ∷ s) ≡ some (length name)
unfolding last_index
last_index-last c [] s h = rw (last_index-absent c s h) (ground arith)
last_index-last c (x ∷ name) s h = rw (last_index-last c name s h)

drop-name {ℓ} :
    {A : Type ℓ} (name : List A) (c : A) (s : List A) → drop (suc (length name)) (name ++ c ∷ s) ≡ s
drop-name [] c s = refl
drop-name (x ∷ name) c s = drop-name name c s

-- Outside of the debug mode the index is read from what follows the last dash of the host's name;
-- condition: the name before that dash is not empty.
pub instance_index_suffix :
    (c : ℕ) (name suffix : List ℕ)
    → All (λ x. ¬ (x ≡ b'-')) suffix
    → instance_index false (some ((c ∷ name) ++ b'-' ∷ suffix)) ≡ suffix_index suffix
unfolding instance_index after_dash
instance_index_suffix c name suffix h =
    rw (last_index-last b'-' (c ∷ name) suffix h) (ap suffix_index (drop-name name b'-' suffix))

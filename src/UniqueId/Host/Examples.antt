-- ===== src/UniqueId/Host/Examples.antt =====
-- Tests and instances for the node id from a host's name.
use framego.Prelude.{ℕ, ◌≡◌, refl, false, List, [], ◌∷◌, some}
use framego.Prelude.Int.{pos}
use framego.UniqueId.Generator.{Generator, Block, ok, err, instance_index_overflow, new_generator}
use framego.UniqueId.Host.{atoi, instance_index, new_generator_from_host_name}
use framego.UniqueId.Host.NodeIds.{node_id_injective}

abbrev web_17 : List ℕ
web_17 = b'w' ∷ b'e' ∷ b'b' ∷ b'-' ∷ b'1' ∷ b'7' ∷ []

index_of_web_17 : instance_index false (some web_17) ≡ ok 17
unfolding instance_index atoi
index_of_web_17 = refl

index_too_large : instance_index false (some (b'-' ∷ b'6' ∷ [])) ≡ err instance_index_overflow
unfolding instance_index atoi
index_too_large = refl

abbrev plain_cipher : Block
plain_cipher = λ b. b

abbrev node_209 : Generator
node_209 = record {
  last_time = 0;
  node_id = 209;
  step = 0;
  block = plain_cipher;
  step_max = 1023;
  time_shift = 22;
  node_shift = 10;
}

-- Service 3, instance 17.
made :
    new_generator_from_host_name (λ key. some plain_cipher) [] (pos 3) false (some web_17)
    ≡ ok node_209
unfolding new_generator_from_host_name new_generator atoi
made = refl

node_id_injective_example :
    (pos 3 ≡ pos 3) × (instance_index false (some web_17) ≡ instance_index false (some web_17))
node_id_injective_example =
    node_id_injective (λ key. some plain_cipher) (λ key. some plain_cipher) [] [] (pos 3) (pos 3)
      false false (some web_17) (some web_17) node_209 node_209 made made refl

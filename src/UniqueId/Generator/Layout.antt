-- ===== src/UniqueId/Generator/Layout.antt =====
-- The layout of a plain id: 42 bits of time, 12 bits of node, 10 bits of step.
use Prim.Native.Nat.{bit_or}
use framego.Prelude.{ℕ, ◌+◌, ◌*◌, ◌/◌, ◌%◌, ◌^◌, ◌≤◌, ◌<◌, ◌≡◌, ◌∙◌, ap, arith}
use framego.Prelude.Bits.{bit_or-eq-add}
use framego.UniqueId.Generator.{Generator, u64, epoch, advance, compose, since_epoch, snowflake_id}

-- What `new_generator` sets up and every call keeps.
pub record IsReady (g : Generator) : Type 0 where
  pub step_capped : g.step ≤ 1023
  pub node_capped : g.node_id < 4096
  pub step_max_eq : g.step_max ≡ 1023
  pub time_shift_eq : g.time_shift ≡ 22
  pub node_shift_eq : g.node_shift ≡ 10

fields_disjoint :
    (l n s : ℕ)
    → l < 2 ^ 42
    → n < 4096
    → s ≤ 1023
    → bit_or (bit_or (u64 (l * 2 ^ 22)) (u64 (n * 2 ^ 10))) s ≡ l * 2 ^ 22 + n * 2 ^ 10 + s
fields_disjoint l n s hl hn hs =
    let el : u64 (l * 2 ^ 22) ≡ l * 2 ^ 22 = omega arith in
    let en : u64 (n * 2 ^ 10) ≡ n * 2 ^ 10 = omega arith in
    let upper = bit_or-eq-add 22 l (n * 2 ^ 10) (omega arith) in
    let packed : l * 2 ^ 22 + n * 2 ^ 10 ≡ (l * 4096 + n) * 2 ^ 10 = omega arith in
    rw (el, en, upper, packed) (bit_or-eq-add 10 (l * 4096 + n) s (omega arith))

-- With 42 bits of time left, `compose` adds its three fields up.
pub compose-eq :
    (g : Generator)
    → IsReady g
    → g.last_time < 2 ^ 42
    → compose g ≡ g.last_time * 2 ^ 22 + g.node_id * 2 ^ 10 + g.step
unfolding compose
compose-eq g r h =
    ap
      (λ (k : ℕ).
        bit_or (bit_or (u64 (g.last_time * 2 ^ k)) (u64 (g.node_id * 2 ^ g.node_shift))) g.step)
      r.time_shift_eq
    ∙ ap (λ (k : ℕ). bit_or (bit_or (u64 (g.last_time * 2 ^ 22)) (u64 (g.node_id * 2 ^ k))) g.step)
        r.node_shift_eq
    ∙ fields_disjoint g.last_time g.node_id g.step h r.node_capped r.step_capped

pub advance-IsReady : (g : Generator) (now : ℕ) → IsReady g → IsReady (advance g now)
unfolding advance
advance-IsReady g now r = ground arith

pub advance-node_id : (g : Generator) (now : ℕ) → (advance g now).node_id ≡ g.node_id
unfolding advance
advance-node_id g now = ground arith

pub advance-block : (g : Generator) (now : ℕ) → (advance g now).block ≡ g.block
unfolding advance
advance-block g now = ground arith

-- Time since the epoch, once the epoch is past.
pub since_epoch-eq : (t : ℕ) → epoch ≤ t → t < 2 ^ 64 → since_epoch t + epoch ≡ t
unfolding since_epoch
since_epoch-eq t h k = omega arith

-- A plain id gives back the time, the node and the step that it was made of, and fits 64 bits;
-- conditions: the generator has the layout of `NewGenerator`, and the time fits 42 bits.
pub snowflake_id_fields :
    (g : Generator) (t : ℕ)
    → IsReady g
    → (snowflake_id g t).0.last_time < 2 ^ 42
    → ((snowflake_id g t).1 / 2 ^ 22 ≡ (snowflake_id g t).0.last_time)
      × ((snowflake_id g t).1 / 2 ^ 10 % 2 ^ 12 ≡ g.node_id)
      × ((snowflake_id g t).1 % 2 ^ 10 ≡ (snowflake_id g t).0.step)
      × ((snowflake_id g t).1 < 2 ^ 64)
unfolding snowflake_id
snowflake_id_fields g t r h =
    let g' = advance g (since_epoch t) in
    let r' = advance-IsReady g (since_epoch t) r in
    let node = advance-node_id g (since_epoch t) in
    omega (arith, compose-eq (advance g (since_epoch t)) r' h, node, r'.step_capped, r'.node_capped)

-- ===== src/UniqueId/Generator/Order.antt =====
-- The order in which one generator makes its plain ids, whatever its clock does.
use framego.Prelude.{ℕ, suc, ◌+◌, ◌*◌, ◌^◌, ◌≤◌, ◌<◌, ◌≡◌, List, [], ◌∷◌, length, All, arith}
use framego.UniqueId.Generator.{Generator, advance, since_epoch, snowflake_id}
use framego.UniqueId.Generator.Layout.{IsReady, compose-eq, advance-IsReady, advance-node_id}

-- The plain id that a state stands for.
abbrev pub floor : Generator → ℕ
floor g = g.last_time * 2 ^ 22 + g.node_id * 2 ^ 10 + g.step

-- At most `n` more calls are made, and with a clock that leaves room for them in 42 bits.
pub record IsInEra (n : ℕ) (g : Generator) (clock : List ℕ) : Type 0 where
  pub calls : length clock ≤ n
  pub room : g.last_time + length clock < 2 ^ 42
  pub readings : All (λ t. since_epoch t + n < 2 ^ 42) clock

advance-last_time :
    (g : Generator) (now m : ℕ)
    → g.last_time + suc m < 2 ^ 42
    → now + suc m < 2 ^ 42
    → (advance g now).last_time + m < 2 ^ 42
unfolding advance
advance-last_time g now m h k = ground arith

advance-floor :
    (g : Generator) (now : ℕ)
    → IsReady g
    → g.last_time + 1 < 2 ^ 42
    → floor g < floor (advance g now)
unfolding advance
advance-floor g now r h = ground arith

-- One call of `snowflakeID` keeps the generator ready and in its era, and makes a larger id.
pub record IsNext (n : ℕ) (g : Generator) (later : List ℕ) (r : Generator × ℕ) : Type 0 where
  pub ready : IsReady r.0
  pub era : IsInEra n r.0 later
  pub id_eq : r.1 ≡ floor r.0
  pub grows : floor g < floor r.0
  pub node_eq : r.0.node_id ≡ g.node_id
  pub fits : r.1 < 2 ^ 64

pub snowflake_id-IsNext :
    (n : ℕ) (g : Generator) (t : ℕ) (later : List ℕ)
    → IsReady g
    → IsInEra n g (t ∷ later)
    → IsNext n g later (snowflake_id g t)
unfolding snowflake_id
snowflake_id-IsNext n g t later r e =
    let now : ℕ = since_epoch t in
    let ready = advance-IsReady g (since_epoch t) r in
    let room : (advance g (since_epoch t)).last_time + length later < 2 ^ 42 =
      advance-last_time g (since_epoch t) (length later) e.room (omega arith) in
    let id_eq = compose-eq (advance g (since_epoch t)) ready (omega arith) in
    record {
      ready = ready;
      era = record { calls = omega arith; room = room; readings = e.readings.1 };
      id_eq = id_eq;
      grows = advance-floor g (since_epoch t) r (omega arith);
      node_eq = advance-node_id g (since_epoch t);
      fits = omega (arith, id_eq, ready.node_capped, ready.step_capped);
    }

-- The plain ids of calls in a row, one for each reading of the clock.
abbrev pub snowflakes : Generator → List ℕ → List ℕ
snowflakes g [] = []
snowflakes g (t ∷ later) = (snowflake_id g t).1 ∷ snowflakes (snowflake_id g t).0 later

-- Each entry is above the one before it, and the first above `n`.
abbrev pub Rising : ℕ → List ℕ → Type 0
Rising n [] = Unit {0}
Rising n (x ∷ xs) = (n < x) × Rising x xs

-- Plain ids rise strictly from call to call, also where the clock stands still or is set back;
-- conditions: the generator has the layout of `NewGenerator`, and the times of the calls fit 42
-- bits.
pub snowflakes-Rising :
    (n : ℕ) (g : Generator) (clock : List ℕ)
    → IsReady g
    → IsInEra n g clock
    → Rising (floor g) (snowflakes g clock)
snowflakes-Rising n g [] r e = tt
snowflakes-Rising n g (t ∷ later) r e =
    let s = snowflake_id-IsNext n g t later r e in
    (
      omega (arith, s.grows, s.id_eq),
      rw s.id_eq (snowflakes-Rising n (snowflake_id g t).0 later s.ready s.era),
    )

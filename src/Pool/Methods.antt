-- ===== src/Pool/Methods.antt =====
-- pool/pool.go: the methods of `Pool`, cut where they give up the lock. The idle list is the plain
-- list that it represents, front first (Pool/IdleList). `active` is a number: that no `active--`
-- meets 0 is part of the invariant in Pool/System. Durations and limits are not negative.
use framego.Prelude.{
  ℕ, zero, suc, ◌+◌, ◌-◌, Bool, true, false, not, ◌&&◌, ◌||◌, List, [], ◌∷◌, Option, none, some,
  length, ltb, leb, ◌==◌, if◌then◌else◌,
}

pub record PoolConn : Type 0 where
  pub c : ℕ
  pub t : ℕ
  pub created : ℕ

pub record Config : Type 0 where
  pub max_idle : ℕ
  pub max_active : ℕ
  pub idle_timeout : ℕ
  pub wait : Bool
  pub max_conn_lifetime : ℕ

-- `ch` is the number of tokens in the channel, `none` before `lazyInit`. The channel is closed
-- exactly while `closed` holds.
pub record Pool : Type 0 where
  pub config : Config
  pub open config use *
  pub closed : Bool
  pub active : ℕ
  pub ch : Option ℕ
  pub idle : List PoolConn

unfoldable pub new_pool : Config → Pool
new_pool config = record { config = config; closed = false; active = 0; ch = none; idle = [] }

-- `p.Wait && p.MaxActive > 0`.
abbrev pub is_limited : Config → Bool
is_limited c = c.wait && ltb 0 c.max_active

-- The channel of a pool that is closed already holds no token.
unfoldable pub lazy_init : Pool → Pool
lazy_init p = elim p.ch [
  | none ↦ record p { ch = some (if p.closed then 0 else p.max_active) }
  | some tokens ↦ p
]

-- `<-p.ch`; `none` is to wait.
abbrev pub receive : Pool → Option ℕ → Option Pool
receive p none = none
receive p (some zero) = if p.closed then some p else none
receive p (some (suc tokens)) = if p.closed then some p else some (record p { ch = some tokens })

unfoldable pub take_token : Pool → Option Pool
take_token p = if is_limited p.config then (let q = lazy_init p in receive q q.ch) else some p

-- `if p.ch != nil && !p.closed { p.ch <- struct{}{} }`.
unfoldable pub give_token : Pool → Pool
give_token p = elim p.ch [
  | none ↦ p
  | some tokens ↦ if p.closed then p else record p { ch = some (tokens + 1) }
]

-- `p.active--`.
unfoldable pub forget : Pool → Pool
forget p = record p { active = p.active - 1 }

abbrev pub split_last : List PoolConn → Option (List PoolConn × PoolConn)
split_last [] = none
split_last (x ∷ []) = some ([], x)
split_last (x ∷ y ∷ xs) = elim (split_last (y ∷ xs)) [
  | none ↦ none
  | some (rest, last) ↦ some (x ∷ rest, last)
]

-- `p.idle.popBack()` and `p.idle.popFront()`, where there is one.
abbrev pub after_pop : Pool → Option (List PoolConn × PoolConn) → Option (Pool × PoolConn)
after_pop p none = none
after_pop p (some (rest, pc)) = some (record p { idle = rest }, pc)

abbrev pub split_first : List PoolConn → Option (List PoolConn × PoolConn)
split_first [] = none
split_first (x ∷ xs) = some (xs, x)

unfoldable pub pop_back : Pool → Option (Pool × PoolConn)
pop_back p = after_pop p (split_last p.idle)

unfoldable pub pop_front : Pool → Option (Pool × PoolConn)
pop_front p = after_pop p (split_first p.idle)

-- `pc.t.Add(p.IdleTimeout).Before(now)`, and the two tests of a connection that is borrowed.
unfoldable pub is_stale : Config → PoolConn → ℕ → Bool
is_stale c pc now = ltb (pc.t + c.idle_timeout) now

unfoldable pub is_young : Config → PoolConn → ℕ → Bool
is_young c pc now = c.max_conn_lifetime == 0 || ltb (now - pc.created) c.max_conn_lifetime

-- What follows the loops of `get`, with no idle connection left.
pub data Admission : Type 0 where
  get_on_closed_pool pool_exhausted : Admission
  dials : Pool → Admission

unfoldable pub admit : Pool → Admission
admit p =
    if p.closed
    then get_on_closed_pool
    else if not p.wait && (ltb 0 p.max_active && leb p.max_active p.active)
    then pool_exhausted
    else dials (record p { active = p.active + 1 })

-- After a dial that failed.
unfoldable pub dial_failed : Pool → Pool
unfolding forget give_token
dial_failed p = give_token (forget p)

-- The first half of `put`: the connection to close, if there is one.
unfoldable pub put_back : Pool → PoolConn → ℕ → Bool → Pool × Option PoolConn
put_back p pc now force_close =
    if not p.closed && not force_close
    then (let q = record p { idle = record pc { t = now } ∷ p.idle } in
        if ltb p.max_idle (length q.idle)
        then elim (pop_back q) [ none ↦ (q, none) | some (r, last) ↦ (r, some last) ]
        else (q, none))
    else (p, some pc)

-- `Close`: the pool, and the connections to close.
unfoldable pub close : Pool → Pool × List PoolConn
close p =
    if p.closed
    then (p, [])
    else (record p { closed = true; active = p.active - length p.idle; idle = [] }, p.idle)

-- `Stats`, `ActiveCount` and `IdleCount`.
unfoldable pub active_count : Pool → ℕ
active_count p = p.active

unfoldable pub idle_count : Pool → ℕ
idle_count p = length p.idle

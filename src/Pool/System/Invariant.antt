-- ===== src/Pool/System/Invariant.antt =====
-- What holds of a pool between any two stretches under its lock.
use framego.Prelude.{
  ℕ, suc, ◌+◌, ◌≤◌, ◌≡◌, refl, ◌⊎◌, inl, inr, true, false, List, [], ◌∷◌, Option, none, some,
  length, arith,
}
use framego.Pool.Methods.{
  PoolConn, Config, Pool, is_limited, new_pool, lazy_init, take_token, give_token, forget,
  split_last, pop_back, pop_front, admit, dial_failed, put_back, close,
}
use framego.Pool.System.{
  System, Event, enters, borrows, passes, fails, gets_closed, admitted, dialed, dial_fails,
  put_closed, closes, prunes, puts, exec, exec_all, initial,
}

-- The tokens in the channel, all of them before `lazyInit`.
abbrev pub tokens_left : Pool → Option ℕ → ℕ
tokens_left p none = p.max_active
tokens_left p (some tokens) = tokens

-- The open connections that are not idle.
abbrev pub busy : System → ℕ
busy y = y.testing + y.closing_in_get + y.closing_in_put + y.dialing + y.in_use

pub record Inv (y : System) : Type 0 where
  pub counted : y.pool.active ≡ length y.pool.idle + busy y
  pub tokens :
      (is_limited y.pool.config ≡ false)
      ⊎ ((y.pool.closed ≡ true)
          ⊎ (tokens_left y.pool y.pool.ch + y.seeking + busy y ≡ y.pool.max_active))
  pub capped : (y.pool.max_active ≡ 0) ⊎ (y.pool.active ≤ y.pool.max_active)
  pub idle_capped : length y.pool.idle ≤ y.pool.max_idle

split_last_cases :
    (xs : List PoolConn)
    → ((xs ≡ []) × (split_last xs ≡ none))
      ⊎ ((rest : List PoolConn) × (pc : PoolConn) × (length xs ≡ suc (length rest))
          × (split_last xs ≡ some (rest, pc)))
split_last_cases [] = inl (refl, refl)
split_last_cases (x ∷ []) = inr ([], x, refl, refl)
split_last_cases (x ∷ y ∷ xs) = elim (split_last_cases (y ∷ xs)) [
  | inl (e, _) ↦ absurd (cc)
  | inr (rest, pc, n, e) ↦ inr (x ∷ rest, pc, ground (arith, n), rw (e, split_last))
]

passes-Inv : (y : System) → Inv y → Inv (exec passes y)
unfolding exec
passes-Inv y v = ground arith

fails-Inv : (y : System) → Inv y → Inv (exec fails y)
unfolding exec
fails-Inv y v = ground arith

gets_closed-Inv : (y : System) → Inv y → Inv (exec gets_closed y)
unfolding exec forget
gets_closed-Inv y v = ground arith

dialed-Inv : (y : System) → Inv y → Inv (exec dialed y)
unfolding exec
dialed-Inv y v = ground arith

dial_fails-Inv : (y : System) → Inv y → Inv (exec dial_fails y)
unfolding exec dial_failed
dial_fails-Inv y v = ground arith

put_closed-Inv : (y : System) → Inv y → Inv (exec put_closed y)
unfolding exec forget give_token
put_closed-Inv y v = ground arith

closes-Inv : (y : System) → Inv y → Inv (exec closes y)
unfolding exec close
closes-Inv y v = ground arith

admitted-Inv : (y : System) → Inv y → Inv (exec admitted y)
unfolding exec admit
admitted-Inv y v = ground arith

borrows-Inv : (y : System) → Inv y → Inv (exec borrows y)
unfolding exec pop_front
borrows-Inv y v = ground arith

enters-Inv : (y : System) → Inv y → Inv (exec enters y)
unfolding exec take_token lazy_init
enters-Inv y v = ground arith

prunes-Inv : (now : ℕ) (y : System) → Inv y → Inv (exec (prunes now) y)
unfolding exec pop_back
prunes-Inv now y v = ground (arith, split_last_cases y.pool.idle)

puts-Inv : (pc : PoolConn) (now : ℕ) (y : System) → Inv y → Inv (exec (puts pc now) y)
unfolding exec put_back pop_back give_token
puts-Inv pc now y v = ground (arith, split_last_cases (record pc { t = now } ∷ y.pool.idle))

exec-Inv : (e : Event) (y : System) → Inv y → Inv (exec e y)
exec-Inv enters y v = enters-Inv y v
exec-Inv borrows y v = borrows-Inv y v
exec-Inv passes y v = passes-Inv y v
exec-Inv fails y v = fails-Inv y v
exec-Inv gets_closed y v = gets_closed-Inv y v
exec-Inv admitted y v = admitted-Inv y v
exec-Inv dialed y v = dialed-Inv y v
exec-Inv dial_fails y v = dial_fails-Inv y v
exec-Inv put_closed y v = put_closed-Inv y v
exec-Inv closes y v = closes-Inv y v
exec-Inv (prunes now) y v = prunes-Inv now y v
exec-Inv (puts pc now) y v = puts-Inv pc now y v

exec_all-Inv : (es : List Event) (y : System) → Inv y → Inv (exec_all es y)
unfolding exec_all
exec_all-Inv [] y v = v
exec_all-Inv (e ∷ later) y v = exec_all-Inv later (exec e y) (exec-Inv e y v)

-- However goroutines interleave in `Get`, `Put` and `Close`: `active` counts the connections that
-- are open, idle or not; it stays within `MaxActive`, where that is not 0, and the idle ones within
-- `MaxIdle`; and with `Wait`, until the pool is closed, the tokens left and the goroutines and
-- connections that each took one are `MaxActive` together.
pub exec_all-initial-Inv : (c : Config) (es : List Event) → Inv (exec_all es (initial c))
unfolding initial new_pool
exec_all-initial-Inv c es = exec_all-Inv es (initial c) (ground arith)

waits-full :
    (y : System) → Inv y → take_token y.pool ≡ none → y.seeking + busy y ≡ y.pool.max_active
unfolding take_token lazy_init
waits-full y v e = ground arith

-- In a pool that goroutines have used from its start, in any interleaving, a goroutine has to wait
-- for a token only if `MaxActive` is the number of the other goroutines that are in `get` and of
-- the connections that are not idle.
pub take_token_waits :
    (c : Config) (es : List Event)
    → take_token (exec_all es (initial c)).pool ≡ none
    → (exec_all es (initial c)).seeking + busy (exec_all es (initial c))
      ≡ (exec_all es (initial c)).pool.max_active
take_token_waits c es e = waits-full (exec_all es (initial c)) (exec_all-initial-Inv c es) e

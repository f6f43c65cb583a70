-- ===== src/Pool/System.antt =====
-- pool/pool.go: many goroutines in `Get` and `Put` of one pool. Each event is one stretch that runs
-- under the lock; the goroutines between two stretches are counted by where they stand.
pub mod Invariant
use framego.Prelude.{
  ℕ, ◌+◌, ◌-◌, Bool, true, false, ◌&&◌, List, [], ◌∷◌, Option, none, some, ltb, if◌then◌else◌,
}
use framego.Pool.Methods.{
  PoolConn, Config, Pool, new_pool, take_token, give_token, forget, pop_back, pop_front, is_stale,
  Admission, get_on_closed_pool, pool_exhausted, dials, admit, dial_failed, put_back, close,
}

-- Goroutines in `get` with no connection in hand; testing one that was idle; closing one, in `get`
-- and in `put`; dialing; and connections that the application has.
pub record System : Type 0 where
  pub pool : Pool
  pub seeking : ℕ
  pub testing : ℕ
  pub closing_in_get : ℕ
  pub closing_in_put : ℕ
  pub dialing : ℕ
  pub in_use : ℕ

pub data Event : Type 0 where
  enters borrows passes fails gets_closed admitted dialed dial_fails put_closed closes : Event
  prunes : ℕ → Event
  puts : PoolConn → ℕ → Event

entered : System → Option Pool → System
entered y none = y
entered y (some p) = record y { pool = p; seeking = y.seeking + 1 }

pruned : System → ℕ → Option (Pool × PoolConn) → System
pruned y now none = y
pruned y now (some (p, pc)) =
    if is_stale y.pool.config pc now
    then record y { pool = p; seeking = y.seeking - 1; closing_in_get = y.closing_in_get + 1 }
    else y

borrowed : System → Option (Pool × PoolConn) → System
borrowed y none = y
borrowed y (some (p, pc)) = record y { pool = p; seeking = y.seeking - 1; testing = y.testing + 1 }

-- Once the loops are over, which is when no connection is idle.
after_loops : System → List PoolConn → Admission → System
after_loops y (pc ∷ idle) a = y
after_loops y [] get_on_closed_pool = record y { seeking = y.seeking - 1 }
after_loops y [] pool_exhausted = record y { seeking = y.seeking - 1 }
after_loops y [] (dials p) = record y { pool = p; seeking = y.seeking - 1; dialing = y.dialing + 1 }

returned : System → Pool × Option PoolConn → System
returned y (p, none) = record y { pool = give_token p; in_use = y.in_use - 1 }
returned y (p, some last) = record y {
  pool = p;
  in_use = y.in_use - 1;
  closing_in_put = y.closing_in_put + 1;
}

-- An event for which no goroutine stands where it should does nothing.
unfoldable pub exec : Event → System → System
unfolding entered pruned borrowed after_loops returned
exec enters y = entered y (take_token y.pool)
exec (prunes now) y =
    if ltb 0 y.seeking && ltb 0 y.pool.idle_timeout then pruned y now (pop_back y.pool) else y
exec borrows y = if ltb 0 y.seeking then borrowed y (pop_front y.pool) else y
exec passes y =
    if ltb 0 y.testing then record y { testing = y.testing - 1; in_use = y.in_use + 1 } else y
exec fails y =
    if ltb 0 y.testing
    then record y { testing = y.testing - 1; closing_in_get = y.closing_in_get + 1 }
    else y
exec gets_closed y =
    if ltb 0 y.closing_in_get
    then record y {
      pool = forget y.pool;
      closing_in_get = y.closing_in_get - 1;
      seeking = y.seeking + 1;
    }
    else y
exec admitted y = if ltb 0 y.seeking then after_loops y y.pool.idle (admit y.pool) else y
exec dialed y =
    if ltb 0 y.dialing then record y { dialing = y.dialing - 1; in_use = y.in_use + 1 } else y
exec dial_fails y =
    if ltb 0 y.dialing then record y { pool = dial_failed y.pool; dialing = y.dialing - 1 } else y
exec (puts pc now) y = if ltb 0 y.in_use then returned y (put_back y.pool pc now false) else y
exec put_closed y =
    if ltb 0 y.closing_in_put
    then record y { pool = give_token (forget y.pool); closing_in_put = y.closing_in_put - 1 }
    else y
exec closes y = record y { pool = (close y.pool).0 }

unfoldable pub exec_all : List Event → System → System
unfolding exec
exec_all [] y = y
exec_all (e ∷ later) y = exec_all later (exec e y)

-- A pool that nobody has used.
unfoldable pub initial : Config → System
unfolding new_pool
initial config = record {
  pool = new_pool config;
  seeking = 0;
  testing = 0;
  closing_in_get = 0;
  closing_in_put = 0;
  dialing = 0;
  in_use = 0;
}

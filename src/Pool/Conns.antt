-- ===== src/Pool/Conns.antt =====
-- pool/pool.go: Get and Put over the map from connections to their `poolConn`.
use framego.Prelude.{
  ℕ, ◌≡◌, refl, ap, sym, false, List, [], Option, none, some, ==_refl, if◌then◌else◌, arith,
  Bool-cases, inl, inr,
}
use framego.Prelude.Assoc.{lookup, delete, insert, lookup-delete}
use framego.Pool.Methods.{PoolConn, Pool, put_back, forget, give_token}

pub record Conns : Type 0 where
  pub pool : Pool
  pub conn_map : List (ℕ × PoolConn)

-- The end of Get: what `get` gave is found again by its connection.
unfoldable pub register : Conns → PoolConn → Conns
register s pc = record s { conn_map = insert pc.c pc s.conn_map }

-- `panicked` follows a nil `poolConn`, with the lock held.
pub data Returned : Type 0 where
  panicked : Returned
  put_done : Conns → Option PoolConn → Returned

-- The second half of `put`, once the connection is closed.
unfoldable pub finish_put : Pool × Option PoolConn → Pool × Option PoolConn
unfolding forget give_token
finish_put (p, none) = (give_token p, none)
finish_put (p, some pc) = (give_token (forget p), some pc)

abbrev pub with_map : List (ℕ × PoolConn) → Pool × Option PoolConn → Returned
with_map m (p, closes) = put_done (record { pool = p; conn_map = m }) closes

unfoldable pub put_found : Conns → List (ℕ × PoolConn) → ℕ → Option PoolConn → Returned
unfolding finish_put put_back
put_found s m now none = if s.pool.closed then with_map m (finish_put (s.pool, none)) else panicked
put_found s m now (some pc) = with_map m (finish_put (put_back s.pool pc now false))

-- Put, and the connection that it closes, if any.
unfoldable pub put : Conns → ℕ → ℕ → Returned
unfolding put_found
put s c now = put_found s (delete c s.conn_map) now (lookup c s.conn_map)

absent_panics :
    (s : Conns) (c now : ℕ)
    → lookup c s.conn_map ≡ none
    → s.pool.closed ≡ false
    → put s c now ≡ panicked
unfolding put put_found
absent_panics s c now e is_open = rw (e, is_open) refl

-- The map of a Put that did not panic.
abbrev conns_of : Returned → List (ℕ × PoolConn)
conns_of panicked = []
conns_of (put_done s closes) = s.conn_map

map_after :
    (s s' : Conns) (m : List (ℕ × PoolConn)) (now : ℕ) (o closes : Option PoolConn)
    → put_found s m now o ≡ put_done s' closes
    → s'.conn_map ≡ m
unfolding put_found
map_after s s' m now none closes h = elim (Bool-cases s.pool.closed) [
  | inl e ↦ sym (ap conns_of (rw e at h))
  | inr e ↦ absurd (ground (rw e at h, arith))
]
map_after s s' m now (some pc) closes h = sym (ap conns_of h)

-- A second Put of a connection panics while the pool is open.
pub put_twice_panics :
    (s s' : Conns) (c now later : ℕ) (closes : Option PoolConn)
    → put s c now ≡ put_done s' closes
    → s'.pool.closed ≡ false
    → put s' c later ≡ panicked
unfolding put
put_twice_panics s s' c now later closes h is_open =
    let m = map_after s s' (delete c s.conn_map) now (lookup c s.conn_map) closes h in
    absent_panics s' c later (rw (m, lookup-delete c c s.conn_map, ==_refl c) refl) is_open

-- ===== src/Pool/Get.antt =====
-- pool/pool.go: one `get` from its start to its end, with no other goroutine in between. `test` is
-- `TestOnBorrow`, true where it is nil or gives no error. Closed connections are collected, last first.
pub mod Returned
pub mod Unlimited
use framego.Prelude.{
  ℕ, zero, suc, Bool, ◌&&◌, List, [], ◌∷◌, Option, none, some, length, ltb, if◌then◌else◌,
}
use framego.Pool.Methods.{
  PoolConn, Config, Pool, take_token, forget, pop_back, pop_front, is_stale, is_young, Admission,
  get_on_closed_pool, pool_exhausted, dials, admit,
}

abbrev pub if_stale : ℕ → Option (Pool × PoolConn) → Option (Pool × PoolConn)
if_stale now none = none
if_stale now (some (q, pc)) = if is_stale q.config pc now then some (q, pc) else none

-- The rest of a loop.
abbrev pub Loop : Type 0 → Type 0
Loop A = Pool → List PoolConn → A

abbrev pub prune_next :
    Loop (Pool × List PoolConn)
    → Pool
    → List PoolConn
    → Option (Pool × PoolConn)
    → Pool × List PoolConn
prune_next rest p closes none = (p, closes)
prune_next rest p closes (some (q, pc)) = rest (forget q) (pc ∷ closes)

-- At most as many stale connections as were idle, from the back.
unfoldable pub prune : ℕ → ℕ → Loop (Pool × List PoolConn)
unfolding pop_back is_stale forget
prune zero now p closes = (p, closes)
prune (suc n) now p closes = prune_next (prune n now) p closes (if_stale now (pop_back p))

pub data Borrowed : Type 0 where
  none_idle : Pool → List PoolConn → Borrowed
  borrowed : Pool → PoolConn → List PoolConn → Borrowed

abbrev pub borrow_next :
    Loop Borrowed
    → (PoolConn → Bool)
    → ℕ
    → Pool
    → List PoolConn
    → Option (Pool × PoolConn)
    → Borrowed
borrow_next rest test now p closes none = none_idle p closes
borrow_next rest test now p closes (some (q, pc)) =
    let other = rest (forget q) (pc ∷ closes) in
    if test pc && is_young q.config pc now then borrowed q pc closes else other

-- From the front, until one passes its tests.
unfoldable pub borrow : ℕ → (PoolConn → Bool) → ℕ → Loop Borrowed
unfolding pop_front is_young forget
borrow zero test now p closes = none_idle p closes
borrow (suc n) test now p closes = borrow_next (borrow n test now) test now p closes (pop_front p)

-- `dial` is to dial, with the place that is taken; `refused` is an error.
pub data Got : Type 0 where
  waits : Got
  refused : Pool → List PoolConn → Got
  reused : Pool → PoolConn → List PoolConn → Got
  dial : Pool → List PoolConn → Got

abbrev pub admitted : Pool → List PoolConn → Admission → Got
admitted p closes get_on_closed_pool = refused p closes
admitted p closes pool_exhausted = refused p closes
admitted p closes (dials q) = dial q closes

abbrev pub after_borrow : Borrowed → Got
after_borrow (borrowed p pc closes) = reused p pc closes
after_borrow (none_idle p closes) = admitted p closes (admit p)

abbrev pub prune_if : Bool → ℕ → Pool → Pool × List PoolConn
prune_if timed now p = if timed then prune (length p.idle) now p [] else (p, [])

unfoldable pub after_token : (PoolConn → Bool) → ℕ → Pool → Got
unfolding prune borrow admit
after_token test now p =
    let (q, closes) = prune_if (ltb 0 p.idle_timeout) now p in
    after_borrow (borrow (length q.idle) test now q closes)

abbrev pub with_token : (PoolConn → Bool) → ℕ → Option Pool → Got
with_token test now none = waits
with_token test now (some p) = after_token test now p

unfoldable pub get : Pool → ℕ → (PoolConn → Bool) → Got
unfolding take_token after_token
get p now test = with_token test now (take_token p)

-- ===== src/Pool/Get/Returned.antt =====
-- What a Put leaves idle.
use framego.Prelude.{
  ℕ, ◌+◌, ◌≡◌, ◌≢◌, refl, sym, subst, Bool, true, false, not, ◌&&◌, List, [], ◌∷◌, Option, none,
  some, length, ltb, if◌then◌else◌,
}
use framego.Prelude.Assoc.{lookup, delete}
use framego.Pool.Methods.{
  PoolConn, Config, Pool, give_token, forget, pop_back, put_back, split_last, after_pop,
}
use framego.Pool.Conns.{Conns, Returned, panicked, put_done, finish_put, put_found, put}
use framego.Pool.Get.Unlimited.{
  IsOther, AreGood, IsPopped, IsReady, IsReady-forget, IsPopped-split_last,
}

pub IsOther-outside :
    (P : ℕ → Type 0) (c : ℕ) (l : List PoolConn) → AreGood P l → (P c → ⊥) → IsOther c l
IsOther-outside P c [] good h = tt
IsOther-outside P c (x ∷ xs) good h = (λ e. h (subst P e good.0), IsOther-outside P c xs good.2 h)

pub AreGood-map :
    (P Q : ℕ → Type 0) (c : ℕ) (l : List PoolConn)
    → ((i : ℕ) → i ≢ c → P i → Q i)
    → IsOther c l
    → AreGood P l
    → AreGood Q l
AreGood-map P Q c [] f o good = tt
AreGood-map P Q c (x ∷ xs) f o good = (f x.c o.0 good.0, good.1, AreGood-map P Q c xs f o.1 good.2)

module _ (P : ℕ → Type 0) (config : Config) where
  IsReady-if :
      (b : Bool) (p q : Pool)
      → IsReady P config p
      → IsReady P config q
      → IsReady P config (if b then p else q)
  IsReady-if true p q h k = h
  IsReady-if false p q h k = k

  IsReady-both :
      (b : Bool) (p q : Pool × Option PoolConn)
      → IsReady P config p.0
      → IsReady P config q.0
      → IsReady P config (if b then p else q).0
  IsReady-both true p q h k = h
  IsReady-both false p q h k = k

  give_token-IsReady : (p : Pool) → IsReady P config p → IsReady P config (give_token p)
  unfolding give_token
  give_token-IsReady p ready = go p.ch
    where
      go :
          (o : Option ℕ)
          → IsReady P config (elim o [
            | none ↦ p
            | some tokens ↦ if p.closed then p else record p { ch = some (tokens + 1) }
          ])
      go none = ready
      go (some tokens) =
          IsReady-if p.closed p (record p { ch = some (tokens + 1) }) ready
            (ready.0, ready.1, ready.2)

  finish_put-IsReady :
      (q : Pool × Option PoolConn) → IsReady P config q.0 → IsReady P config (finish_put q).0
  unfolding finish_put
  finish_put-IsReady (p, none) ready = give_token-IsReady p ready
  finish_put-IsReady (p, some pc) ready =
      give_token-IsReady (forget p) (IsReady-forget P config p ready)

  abbrev trimmed : Pool → Option (Pool × PoolConn) → Pool × Option PoolConn
  trimmed q none = (q, none)
  trimmed q (some (r, last)) = (r, some last)

  trimmed-IsReady :
      (q : Pool) (o : Option (List PoolConn × PoolConn))
      → IsReady P config q
      → IsPopped P o
      → IsReady P config (trimmed q (after_pop q o)).0
  trimmed-IsReady q none ready popped = ready
  trimmed-IsReady q (some (rest, last)) ready popped = (ready.0, ready.1, popped.0)

  put_back-IsReady :
      (p : Pool) (pc : PoolConn) (now : ℕ)
      → IsReady P config p
      → P pc.c
      → IsOther pc.c p.idle
      → IsReady P config (put_back p pc now false).0
  unfolding put_back pop_back
  put_back-IsReady p pc now ready good other =
      let q : Pool = record p { idle = record pc { t = now } ∷ p.idle } in
      let ready_q : IsReady P config q = (ready.0, ready.1, (good, other, ready.2)) in
      IsReady-both (not p.closed && not false)
        (if ltb p.config.max_idle (length q.idle)
          then trimmed q (after_pop q (split_last q.idle))
          else (q, none))
        (p, some pc)
        (IsReady-both (ltb p.config.max_idle (length q.idle))
          (trimmed q (after_pop q (split_last q.idle))) (q, none)
          (trimmed-IsReady q (split_last q.idle) ready_q (IsPopped-split_last P q.idle ready_q.2))
          ready_q)
        ready

  -- A Put that is done leaves the pool so, and its connection is in the map no more.
  abbrev pub IsPut : ℕ → Conns → Returned → Type 0
  IsPut c s panicked = ⊥
  IsPut c s (put_done s' closes) = IsReady P config s'.pool × (s'.conn_map ≡ delete c s.conn_map)

  pub put-IsPut :
      (s : Conns) (c now : ℕ) (pc : PoolConn)
      → lookup c s.conn_map ≡ some pc
      → pc.c ≡ c
      → IsReady P config s.pool
      → P c
      → IsOther c s.pool.idle
      → IsPut c s (put s c now)
  unfolding put put_found
  put-IsPut s c now pc found same ready good other = rw found (
    finish_put-IsReady (put_back s.pool pc now false) (
        put_back-IsReady s.pool pc now ready (subst P (sym same) good)
          (subst (λ (i : ℕ). IsOther i s.pool.idle) (sym same) other)),
    refl,
  )

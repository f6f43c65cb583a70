-- ===== src/Pool/Get/Unlimited.antt =====
-- A Get of an open pool without a limit always gives a connection, and what it leaves idle.
use framego.Prelude.{
  ℕ, zero, suc, ◌+◌, ◌≡◌, ◌≢◌, refl, sym, ap, ◌∙◌, subst, Bool, true, false, ◌&&◌, List, [], ◌∷◌,
  Option, none, some, length, ltb, arith, Bool-cases, inl, inr,
}
use framego.Pool.Methods.{
  PoolConn, Config, Pool, take_token, forget, pop_back, pop_front, is_stale, is_young, admit,
  Admission, dials, split_last, split_first, after_pop,
}
use framego.Pool.Get.{
  if_stale, prune_next, prune, Borrowed, none_idle, borrowed, borrow_next, borrow, Got, waits,
  refused, reused, dial, admitted, after_borrow, after_token, prune_if, get,
}

-- This connection is not idle.
abbrev pub IsOther : ℕ → List PoolConn → Type 0
IsOther c [] = Unit {0}
IsOther c (x ∷ xs) = (x.c ≢ c) × IsOther c xs

abbrev OthersPopped : ℕ → Option (List PoolConn × PoolConn) → Type 0
OthersPopped c none = Unit {0}
OthersPopped c (some (rest, pc)) = IsOther c rest × (pc.c ≢ c)

IsOther-split_last : (c : ℕ) (l : List PoolConn) → IsOther c l → OthersPopped c (split_last l)
IsOther-split_last c [] h = tt
IsOther-split_last c (x ∷ []) h = (tt, h.0)
IsOther-split_last c (x ∷ y ∷ xs) h =
    push (split_last (y ∷ xs)) h.0 (IsOther-split_last c (y ∷ xs) h.1)
  where
    push :
        (o : Option (List PoolConn × PoolConn))
        → (x.c ≢ c)
        → OthersPopped c o
        → OthersPopped c (elim o [ none ↦ none | some (rest, last) ↦ some (x ∷ rest, last) ])
    push none d k = tt
    push (some (rest, last)) d k = ((d, k.0), k.1)

module _ (P : ℕ → Type 0) where
  -- No connection is idle twice, and each has the property.
  abbrev pub AreGood : List PoolConn → Type 0
  AreGood [] = Unit {0}
  AreGood (x ∷ xs) = P x.c × IsOther x.c xs × AreGood xs

  abbrev pub IsPopped : Option (List PoolConn × PoolConn) → Type 0
  IsPopped none = Unit {0}
  IsPopped (some (rest, pc)) = AreGood rest × P pc.c × IsOther pc.c rest

  -- A pool that is open, with this configuration, whose idle connections are good.
  abbrev pub IsReady : Config → Pool → Type 0
  IsReady config p = (p.config ≡ config) × (p.closed ≡ false) × AreGood p.idle

  -- What a Get gives is good, and is idle no more.
  abbrev pub IsGiven : Config → Got → Type 0
  IsGiven config waits = ⊥
  IsGiven config (refused p closes) = ⊥
  IsGiven config (reused p pc closes) = IsReady config p × P pc.c × IsOther pc.c p.idle
  IsGiven config (dial p closes) = IsReady config p × (p.idle ≡ [])

  push-IsPopped :
      (x : PoolConn) (o : Option (List PoolConn × PoolConn))
      → P x.c
      → OthersPopped x.c o
      → IsPopped o
      → IsPopped (elim o [ none ↦ none | some (rest, last) ↦ some (x ∷ rest, last) ])
  push-IsPopped x none p others good = tt
  push-IsPopped x (some (rest, last)) p others good =
      ((p, others.0, good.0), good.1, (λ e. others.1 (sym e), good.2))

  pub IsPopped-split_last : (l : List PoolConn) → AreGood l → IsPopped (split_last l)
  IsPopped-split_last [] h = tt
  IsPopped-split_last (x ∷ []) h = (tt, h.0, tt)
  IsPopped-split_last (x ∷ y ∷ xs) h =
      push-IsPopped x (split_last (y ∷ xs)) h.0 (IsOther-split_last x.c (y ∷ xs) h.1)
        (IsPopped-split_last (y ∷ xs) h.2)

  IsPopped-split_first : (l : List PoolConn) → AreGood l → IsPopped (split_first l)
  IsPopped-split_first [] h = tt
  IsPopped-split_first (x ∷ xs) h = (h.2, h.0, h.1)

  abbrev PoppedReady : Config → Option (Pool × PoolConn) → Type 0
  PoppedReady config none = Unit {0}
  PoppedReady config (some (q, pc)) = IsReady config q × P pc.c × IsOther pc.c q.idle

  PoppedReady-after_pop :
      (config : Config) (p : Pool) (o : Option (List PoolConn × PoolConn))
      → IsReady config p
      → IsPopped o
      → PoppedReady config (after_pop p o)
  PoppedReady-after_pop config p none ready popped = tt
  PoppedReady-after_pop config p (some (rest, pc)) ready popped =
      ((ready.0, ready.1, popped.0), popped.1, popped.2)

  pub IsReady-forget : (config : Config) (p : Pool) → IsReady config p → IsReady config (forget p)
  unfolding forget
  IsReady-forget config p ready = ready

  prune_next-IsReady :
      (config : Config) (now : ℕ) (rest : Pool → List PoolConn → Pool × List PoolConn) (p : Pool)
      (closes : List PoolConn) (o : Option (Pool × PoolConn))
      → ((q : Pool) (cs : List PoolConn) → IsReady config q → IsReady config (rest q cs).0)
      → IsReady config p
      → PoppedReady config o
      → IsReady config (prune_next rest p closes (if_stale now o)).0
  prune_next-IsReady config now rest p closes none step ready popped = ready
  prune_next-IsReady config now rest p closes (some (q, pc)) step ready popped =
      elim (Bool-cases (is_stale q.config pc now)) [
        | inl e ↦ rw e (step (forget q) (pc ∷ closes) (IsReady-forget config q popped.0))
        | inr e ↦ rw e ready
      ]

  prune-IsReady :
      (config : Config) (n now : ℕ) (p : Pool) (closes : List PoolConn)
      → IsReady config p
      → IsReady config (prune n now p closes).0
  unfolding prune pop_back
  prune-IsReady config zero now p closes ready = ready
  prune-IsReady config (suc n) now p closes ready =
      prune_next-IsReady config now (prune n now) p closes (pop_back p)
        (λ q cs r. prune-IsReady config n now q cs r) ready
        (PoppedReady-after_pop config p (split_last p.idle) ready
          (IsPopped-split_last p.idle ready.2))

  -- The end of a borrowing: nothing is idle where none passes.
  abbrev IsEnd : Config → ℕ → Borrowed → Type 0
  IsEnd config n (none_idle p closes) = IsReady config p × (length p.idle ≡ 0)
  IsEnd config n (borrowed p pc closes) = IsReady config p × P pc.c × IsOther pc.c p.idle

  borrow_next-IsEnd :
      (config : Config) (n : ℕ) (rest : Pool → List PoolConn → Borrowed) (test : PoolConn → Bool)
      (now : ℕ) (p : Pool) (closes : List PoolConn) (l : List PoolConn)
      → length l ≡ suc n
      → IsReady config p
      → AreGood l
      → ((q : Pool) (cs : List PoolConn)
          → length q.idle ≡ n
          → IsReady config q
          → IsEnd config n (rest q cs))
      → IsEnd config (suc n) (borrow_next rest test now p closes (after_pop p (split_first l)))
  unfolding forget
  borrow_next-IsEnd config n rest test now p closes [] e ready good step =
      absurd (ground (e, arith))
  borrow_next-IsEnd config n rest test now p closes (x ∷ xs) e ready good step =
      elim (Bool-cases (test x && is_young p.config x now)) [
        | inl t ↦ rw t ((ready.0, ready.1, good.2), good.0, good.1)
        | inr f ↦ rw f (
            widen (rest (forget (record p { idle = xs })) (x ∷ closes)) (
              step (forget (record p { idle = xs })) (x ∷ closes) (ground (e, arith))
                (ready.0, ready.1, good.2)))
      ]
    where
      widen : (b : Borrowed) → IsEnd config n b → IsEnd config (suc n) b
      widen (none_idle q cs) h = h
      widen (borrowed q pc cs) h = h

  borrow-IsEnd :
      (config : Config) (n : ℕ) (test : PoolConn → Bool) (now : ℕ) (p : Pool)
      (closes : List PoolConn)
      → length p.idle ≡ n
      → IsReady config p
      → IsEnd config n (borrow n test now p closes)
  unfolding borrow pop_front
  borrow-IsEnd config zero test now p closes e ready = (ready, e)
  borrow-IsEnd config (suc n) test now p closes e ready =
      borrow_next-IsEnd config n (borrow n test now) test now p closes p.idle e ready ready.2
        (λ q cs i r. borrow-IsEnd config n test now q cs i r)

  length_zero : (l : List PoolConn) → length l ≡ 0 → l ≡ []
  length_zero [] e = refl
  length_zero (x ∷ xs) e = absurd (ground (e, arith))

  admit_unlimited :
      (p : Pool)
      → p.closed ≡ false
      → p.config.max_active ≡ 0
      → admit p ≡ dials (record p { active = p.active + 1 })
  unfolding admit
  admit_unlimited p is_open no_limit = ground (is_open, no_limit, arith)

  after_borrow-IsGiven :
      (config : Config) (n : ℕ) (b : Borrowed)
      → config.max_active ≡ 0
      → IsEnd config n b
      → IsGiven config (after_borrow b)
  unfolding admit
  after_borrow-IsGiven config n (none_idle p closes) no_limit (ready, e) =
      subst (λ (x : Admission). IsGiven config (admitted p closes x))
        (sym (admit_unlimited p ready.1 (ap (λ (c : Config). c.max_active) ready.0 ∙ no_limit)))
        ((ready.0, ready.1, ready.2), length_zero p.idle e)
  after_borrow-IsGiven config n (borrowed p pc closes) no_limit h = h

  prune_if-IsReady :
      (config : Config) (timed : Bool) (now : ℕ) (p : Pool)
      → IsReady config p
      → IsReady config (prune_if timed now p).0
  prune_if-IsReady config true now p ready = prune-IsReady config (length p.idle) now p [] ready
  prune_if-IsReady config false now p ready = ready

  take_token_unlimited :
      (config : Config) (p : Pool)
      → config.max_active ≡ 0
      → p.config ≡ config
      → take_token p ≡ some p
  unfolding take_token
  take_token_unlimited config p no_limit same =
      let e : p.config.max_active ≡ 0 = rw same no_limit in
      elim (Bool-cases p.wait) [ inl w ↦ rw (w, e) refl | inr w ↦ rw w refl ]

  -- A Get of an open pool without a limit neither waits nor fails: it gives a connection that was idle, which has what the idle ones have and is idle no more, or leave to dial where none is left.
  pub get-IsGiven :
      (config : Config) (p : Pool) (now : ℕ) (test : PoolConn → Bool)
      → config.max_active ≡ 0
      → IsReady config p
      → IsGiven config (get p now test)
  unfolding get after_token
  get-IsGiven config p now test no_limit ready =
      let (q, closes) = prune_if (ltb 0 p.config.idle_timeout) now p in
      let ready_q = prune_if-IsReady config (ltb 0 p.config.idle_timeout) now p ready in
      rw (take_token_unlimited config p no_limit ready.0) (
        after_borrow-IsGiven config (length (prune_if (ltb 0 p.config.idle_timeout) now p).0.idle)
          (borrow (length (prune_if (ltb 0 p.config.idle_timeout) now p).0.idle) test now
            (prune_if (ltb 0 p.config.idle_timeout) now p).0
            (prune_if (ltb 0 p.config.idle_timeout) now p).1)
          no_limit
          (borrow-IsEnd config (length (prune_if (ltb 0 p.config.idle_timeout) now p).0.idle) test
            now (prune_if (ltb 0 p.config.idle_timeout) now p).0
            (prune_if (ltb 0 p.config.idle_timeout) now p).1 refl ready_q))

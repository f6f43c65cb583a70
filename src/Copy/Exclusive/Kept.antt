-- ===== src/Copy/Exclusive/Kept.antt =====
-- The invariant of the copier, and that each event keeps it.
use framego.Prelude.{
  ℕ, ◌+◌, ◌<◌, ◌≡◌, ◌≢◌, refl, sym, ap, ◌∙◌, subst, some, ◌==◌, ==_refl, ◌≤◌, arith, Bool-cases,
  inl, inr,
}
use framego.Prelude.Assoc.{lookup, lookup-insert}
use framego.Pool.Methods.{PoolConn, Pool, new_pool}
use framego.Pool.Get.{Got, waits, refused, reused, dial}
use framego.Pool.Get.Unlimited.{IsOther, IsReady, IsGiven}
use framego.Pool.Get.Returned.{AreGood-map}
use framego.Pool.Conns.{Conns, register}
use framego.Copy.Gob.{
  Gob, gob_pool_config, Phase, out, fresh, encoded, Copier, Answer, goes_on, set_at, new_copier,
  is_encoded, dialed, took, start_with,
}
use framego.Copy.Exclusive.{IsGob}

pub set_at_same : {A : Type 0} → (k : ℕ) (a : A) (f : ℕ → A) → set_at k a f k ≡ a
set_at_same k a f = rw (==_refl k) refl

pub set_at_other : {A : Type 0} → (k i : ℕ) (a : A) (f : ℕ → A) → i ≢ k → set_at k a f i ≡ f i
set_at_other k i a f d = elim (Bool-cases (i == k)) [
  | inl e ↦ absurd (ground (e, d, arith))
  | inr e ↦ rw e refl
]

module _ {C V D : Type 0} (gob : Gob C V D) (IsClean : C → Type 0) where
  -- What a codec is in a phase.
  abbrev pub Holds : C → Phase V → Type 0
  Holds codec out = IsClean codec
  Holds codec fresh = IsClean codec
  Holds codec (encoded src) =
      (c : C) × (IsClean c × ((codec ≡ (gob.encode c src).0) × ((gob.encode c src).1 ≡ is_encoded)))

  -- An idle codec is in no hand.
  abbrev pub IsFree : Copier C V → ℕ → Type 0
  IsFree st i = (st.phase i ≡ out) × (i < st.next)

  abbrev pub conns_of : Copier C V → Conns
  conns_of st = st.gob_codec_pool

  pub record Inv (st : Copier C V) : Type 0 where
    pub ready : IsReady (IsFree st) gob_pool_config (conns_of st).pool
    pub holds : (i : ℕ) → Holds (st.codecs i) (st.phase i)
    pub in_hand :
        (i : ℕ)
        → st.phase i ≢ out
        → (i < st.next)
          × ((pc : PoolConn) × ((lookup i (conns_of st).conn_map ≡ some pc) × (pc.c ≡ i)))

  pub new_copier-Inv : IsGob gob IsClean → Inv (new_copier gob)
  unfolding new_copier new_pool
  new_copier-Inv is_gob = record {
    ready = (refl, refl, tt);
    holds = λ i. is_gob.new_clean;
    in_hand = λ i d. absurd (d refl);
  }

  pub Holds-set_at :
      (codecs : ℕ → C) (phase : ℕ → Phase V) (k : ℕ) (codec : C) (p : Phase V)
      → ((i : ℕ) → Holds (codecs i) (phase i))
      → Holds codec p
      → (i : ℕ) → Holds (set_at k codec codecs i) (set_at k p phase i)
  Holds-set_at codecs phase k codec p all h i = elim (Bool-cases (i == k)) [
    | inl e ↦ rw e h
    | inr e ↦ rw e (all i)
  ]

  -- The codec of a goroutine is in the map once it is registered, and the others as before.
  registered :
      (s : Conns) (pc : PoolConn) (i : ℕ)
      → i ≢ pc.c
      → lookup i (register s pc).conn_map ≡ lookup i s.conn_map
  unfolding register
  registered s pc i d = elim (Bool-cases (pc.c == i)) [
    | inl e ↦ absurd (ground (e, d, arith))
    | inr e ↦ rw (lookup-insert i pc.c pc s.conn_map, e) refl
  ]

  registered_self : (s : Conns) (pc : PoolConn) → lookup pc.c (register s pc).conn_map ≡ some pc
  unfolding register
  registered_self s pc = rw (lookup-insert pc.c pc.c pc s.conn_map, ==_refl pc.c) refl

  IsFree-kept :
      (st : Copier C V) (next c : ℕ) (p : Phase V)
      → (st.next ≤ next)
      → (i : ℕ) → i ≢ c
      → IsFree st i
      → (set_at c p st.phase i ≡ out) × (i < next)
  IsFree-kept st next c p le i d free =
      (set_at_other c i p st.phase d ∙ free.0, ground (free.1, le, arith))

  -- With a connection that is idle no more, and whose codec is clean.
  took-Inv :
      (st : Copier C V) (codecs : ℕ → C) (next : ℕ) (p : Pool) (pc : PoolConn)
      → Inv st
      → (st.next ≤ next)
      → (pc.c < next)
      → ((i : ℕ) → Holds (codecs i) (set_at pc.c fresh st.phase i))
      → IsReady (IsFree st) gob_pool_config p
      → IsOther pc.c p.idle
      → Inv (
          took gob
            (record st { codecs = codecs; next = next })
            (record (conns_of st) { pool = p })
            pc)
  unfolding register
  took-Inv st codecs next p pc inv le lt holds ready other =
      let s : Conns = record (conns_of st) { pool = p } in
      record {
        ready = (
          ready.0,
          ready.1,
          AreGood-map (IsFree st) _ pc.c p.idle (IsFree-kept st next pc.c fresh le) other ready.2,
        );
        holds = holds;
        in_hand = λ i d. elim (Bool-cases (i == pc.c)) [
          | inl e ↦
              let same : i ≡ pc.c = ground (e, arith) in
              (
                ground (same, lt, arith),
                (
                  pc,
                  (
                    ap (λ (j : ℕ). lookup j (register s pc).conn_map) same ∙ registered_self s pc,
                    sym same,
                  ),
                ),
              )
          | inr e ↦
              let differs : i ≢ pc.c = λ x. ground (x, e, arith) in
              let (below, (found, (at, c))) =
                inv.in_hand i (λ o. d (set_at_other pc.c i fresh st.phase differs ∙ o)) in
              (ground (below, le, arith), (found, (registered s pc i differs ∙ at, c)))
        ];
      }

  clean_out : (st : Copier C V) → Inv st → (c : ℕ) → st.phase c ≡ out → IsClean (st.codecs c)
  clean_out st inv c e = subst (Holds (st.codecs c)) e (inv.holds c)

  pub clean_fresh :
      (st : Copier C V) → Inv st → (c : ℕ) → st.phase c ≡ fresh → IsClean (st.codecs c)
  clean_fresh st inv c e = subst (Holds (st.codecs c)) e (inv.holds c)

  fresh-Holds :
      (st : Copier C V)
      → Inv st
      → (c : ℕ) → st.phase c ≡ out
      → (i : ℕ) → Holds (st.codecs i) (set_at c fresh st.phase i)
  fresh-Holds st inv c e i = elim (Bool-cases (i == c)) [
    | inl same ↦
        rw same
          (subst (λ (j : ℕ). IsClean (st.codecs j)) (ground (same, arith)) (clean_out st inv c e))
    | inr d ↦ rw d (inv.holds i)
  ]

  -- The answer, and the invariant after it.
  abbrev pub IsStep : Answer D → Type 0 → Copier C V × Answer D → Type 0
  IsStep answer succeeds result = (result.1 ≡ answer) × (succeeds → Inv result.0)

  pub start_with-IsStep :
      (st : Copier C V) (now : ℕ) (g : Got)
      → IsGob gob IsClean
      → Inv st
      → IsGiven (IsFree st) gob_pool_config g
      → IsStep goes_on (Unit {0}) (start_with gob st (conns_of st) now g)
  start_with-IsStep st now waits is_gob inv given = absurd given
  start_with-IsStep st now (refused p closes) is_gob inv given = absurd given
  start_with-IsStep st now (reused p pc closes) is_gob inv given = (
    refl,
    λ u.
        took-Inv st st.codecs st.next p pc inv (ground arith) given.1.1
          (fresh-Holds st inv pc.c given.1.0) given.0 given.2,
  )
  start_with-IsStep st now (dial p closes) is_gob inv given = (
    refl,
    λ u.
        took-Inv st (set_at st.next gob.new_gob_codec st.codecs) (st.next + 1) p (dialed gob st now)
          inv (ground arith) (ground arith)
          (Holds-set_at st.codecs st.phase st.next gob.new_gob_codec fresh inv.holds
            is_gob.new_clean)
          given.0 (subst (IsOther st.next) (sym given.1) tt),
  )

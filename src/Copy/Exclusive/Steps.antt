-- ===== src/Copy/Exclusive/Steps.antt =====
-- Each event of the copier answers as promised.
use framego.Prelude.{
  ℕ, ◌<◌, ◌≡◌, ◌≢◌, refl, sym, ap, ◌∙◌, subst, true, false, List, Option, none, some, ◌==◌,
  if◌then◌else◌, arith, Bool-cases, inl, inr,
}
use framego.Prelude.Assoc.{lookup, lookup-delete}
use framego.Errors.{Cause, wrap}
use framego.Pool.Methods.{PoolConn}
use framego.Pool.Get.{get}
use framego.Pool.Get.Unlimited.{get-IsGiven}
use framego.Pool.Get.Returned.{IsOther-outside, AreGood-map, IsPut, put-IsPut}
use framego.Pool.Conns.{Returned, panicked, put_done, put}
use framego.Copy.{error_encoding, decoded}
use framego.Copy.Gob.{
  Gob, Encoding, is_encoded, fails, raises, panics, gob_pool_config, Phase, out, fresh, encoded,
  Copier, Event, starts, encodes, decodes, Answer, goes_on, ends, set_at, after_put, give_back,
  encoded_at, encode_in, ended, decoded_at, decode_in, exec,
}
use framego.Copy.Exclusive.{
  IsGob, expected, expected_encode, encode_expected, decode_expected, HasSucceeded, Reached, begun,
  then_,
}
use framego.Copy.Exclusive.Kept.{
  set_at_same, set_at_other, Holds, IsFree, conns_of, Inv, new_copier-Inv, Holds-set_at,
  clean_fresh, IsStep, start_with-IsStep,
}

fresh_not_out : {V P : Type 0} {p : Phase V} → p ≡ fresh → p ≡ out → P
fresh_not_out e o = absurd (ground (sym e ∙ o, arith))

module _ {C V D : Type 0} (gob : Gob C V D) (IsClean : C → Type 0) where
  after_put-IsStep :
      (st : Copier C V) (codecs : ℕ → C) (c : ℕ) (answer : Answer D) (r : Returned)
      → Inv gob IsClean st
      → IsPut
          (λ i. (set_at c out st.phase i ≡ out) × (i < st.next))
          gob_pool_config
          c
          (conns_of gob IsClean st)
          r
      → IsStep gob IsClean answer
          ((i : ℕ) → Holds gob IsClean (codecs i) (set_at c out st.phase i))
          (after_put gob (record st { codecs = codecs }) c answer r)
  after_put-IsStep st codecs c answer panicked inv put_lem = absurd put_lem
  after_put-IsStep st codecs c answer (put_done s closes) inv (ready, same) = (
    refl,
    λ holds. record {
      ready = ready;
      holds = holds;
      in_hand = λ i d. elim (Bool-cases (i == c)) [
        | inl e ↦ absurd (d (rw e refl))
        | inr e ↦
            let differs : i ≢ c = λ x. ground (x, e, arith) in
            let (below, (found, (at, named))) =
              inv.in_hand i (λ o. d (set_at_other c i out st.phase differs ∙ o)) in
            (
              below,
              (
                found,
                (
                  ap (λ (m : List (ℕ × PoolConn)). lookup i m) same
                      ∙ (lookup-delete i c (conns_of gob IsClean st).conn_map
                          ∙ kept c i (lookup i (conns_of gob IsClean st).conn_map) differs
                          ∙ at),
                  named,
                ),
              ),
            )
      ];
    },
  )
    where
      kept : (c i : ℕ) (o : Option PoolConn) → i ≢ c → (if c == i then none else o) ≡ o
      kept c i o d = elim (Bool-cases (c == i)) [
        | inl e ↦ absurd (ground (e, d, arith))
        | inr e ↦ rw e refl
      ]

  give_back-IsStep :
      (st : Copier C V) (codecs : ℕ → C) (c now : ℕ) (answer : Answer D)
      → Inv gob IsClean st
      → st.phase c ≢ out
      → IsStep gob IsClean answer
          ((i : ℕ) → Holds gob IsClean (codecs i) (set_at c out st.phase i))
          (give_back gob (record st { codecs = codecs }) c now answer)
  give_back-IsStep st codecs c now answer inv busy =
      let (below, (pc, (found, named))) = inv.in_hand c busy in
      let s = conns_of gob IsClean st in
      let other =
        IsOther-outside (IsFree gob IsClean st) c s.pool.idle inv.ready.2 (λ free. busy free.0) in
      after_put-IsStep st codecs c answer (put s c now) inv (
        put-IsPut (λ i. (set_at c out st.phase i ≡ out) × (i < st.next)) gob_pool_config s c now pc
          found named
          (
            inv.ready.0,
            inv.ready.1,
            AreGood-map (IsFree gob IsClean st) _ c s.pool.idle
                (λ i d free. (set_at_other c i out st.phase d ∙ free.0, free.1)) other inv.ready.2,
          )
          (set_at_same c out st.phase, below) other)

  encoded_at-IsStep :
      (st : Copier C V) (c : ℕ) (src : V) (now : ℕ) (r : C × Encoding)
      → Inv gob IsClean st
      → st.phase c ≡ fresh
      → gob.encode (st.codecs c) src ≡ r
      → IsStep gob IsClean
          (expected_encode r.1)
          (expected_encode {D = D} r.1 ≡ goes_on)
          (encoded_at gob st c src now r)
  encoded_at-IsStep st c src now (codec, is_encoded) inv e r = (
    refl,
    λ u. record {
      ready = (
        inv.ready.0,
        inv.ready.1,
        AreGood-map (IsFree gob IsClean st) _ c (conns_of gob IsClean st).pool.idle
            (λ i d free. (set_at_other c i (encoded src) st.phase d ∙ free.0, free.1))
            (IsOther-outside (IsFree gob IsClean st) c (conns_of gob IsClean st).pool.idle
              inv.ready.2 (λ free. fresh_not_out e free.0))
            inv.ready.2,
      );
      holds = Holds-set_at gob IsClean st.codecs st.phase c codec (encoded src) inv.holds (
        st.codecs c,
        (
          clean_fresh gob IsClean st inv c e,
          (sym (ap (λ (x : C × Encoding). x.0) r), ap (λ (x : C × Encoding). x.1) r),
        ),
      );
      in_hand = λ i d. elim (Bool-cases (i == c)) [
        | inl same ↦
            subst
              (λ (j : ℕ).
                (j < st.next)
                × ((pc : PoolConn) × ((lookup j (conns_of gob IsClean st).conn_map ≡ some pc)
                      × (pc.c ≡ j))))
              (sym (at_same i c same)) (inv.in_hand c (λ o. fresh_not_out e o))
        | inr differs ↦
            inv.in_hand i (λ o.
              d (set_at_other c i (encoded src) st.phase (λ x. ground (x, differs, arith)) ∙ o))
      ];
    },
  )
    where
      at_same : (i c : ℕ) → i == c ≡ true → i ≡ c
      at_same i c h = ground (h, arith)
  encoded_at-IsStep st c src now (codec, raises) inv e r =
      let (answer, inv') =
        give_back-IsStep st (set_at c codec st.codecs) c now panics inv
          (λ o. absurd (ground (sym e ∙ o, arith))) in
      (answer, λ h. absurd (ground (h, arith)))
  encoded_at-IsStep st c src now (codec, fails cause) inv e r =
      let (answer, inv') =
        give_back-IsStep st (set_at c codec st.codecs) c now
          (ends (some (wrap cause error_encoding))) inv (λ o. absurd (ground (sym e ∙ o, arith))) in
      (answer, λ h. absurd (ground (h, arith)))

  encode_in-IsStep :
      (st : Copier C V) (c : ℕ) (src : V) (now : ℕ) (p : Phase V)
      → IsGob gob IsClean
      → Inv gob IsClean st
      → st.phase c ≡ p
      → IsStep gob IsClean
          (encode_expected gob src p)
          (encode_expected gob src p ≡ goes_on)
          (encode_in gob st c src now p)
  encode_in-IsStep st c src now out is_gob inv e = (refl, λ h. inv)
  encode_in-IsStep st c src now (encoded s) is_gob inv e = (refl, λ h. inv)
  encode_in-IsStep st c src now fresh is_gob inv e =
      rw (← is_gob.encode_lem (st.codecs c) src (clean_fresh gob IsClean st inv c e))
        (encoded_at-IsStep st c src now (gob.encode (st.codecs c) src) inv e refl)

  -- A decoding that ends well has no error.
  no_error :
      (c now : ℕ) (dst : D) (r : D × Option Cause)
      → HasSucceeded {V = V} (decodes c dst now) (ended gob (decoded r))
      → r.1 ≡ none
  no_error c now dst (after, none) h = refl
  no_error c now dst (after, some cause) (inl e) = absurd (ground (e, arith))
  no_error c now dst (after, some cause) (inr (x, e)) = absurd (ground (e, arith))

  decoded_at-IsStep :
      (st : Copier C V) (c : ℕ) (src : V) (dst : D) (now : ℕ)
      → IsGob gob IsClean
      → Inv gob IsClean st
      → st.phase c ≡ encoded src
      → IsStep gob IsClean
          (decode_expected gob dst (encoded src))
          (HasSucceeded {V = V}
            (decodes c dst now)
            (decoded_at gob st c now (gob.decode (st.codecs c) dst)).1)
          (decoded_at gob st c now (gob.decode (st.codecs c) dst))
  decoded_at-IsStep st c src dst now is_gob inv e =
      let (c0, (clean, (same, ok))) = subst (Holds gob IsClean (st.codecs c)) e (inv.holds c) in
      let result = is_gob.decode_lem c0 src dst clean ok in
      let (answer, inv') =
        give_back-IsStep st (set_at c (gob.decode (st.codecs c) dst).0 st.codecs) c now
          (ended gob (decoded (gob.decode (st.codecs c) dst).1)) inv
          (λ o. absurd (ground (sym e ∙ o, arith))) in
      (
        answer
            ∙ (ap (λ (x : C). ended gob (decoded (gob.decode x dst).1)) same
                ∙ ap (λ (x : D × Option Cause). ended gob (decoded x)) result),
        λ fine. inv' (
            Holds-set_at gob IsClean st.codecs st.phase c (gob.decode (st.codecs c) dst).0 out
              inv.holds
              (subst (λ (x : C). IsClean (gob.decode x dst).0) (sym same)
                (is_gob.copy_clean c0 src dst clean ok (
                  subst (λ (x : C). (gob.decode x dst).1.1 ≡ none) same
                    (no_error c now dst (gob.decode (st.codecs c) dst).1
                      (subst (HasSucceeded {V = V} (decodes c dst now)) answer fine)))))),
      )

  decode_in-IsStep :
      (st : Copier C V) (c : ℕ) (dst : D) (now : ℕ) (p : Phase V)
      → IsGob gob IsClean
      → Inv gob IsClean st
      → st.phase c ≡ p
      → IsStep gob IsClean
          (decode_expected gob dst p)
          (HasSucceeded {V = V} (decodes c dst now) (decode_in gob st c dst now p).1)
          (decode_in gob st c dst now p)
  decode_in-IsStep st c dst now out is_gob inv e = (refl, λ h. inv)
  decode_in-IsStep st c dst now fresh is_gob inv e = (refl, λ h. inv)
  decode_in-IsStep st c dst now (encoded src) is_gob inv e =
      decoded_at-IsStep st c src dst now is_gob inv e

  pub exec-IsStep :
      (st : Copier C V) (e : Event V D)
      → IsGob gob IsClean
      → Inv gob IsClean st
      → IsStep gob IsClean
          (expected gob st.phase e)
          (HasSucceeded e (exec gob e st).1)
          (exec gob e st)
  unfolding exec
  exec-IsStep st (starts false now) is_gob inv = (refl, λ h. inv)
  exec-IsStep st (starts true now) is_gob inv =
      start_with-IsStep gob IsClean st now (get (conns_of gob IsClean st).pool now (λ pc. true))
        is_gob inv
        (get-IsGiven (IsFree gob IsClean st) gob_pool_config (conns_of gob IsClean st).pool now
          (λ pc. true) refl inv.ready)
  exec-IsStep st (encodes c src now) is_gob inv =
      let (answer, inv') = encode_in-IsStep st c src now (st.phase c) is_gob inv refl in
      (answer, λ h. inv' (sym answer ∙ h))
  exec-IsStep st (decodes c dst now) is_gob inv =
      decode_in-IsStep st c dst now (st.phase c) is_gob inv refl

  pub Reached-Inv : (st : Copier C V) → IsGob gob IsClean → Reached gob st → Inv gob IsClean st
  Reached-Inv _ is_gob begun = new_copier-Inv gob IsClean is_gob
  Reached-Inv _ is_gob (then_ r e h) = (exec-IsStep _ e is_gob (Reached-Inv _ is_gob r)).1 h

  -- Once the pool of codecs is made, however the copies of many goroutines interleave, as long as none has ended with an error or a panic of its codec, each one goes on and ends, the first that fails included, as it does with a new codec of its own, and none waits for a codec, or panics if its encoder does not; condition: a codec that has done whole copies answers as a new one.
  pub exec-expected :
      (st : Copier C V) (e : Event V D)
      → IsGob gob IsClean
      → Reached gob st
      → (exec gob e st).1 ≡ expected gob st.phase e
  exec-expected st e is_gob reached = (exec-IsStep st e is_gob (Reached-Inv st is_gob reached)).0

-- ===== src/Health/Composite/Race.antt =====
-- health/runner.go: the goroutines of `compositeChecker.Check` interleaved. A goroutine tests
-- `finalStatus` in one step and stores its own status in another; a schedule says who steps.
use mathlib.Core.List.{Memᴰ}
use framego.Prelude.{
  ℕ, zero, suc, ◌≡◌, ◌≢◌, ◌↔◌, refl, sym, ap, ◌∙◌, ◌⊎◌, inl, inr, ◌||◌, List, [], ◌∷◌, map, All,
  All-mono, if◌then◌else◌, arith,
}
use framego.Health.Status.{unknown, healthy, unhealthy, Status, state_eq}
use framego.Health.Composite.{start}
use framego.Health.Composite.Verdict.{worst}

-- Each goroutine with the status that its check returned.
pub data Thread : Type 0 where
  ready storing finished : Status → Thread

pub tested : Status → Status → Thread
tested final s =
    if state_eq s.state healthy
    then finished s
    else if state_eq s.state unhealthy || state_eq final.state healthy
    then storing s
    else finished s

unfoldable pub act : Status → Thread → Status × Thread
unfolding tested
act final (ready s) = (final, tested final s)
act final (storing s) = (s, finished s)
act final (finished s) = (final, finished s)

-- The `i`-th goroutine steps; a number that is none's steps nobody.
pub step : ℕ → Status → List Thread → Status × List Thread
step i final [] = (final, [])
step zero final (t ∷ ts) = let (final', t') = act final t in (final', t' ∷ ts)
step (suc i) final (t ∷ ts) = let (final', ts') = step i final ts in (final', t ∷ ts')

unfoldable pub run : List ℕ → Status → List Thread → Status × List Thread
unfolding step
run [] final ts = (final, ts)
run (i ∷ later) final ts = let (final', ts') = step i final ts in run later final' ts'

abbrev pub status_of : Thread → Status
status_of (ready s) = s
status_of (storing s) = s
status_of (finished s) = s

abbrev pub IsFinished : Thread → Type 0
IsFinished t = t ≡ finished (status_of t)

-- What is true of each goroutine at any moment.
abbrev IsSound : Status → Thread → Type 0
IsSound final (ready s) = Unit {0}
IsSound final (storing s) = s.state ≢ healthy
IsSound final (finished s) = (s.state ≡ healthy) ⊎ (final.state ≢ healthy)

act-IsSound :
    (final : Status) (t : Thread)
    → IsSound final t
    → IsSound (act final t).0 (act final t).1
      × (status_of (act final t).1 ≡ status_of t)
      × (final.state ≢ healthy → (act final t).0.state ≢ healthy)
      × (((act final t).0 ≡ final) ⊎ ((act final t).0 ≡ status_of t))
unfolding act
act-IsSound final (ready s) h = ground arith
act-IsSound final (storing s) h = ground arith
act-IsSound final (finished s) h = ground arith

record IsKept (statuses : List Status) (final : Status) (r : Status × List Thread) : Type 0 where
  sound : All (IsSound r.0) r.1
  same : map status_of r.1 ≡ statuses
  sick : final.state ≢ healthy → r.0.state ≢ healthy
  origin : (r.0 ≡ final) ⊎ Memᴰ r.0 statuses

IsSound-mono :
    (final final' : Status) (t : Thread)
    → (final.state ≢ healthy → final'.state ≢ healthy)
    → IsSound final t
    → IsSound final' t
IsSound-mono final final' (ready s) f h = tt
IsSound-mono final final' (storing s) f h = h
IsSound-mono final final' (finished s) f (inl h) = inl h
IsSound-mono final final' (finished s) f (inr h) = inr (f h)

step-IsKept :
    (i : ℕ) (final : Status) (ts : List Thread)
    → All (IsSound final) ts
    → IsKept (map status_of ts) final (step i final ts)
unfolding step
step-IsKept zero final [] h = record { sound = tt; same = refl; sick = λ p. p; origin = inl refl }
step-IsKept (suc i) final [] h = record {
  sound = tt;
  same = refl;
  sick = λ p. p;
  origin = inl refl;
}
step-IsKept zero final (t ∷ ts) h =
    let (own, same, sick, origin) = act-IsSound final t h.0 in
    record {
      sound = (
        own,
        All-mono (IsSound final) (IsSound (act final t).0) ts
            (λ u. IsSound-mono final (act final t).0 u sick) h.1,
      );
      same = ap (λ (s : Status). s ∷ map status_of ts) same;
      sick = sick;
      origin = elim origin [ inl e ↦ inl e | inr e ↦ inr (Memᴰ.head e) ];
    }
step-IsKept (suc i) final (t ∷ ts) h =
    let k = step-IsKept i final ts h.1 in
    record {
      sound = (IsSound-mono final (step i final ts).0 t k.sick h.0, k.sound);
      same = ap (λ (l : List Status). status_of t ∷ l) k.same;
      sick = k.sick;
      origin = elim k.origin [ inl e ↦ inl e | inr m ↦ inr (Memᴰ.tail m) ];
    }

run-IsKept :
    (schedule : List ℕ) (statuses : List Status) (final : Status) (ts : List Thread)
    → All (IsSound final) ts
    → map status_of ts ≡ statuses
    → IsKept statuses final (run schedule final ts)
unfolding run
run-IsKept [] statuses final ts h e = record {
  sound = h;
  same = e;
  sick = λ p. p;
  origin = inl refl;
}
run-IsKept (i ∷ later) statuses final ts h e =
    let k = step-IsKept i final ts h in
    let r =
      run-IsKept later statuses (step i final ts).0 (step i final ts).1 k.sound (k.same ∙ e) in
    record {
      sound = r.sound;
      same = r.same;
      sick = λ p. r.sick (k.sick p);
      origin = elim r.origin [
        | inl same ↦ elim k.origin [ inl old ↦ inl (same ∙ old) | inr m ↦ inr (rw (same, ← e) m) ]
        | inr m ↦ inr m
      ];
    }

worst-healthy_all :
    (final : Status) (ts : List Thread)
    → final.state ≡ healthy
    → All (IsSound final) ts
    → All IsFinished ts
    → worst (map status_of ts) ≡ healthy
worst-healthy_all final [] h s f = refl
worst-healthy_all final (ready q ∷ ts) h s f = ground (arith, worst-healthy_all final ts h s.1 f.1)
worst-healthy_all final (storing q ∷ ts) h s f =
    ground (arith, worst-healthy_all final ts h s.1 f.1)
worst-healthy_all final (finished q ∷ ts) h s f =
    ground (arith, worst-healthy_all final ts h s.1 f.1)

worst-healthy_mem :
    (s : Status) (xs : List Status) → Memᴰ s xs → worst xs ≡ healthy → s.state ≡ healthy
worst-healthy_mem s [] m h = elim m [ ]
worst-healthy_mem s (x ∷ xs) (Memᴰ.head e) h = rw e (ground arith)
worst-healthy_mem s (x ∷ xs) (Memᴰ.tail m) h = worst-healthy_mem s xs m (ground arith)

-- All goroutines ready, with these statuses to report.
abbrev pub launched : List Status → List Thread
launched = map ready

launched-IsSound : (statuses : List Status) → All (IsSound start) (launched statuses)
launched-IsSound [] = tt
launched-IsSound (s ∷ rest) = (tt, launched-IsSound rest)

launched_statuses : (statuses : List Status) → map status_of (launched statuses) ≡ statuses
launched_statuses [] = refl
launched_statuses (s ∷ rest) = ap (λ (l : List Status). s ∷ l) (launched_statuses rest)

-- However the goroutines of the composite check interleave, if all have ended then the final state
-- is healthy exactly if the worst state of the checks is.
pub race_healthy_iff :
    (schedule : List ℕ) (statuses : List Status)
    → All IsFinished (run schedule start (launched statuses)).1
    → ((run schedule start (launched statuses)).0.state ≡ healthy) ↔ (worst statuses ≡ healthy)
race_healthy_iff schedule statuses ended =
    let k =
      run-IsKept schedule statuses start (launched statuses) (launched-IsSound statuses)
        (launched_statuses statuses) in
    (
      λ h.
          ap worst (sym k.same)
          ∙ worst-healthy_all (run schedule start (launched statuses)).0 _ h k.sound ended,
      λ h. elim k.origin [
        | inl blank ↦ ap (λ (s : Status). s.state) blank
        | inr m ↦ worst-healthy_mem _ statuses m h
      ],
    )

-- The worst state can be lost: where a check of unknown state tests `finalStatus` before an
-- unhealthy one stores, and stores after it, the final status is the unknown one.
pub race_loses_unhealthy :
    (k u : Status)
    → k.state ≡ unknown
    → u.state ≡ unhealthy
    → (run (0 ∷ 1 ∷ 1 ∷ 0 ∷ []) start (launched (k ∷ u ∷ [])) ≡ (k, finished k ∷ finished u ∷ []))
      × (worst (k ∷ u ∷ []) ≡ unhealthy)
unfolding run step act
race_loses_unhealthy k u hk hu = ground arith

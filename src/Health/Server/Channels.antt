-- ===== src/Health/Server/Channels.antt =====
-- The watchers' channels: which are removed, and which get a status.
use mathlib.Core.List.{append-nil}
use framego.Prelude.{
  ℕ, zero, suc, ◌+◌, ◌<◌, ◌≡◌, ◌≢◌, refl, sym, ap, ◌∙◌, inl, inr, Bool, true, false, List, [], ◌∷◌,
  ◌++◌, none, some, length, length-append, All-append_left, get_elem?, get_elem?-length, erase_idx,
  erase_idx-length, All, Bool-cases, ==_iff, ◌==◌, subst, some-eq, ◌≤◌, if◌then◌else◌, arith, map,
}
use framego.Health.Status.{Status}
use framego.Health.Server.{
  Server, Chan, Loop, ended, panicked, remove_loop, after_loop, remove_status_chan, sent, waits,
  broadcast,
}

-- None of the channels is `ch`.
abbrev pub IsAbsent : ℕ → List Chan → Type 0
IsAbsent ch = All (λ c. c.id ≢ ch)

abbrev Visit : ℕ → ℕ → ℕ → List Chan → Chan → Loop
Visit ch rounds i chans c =
    remove_loop ch rounds (suc i) (if c.id == ch then erase_idx chans i else chans)

remove_loop-at :
    (ch rounds i : ℕ) (chans : List Chan) (c : Chan)
    → get_elem? chans i ≡ some c
    → remove_loop ch (suc rounds) i chans ≡ Visit ch rounds i chans c
unfolding remove_loop
remove_loop-at ch rounds i chans c e = rw (e, remove_loop)

remove_loop-keep :
    (ch rounds i : ℕ) (chans : List Chan) (c : Chan)
    → get_elem? chans i ≡ some c
    → c.id ≢ ch
    → remove_loop ch (suc rounds) i chans ≡ remove_loop ch rounds (suc i) chans
remove_loop-keep ch rounds i chans c e ne = elim (Bool-cases (c.id == ch)) [
  | inl same ↦ absurd (ne ((==_iff c.id ch).0 same))
  | inr other ↦
      remove_loop-at ch rounds i chans c e
      ∙ ap (λ (b : Bool). remove_loop ch rounds (suc i) (if b then erase_idx chans i else chans))
          other
]

remove_loop-erase :
    (ch rounds i : ℕ) (chans : List Chan) (c : Chan)
    → get_elem? chans i ≡ some c
    → c.id ≡ ch
    → remove_loop ch (suc rounds) i chans ≡ remove_loop ch rounds (suc i) (erase_idx chans i)
remove_loop-erase ch rounds i chans c e same =
    remove_loop-at ch rounds i chans c e
    ∙ ap (λ (b : Bool). remove_loop ch rounds (suc i) (if b then erase_idx chans i else chans))
        ((==_iff c.id ch).1 same)

get_elem?-IsAbsent :
    (ch i : ℕ) (chans : List Chan) (c : Chan)
    → IsAbsent ch chans
    → get_elem? chans i ≡ some c
    → c.id ≢ ch
get_elem?-IsAbsent ch i [] c h e = cc
get_elem?-IsAbsent ch zero (x ∷ xs) c h e = subst (λ (y : Chan). y.id ≢ ch) (some-eq e) h.0
get_elem?-IsAbsent ch (suc i) (x ∷ xs) c h e = get_elem?-IsAbsent ch i xs c h.1 e

get_elem?-none : (i : ℕ) (chans : List Chan) → length chans ≤ i → get_elem? chans i ≡ none
get_elem?-none i [] h = refl
get_elem?-none zero (x ∷ xs) h = absurd (omega arith)
get_elem?-none (suc i) (x ∷ xs) h = get_elem?-none i xs (omega arith)

get_elem?-some :
    (i : ℕ) (chans : List Chan) → i < length chans → (c : Chan) × (get_elem? chans i ≡ some c)
get_elem?-some i [] h = absurd (omega arith)
get_elem?-some zero (x ∷ xs) h = (x, refl)
get_elem?-some (suc i) (x ∷ xs) h = get_elem?-some i xs (omega arith)

-- Rounds over channels that stay.
remove_loop-skip :
    (ch k rounds i : ℕ) (chans : List Chan)
    → ((m : ℕ) → m < k → (c : Chan) × (get_elem? chans (m + i) ≡ some c) × (c.id ≢ ch))
    → remove_loop ch (k + rounds) i chans ≡ remove_loop ch rounds (k + i) chans
remove_loop-skip ch zero rounds i chans h =
    let e : 0 + rounds ≡ rounds = omega arith in let e' : 0 + i ≡ i = omega arith in rw (e, e')
remove_loop-skip ch (suc k) rounds i chans h =
    let (c, at, ne) = h 0 (omega arith) in
    let start : 0 + i ≡ i = omega arith in
    let more : suc k + rounds ≡ suc (k + rounds) = omega arith in
    let next : k + suc i ≡ suc k + i = omega arith in
    rw more (
      remove_loop-keep ch (k + rounds) i chans c (ap (get_elem? chans) (sym start) ∙ at) ne
      ∙ remove_loop-skip ch k rounds (suc i) chans (λ m hm.
        let shift : m + suc i ≡ suc m + i = omega arith in rw shift (h (suc m) (omega arith)))
      ∙ ap (λ (j : ℕ). remove_loop ch rounds j chans) next)

-- With one round more than there are channels left, the last round is out of range.
remove_loop-out_of_range :
    (ch k i : ℕ) (chans : List Chan)
    → IsAbsent ch chans
    → i + k ≡ length chans
    → remove_loop ch (suc k) i chans ≡ panicked chans
unfolding remove_loop
remove_loop-out_of_range ch zero i chans h e =
    rw (get_elem?-none i chans (omega arith), remove_loop)
remove_loop-out_of_range ch (suc k) i chans h e =
    let (c, at) = get_elem?-some i chans (omega arith) in
    remove_loop-keep ch (suc k) i chans c at (get_elem?-IsAbsent ch i chans c h at)
    ∙ remove_loop-out_of_range ch k (suc i) chans h (omega arith)

absent_before :
    (ch : ℕ) (xs rest : List Chan)
    → IsAbsent ch xs
    → (m : ℕ) → m < length xs
    → (c : Chan) × (get_elem? (xs ++ rest) (m + 0) ≡ some c) × (c.id ≢ ch)
absent_before ch [] rest h m hm = absurd (omega arith)
absent_before ch (x ∷ xs) rest h zero hm = (x, refl, h.0)
absent_before ch (x ∷ xs) rest h (suc m) hm =
    let e : suc m + 0 ≡ suc (m + 0) = omega arith in
    rw e (absent_before ch xs rest h.1 m (omega arith))

remove_loop-found :
    (ch : ℕ) (xs : List Chan) (c : Chan) (ys : List Chan)
    → c.id ≡ ch
    → IsAbsent ch xs
    → remove_loop ch (length (xs ++ c ∷ ys)) 0 (xs ++ c ∷ ys)
      ≡ remove_loop ch (length ys) (suc (length xs)) (xs ++ ys)
remove_loop-found ch xs c ys same before =
    let end : length xs + 0 ≡ length xs = omega arith in
    rw (length-append xs (c ∷ ys)) (
      remove_loop-skip ch (length xs) (suc (length ys)) 0 (xs ++ c ∷ ys)
        (absent_before ch xs (c ∷ ys) before)
      ∙ ap (λ (i : ℕ). remove_loop ch (suc (length ys)) i (xs ++ c ∷ ys)) end
      ∙ remove_loop-erase ch (length ys) (length xs) (xs ++ c ∷ ys) c (get_elem?-length xs c ys)
          same
      ∙ ap (remove_loop ch (length ys) (suc (length xs))) (erase_idx-length xs c ys))

remove_loop-end : (ch i : ℕ) (chans : List Chan) → remove_loop ch 0 i chans ≡ ended chans
unfolding remove_loop
remove_loop-end ch i chans = refl

-- Removing the last channel of the list takes it off the list and closes it, with no panic;
-- condition: no other channel of the list is the same.
pub remove_status_chan_last :
    (s : Server) (xs : List Chan) (c : Chan)
    → s.status_chans ≡ xs ++ c ∷ []
    → IsAbsent c.id xs
    → remove_status_chan s c.id ≡ (record s { status_chans = xs; closed = c.id ∷ s.closed }, true)
unfolding remove_status_chan
remove_status_chan_last s xs c e before = ap (after_loop c.id s) (
    ap (λ (l : List Chan). remove_loop c.id (length l) 0 l) e
    ∙ remove_loop-found c.id xs c [] refl before
    ∙ remove_loop-end c.id (suc (length xs)) (xs ++ [])
    ∙ ap ended (append-nil xs))

-- Removing a watcher's channel that is not the last of the list takes it off the list and then
-- panics, and does not close it; condition: no other channel of the list is the same.
pub remove_status_chan_panics :
    (s : Server) (xs : List Chan) (c y : Chan) (ys : List Chan)
    → s.status_chans ≡ xs ++ c ∷ y ∷ ys
    → IsAbsent c.id (xs ++ y ∷ ys)
    → remove_status_chan s c.id ≡ (record s { status_chans = xs ++ y ∷ ys }, false)
unfolding remove_status_chan
remove_status_chan_panics s xs c y ys e absent = ap (after_loop c.id s) (
    ap (λ (l : List Chan). remove_loop c.id (length l) 0 l) e
    ∙ remove_loop-found c.id xs c (y ∷ ys) refl (All-append_left _ xs (y ∷ ys) absent)
    ∙ remove_loop-out_of_range c.id (length ys) (suc (length xs)) (xs ++ y ∷ ys) absent
        (omega (arith, length-append xs (y ∷ ys))))

abbrev pub IsEmpty : Chan → Type 0
IsEmpty c = c.place ≡ none

abbrev pub holding : Status → Chan → Chan
holding status c = record c { place = some status }

-- A broadcast of a status reaches every channel of a list in which all are empty; where the first
-- full one follows these, it waits there, and the channels behind it do not get the status.
pub broadcast_lem :
    (status waiting : Status) (xs : List Chan) (c : Chan) (ys : List Chan)
    → All IsEmpty xs
    → c.place ≡ some waiting
    → (broadcast status xs ≡ sent (map (holding status) xs))
      × (broadcast status (xs ++ c ∷ ys) ≡ waits (map (holding status) xs ++ c ∷ ys))
unfolding broadcast
broadcast_lem status waiting [] c ys h full = (refl, ground arith)
broadcast_lem status waiting (x ∷ xs) c ys h full =
    let (all_sent, up_to) = broadcast_lem status waiting xs c ys h.1 full in
    (ground arith, ground (arith, up_to))

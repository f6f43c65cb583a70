-- ===== src/DataCache/Keyed/Answers.antt =====
-- The values that `GetMany` gives back.
use framego.Prelude.{
  ℕ, ◌<◌, ◌≡◌, inl, inr, refl, sym, subst, ap, ◌∙◌, Bool-cases, Bool, true, false, List, [], ◌∷◌,
  Option, none, some, ◌==◌, if◌then◌else◌, arith,
}
use framego.Prelude.Int.{ℤ, ltb_ℤ}
use framego.Prelude.Assoc.{lookup, insert, elem, lookup-insert, IsMap}
use framego.DataCache.Keyed.{CacheMap, scan, claim_many, collect, get_many, value_of}
use framego.DataCache.Keyed.Claimed.{claims_other, claims-IsMap, claims_new, claims_due}
use framego.DataCache.Keyed.Scanned.{is_due, read_of, IsScanned, scan-IsScanned}

eq_of : {a b : ℕ} → a == b ≡ true → a ≡ b
eq_of e = ground (e, arith)

module _ {V : Type 0} (zero_value : V) where
  -- What is collected for a key, by its address among the items that are loaded, or what was read.
  abbrev pub chosen : CacheMap V → Option ℕ → Option V → Option V
  chosen c none read = read
  chosen c (some a) read = some (value_of zero_value (c.items a).data_)

  lookup-collect :
      (c : CacheMap V) (um : List (ℕ × ℕ)) (data_ : List (ℕ × V)) (k : ℕ)
      → IsMap um
      → lookup k (collect zero_value c um data_) ≡ chosen c (lookup k um) (lookup k data_)
  unfolding collect
  lookup-collect c [] data_ k h = refl
  lookup-collect c ((j, a) ∷ um) data_ k h =
      let v = value_of zero_value (c.items a).data_ in
      let rest = lookup-collect c um (insert j v data_) k h.1 in
      elim (Bool-cases (j == k)) [
        | inl same ↦
            let gone : lookup k um ≡ none =
              subst (λ (i : ℕ). lookup i um ≡ none) (eq_of same) h.0 in
            rw same (rest ∙ rw (gone, lookup-insert k j v data_, same) refl)
        | inr other ↦ rw other (rest ∙ rw (lookup-insert k j v data_, other) refl)
      ]

  -- Each item belongs to one key, and is not one that is still to be made.
  abbrev pub IsOwned : CacheMap V → Type 0
  IsOwned c =
      ((k a : ℕ) → lookup k c.data_map ≡ some a → a < c.next)
      × ((j k a : ℕ) → lookup j c.data_map ≡ some a → lookup k c.data_map ≡ some a → j ≡ k)

  abbrev pub claimed_of : List ℕ → ℤ → CacheMap V → CacheMap V × List (ℕ × ℕ) × Bool
  claimed_of keys now c =
      let scanned = scan zero_value now keys (c, [], []) in
      claim_many now scanned.2 (scanned.0, [], false)

  -- The answer for a key, with `c` the cache at first and `d` the cache in the end: the value of a new
  -- item in the end, or that of the key's item, in the end if it was to be updated at first, or else at first.
  abbrev pub IsAnswer : ℕ → List ℕ → ℤ → CacheMap V → CacheMap V → Option ℕ → Option V → Type 0
  IsAnswer k keys now c d none answer =
      (a : ℕ) × ((lookup k (claimed_of keys now c).0.data_map ≡ some a)
        × (answer ≡ some (value_of zero_value (d.items a).data_)))
  IsAnswer k keys now c d (some a) answer =
      answer
      ≡ some (
          value_of zero_value (
            if ltb_ℤ (c.items a).next_update_time now
            then (d.items a).data_
            else (c.items a).data_))

  -- When nothing else happens between its two locks, `GetMany` gives back for a key that is asked for, and has an item that is not to be updated yet, the value that the item has at first; for one with an item that is to be updated, the value that it has when the wait has ended; and for one without an item, the value, when the wait has ended, of the item that `GetMany` makes for it; where an item without a value gives the zero value; condition: no two keys share an item.
  pub lookup-get_many :
      (after : CacheMap V → CacheMap V) (keys : List ℕ) (now : ℤ) (c : CacheMap V) (k : ℕ)
      → IsOwned c
      → elem k keys ≡ true
      → IsAnswer k keys now c
          (after (claimed_of keys now c).0)
          (lookup k c.data_map)
          (lookup k (get_many zero_value (λ (d : CacheMap V). d) after keys now c))
  unfolding get_many
  lookup-get_many after keys now c k owned asked =
      let scanned = scan zero_value now keys (c, [], []) in
      let claimed = claimed_of keys now c in
      by (lookup k c.data_map) refl
        (scan-IsScanned zero_value k now c keys c [] [] asked (refl, refl, λ b. refl, λ b. refl)
          refl refl)
        (lookup-collect (after claimed.0) claimed.1 scanned.1 k
          (claims-IsMap k now scanned.2 (scanned.0, [], false) tt))
    where
      by :
          (o : Option ℕ)
          → lookup k c.data_map ≡ o
          → IsScanned zero_value k now c (scan zero_value now keys (c, [], []))
          → lookup k (
              collect zero_value
                (after (claimed_of keys now c).0)
                (claimed_of keys now c).1
                (scan zero_value now keys (c, [], [])).1)
            ≡ chosen
                (after (claimed_of keys now c).0)
                (lookup k (claimed_of keys now c).1)
                (lookup k (scan zero_value now keys (c, [], [])).1)
          → IsAnswer k keys now c (after (claimed_of keys now c).0) o (
              lookup k (
                collect zero_value
                  (after (claimed_of keys now c).0)
                  (claimed_of keys now c).1
                  (scan zero_value now keys (c, [], [])).1))
      by none e (r, read, noted) collected =
          let scanned = scan zero_value now keys (c, [], []) in
          let (a, (loaded, at)) =
            claims_new k now scanned.2 (scanned.0, [], false)
              (noted ∙ ap (is_due zero_value k now c) e)
              (ap (λ (m : List (ℕ × ℕ)). lookup k m) r.0 ∙ e) in
          (a, (at, collected ∙ rw loaded refl))
      by (some a) e (r, read, noted) collected =
          let scanned = scan zero_value now keys (c, [], []) in
          elim (Bool-cases (ltb_ℤ (c.items a).next_update_time now)) [
            | inl due ↦
                let (loaded, at) =
                  claims_due k now scanned.2 a (scanned.0, [], false)
                    (noted ∙ (ap (is_due zero_value k now c) e ∙ due))
                    (
                      ap (λ (m : List (ℕ × ℕ)). lookup k m) r.0 ∙ e,
                      ap (λ (t : ℤ). ltb_ℤ t now) (r.3 a) ∙ due,
                      subst (λ (n : ℕ). a < n) (sym r.1) (owned.0 k a e),
                      λ j f. owned.1 j k a (sym (ap (λ (m : List (ℕ × ℕ)). lookup j m) r.0) ∙ f) e,
                    ) in
                rw due (collected ∙ rw loaded refl)
            | inr fine ↦
                let left =
                  claims_other k now scanned.2 (scanned.0, [], false)
                    (noted ∙ (ap (is_due zero_value k now c) e ∙ fine)) refl in
                rw fine (collected ∙ (rw left read ∙ ap (read_of zero_value k now c) e))
          ]

-- ===== src/Crypto/RoundTrip.antt =====
-- What is encrypted is decrypted, and data that are too short.
use framego.Prelude.{
  ℕ, zero, suc, ◌<◌, ◌≡◌, refl, ap, ◌∙◌, Bool, [], ◌∷◌, ◌++◌, none, some, length, arith,
}
use framego.Prelude.Text.{Str}
use framego.Crypto.{
  Gcm, Aes, ok, panics, random_bytes, aes_gcm_encrypt, split_at, result_of, open_split,
  aes_gcm_decrypt,
}

-- What is sealed with a nonce of the right size opens with it.
abbrev pub IsAead : Gcm → Type 0
IsAead gcm =
    (nonce data_ : Str)
    → length nonce ≡ gcm.nonce_size
    → gcm.open_ nonce (gcm.seal nonce data_) ≡ some data_

-- The cipher and the mode that a key gives.
abbrev pub Gives : {Block : Type 0} → Aes Block → Str → Gcm → Type 0
Gives {Block} aes key gcm =
    (block : Block) × ((aes.new_cipher key ≡ some block) × (aes.new_gcm block ≡ some gcm))

split_at-append : (n : ℕ) (a b : Str) → length a ≡ n → split_at n (a ++ b) ≡ some (a, b)
unfolding split_at
split_at-append zero [] b e = refl
split_at-append zero (c ∷ a) b e = absurd (ground (e, arith))
split_at-append (suc n) [] b e = absurd (ground (e, arith))
split_at-append (suc n) (c ∷ a) b e = rw (split_at-append n a b (ground (e, arith))) refl

split_at-short : (n : ℕ) (s : Str) → length s < n → split_at n s ≡ none
unfolding split_at
split_at-short zero s h = absurd (ground (h, arith))
split_at-short (suc n) [] h = refl
split_at-short (suc n) (c ∷ s) h = rw (split_at-short n s (ground (h, arith))) refl

-- With a key that gives a cipher, data of any length are encrypted, and decrypted again with the same key to what they were, whatever the random bytes are; decrypting data that are shorter than the nonce panics; conditions: the mode opens what it seals, and the random bytes fill the nonce.
pub aes_gcm_decrypt-encrypt :
    {Block : Type 0}
    → (aes : Aes Block) (random : ℕ → Str × Bool) (gcm : Gcm) (data_ key short : Str)
    → Gives aes key gcm
    → IsAead gcm
    → length (random gcm.nonce_size).0 ≡ gcm.nonce_size
    → length short < gcm.nonce_size
    → ((sealed : Str) × ((aes_gcm_encrypt aes random data_ key ≡ ok sealed)
          × (aes_gcm_decrypt aes sealed key ≡ ok data_)))
      × (aes_gcm_decrypt aes short key ≡ panics)
unfolding aes_gcm_encrypt aes_gcm_decrypt random_bytes
aes_gcm_decrypt-encrypt aes random gcm data_ key short (block, (c, g)) aead fills is_short =
    let nonce = (random gcm.nonce_size).0 in
    rw (c, g)
      (
        (
          nonce ++ gcm.seal nonce data_,
          (
            refl,
            ap (open_split gcm) (split_at-append gcm.nonce_size nonce (gcm.seal nonce data_) fills)
                ∙ ap result_of (aead nonce data_ fills),
          ),
        ),
        ap (open_split gcm) (split_at-short gcm.nonce_size short is_short),
      )

-- ===== src/Crypto/Examples.antt =====
-- An instance with a mode that hides nothing.
use framego.Prelude.{ℕ, ◌≡◌, refl, true, some, Bool, arith}
use framego.Prelude.Text.{Str, bytes}
use framego.Crypto.{Gcm, Aes, ok, panics, aes_gcm_encrypt, aes_gcm_decrypt}
use framego.Crypto.RoundTrip.{aes_gcm_decrypt-encrypt}

abbrev gcm : Gcm
gcm = record { nonce_size = 2; overhead = 0; seal = λ nonce s. s; open_ = λ nonce s. some s }

abbrev aes : Aes ℕ
aes = record { new_cipher = λ key. some 1; new_gcm = λ block. some gcm }

abbrev random : ℕ → Str × Bool
random n = (bytes "xy", true)

aes_gcm_decrypt-encrypt_example :
    ((sealed : Str) × ((aes_gcm_encrypt aes random (bytes "data") (bytes "key") ≡ ok sealed)
        × (aes_gcm_decrypt aes sealed (bytes "key") ≡ ok (bytes "data"))))
    × (aes_gcm_decrypt aes (bytes "x") (bytes "key") ≡ panics)
aes_gcm_decrypt-encrypt_example =
    aes_gcm_decrypt-encrypt aes random gcm (bytes "data") (bytes "key") (bytes "x")
      (1, (refl, refl)) (λ nonce s e. refl) refl (ground arith)

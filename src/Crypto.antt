-- ===== src/Crypto.antt =====
-- crypto/aes.go and crypto/random.go. The cipher of crypto/aes and its GCM mode are parameters, and so are
-- the bytes that `io.ReadFull` of `rand.Reader` leaves in a buffer. Data are lists of bytes.
pub mod RoundTrip
mod Examples
use framego.Prelude.{
  ℕ, zero, suc, ◌+◌, Bool, true, false, List, [], ◌∷◌, ◌++◌, Option, none, some, length,
}
use framego.Prelude.Text.{Str}

-- An AEAD in GCM mode, with `Seal` and `Open` on nil additional data.
pub record Gcm : Type 0 where
  pub nonce_size : ℕ
  pub overhead : ℕ
  pub seal : Str → Str → Str
  pub open_ : Str → Str → Option Str

-- `aes.NewCipher` and `cipher.NewGCM`; `none` is their error.
pub record Aes (Block : Type 0) : Type 0 where
  pub new_cipher : Str → Option Block
  pub new_gcm : Block → Option Gcm

pub data Error : Type 0 where
  new_cipher_failed new_gcm_failed not_opened : Error

-- What a function returns, unless it panics.
pub data Result : Type 0 where
  ok : Str → Result
  err : Error → Result
  panics : Result

abbrev pub gcm_with : Option Gcm → (Gcm → Result) → Result
gcm_with none k = err new_gcm_failed
gcm_with (some crypter) k = k crypter

abbrev pub cipher_with : {Block : Type 0} → Aes Block → Option Block → (Gcm → Result) → Result
cipher_with aes none k = err new_cipher_failed
cipher_with aes (some block) k = gcm_with (aes.new_gcm block) k

-- `random n` is what RandomBytes leaves in a buffer of `n` bytes, with whether it succeeds; the caller
-- does not look at that.
unfoldable pub random_bytes : (ℕ → Str × Bool) → ℕ → Str
random_bytes random n = (random n).0

unfoldable pub aes_gcm_encrypt :
    {Block : Type 0} → Aes Block → (ℕ → Str × Bool) → Str → Str → Result
unfolding random_bytes
aes_gcm_encrypt aes random data_ key = cipher_with aes (aes.new_cipher key) (λ crypter.
    let nonce = random_bytes random crypter.nonce_size in ok (nonce ++ crypter.seal nonce data_))

-- `data[:n]` and `data[n:]`; `none` is the panic where the data are shorter.
unfoldable pub split_at : ℕ → Str → Option (Str × Str)
split_at zero s = some ([], s)
split_at (suc n) [] = none
split_at (suc n) (c ∷ s) = with_first c (split_at n s)
  where
    with_first : ℕ → Option (Str × Str) → Option (Str × Str)
    with_first c none = none
    with_first c (some (a, b)) = some (c ∷ a, b)

abbrev pub result_of : Option Str → Result
result_of none = err not_opened
result_of (some s) = ok s

abbrev pub open_split : Gcm → Option (Str × Str) → Result
open_split crypter none = panics
open_split crypter (some (nonce, sealed)) = result_of (crypter.open_ nonce sealed)

unfoldable pub aes_gcm_decrypt : {Block : Type 0} → Aes Block → Str → Str → Result
unfolding split_at
aes_gcm_decrypt aes data_ key =
    cipher_with aes (aes.new_cipher key)
      (λ crypter. open_split crypter (split_at crypter.nonce_size data_))

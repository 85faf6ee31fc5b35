-- ===== src/Crypto.antt =====
-- `app/core/crypto.py`: the encryption of stored credentials, over the library's authenticated
-- cipher.
use netops_console.Prelude.{ℕ, Option, List, is_empty, Result, ok, ◌>>◌, raise_if, or_raise}
use netops_console.Prelude.Text.{Text}

abbrev pub Bytes : Type 0
Bytes = List ℕ

-- What `Fernet` does with the application's key; `none` is `InvalidToken`.
pub record Fernet : Type 0 where
  pub encrypts : Text → Bytes
  pub decrypts : Bytes → Option Text

-- `ValueError` of `encrypt`, and `DecryptionError`.
pub data CryptoError : Type 0 where
  empty_secret decryption_error : CryptoError

module _ (fernet : Fernet) where
  unfoldable pub encrypt : Text → Result CryptoError Bytes
  encrypt plaintext = do raise_if (is_empty plaintext) empty_secret; ok (fernet.encrypts plaintext)

  unfoldable pub decrypt : Bytes → Result CryptoError Text
  decrypt ciphertext = or_raise (fernet.decrypts ciphertext) decryption_error

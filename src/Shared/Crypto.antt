-- ===== src/Shared/Crypto.antt =====
-- pkg/shared/crypto/aes.go: connection parameters at rest, as one base64 field that holds the nonce
-- and the sealed JSON. AES-GCM, base64, JSON and the random source are the parameter `Library`.
pub mod Roundtrip
pub mod Tests
use n.Base.{
  ℕ, ◌≡◌, Bool, not, List, [], ◌∷◌, ◌++◌, Option, none, some, Bytes, codes, ltb, ◌==◌, length, take,
  drop, if◌then◌else◌,
}
use n.Job.Backend.{Error, message, wrap, Result, ok, err}
use n.Worker.Value.{Value, text, list, object, other, Fields, field, end, get_field}

-- `open_sealed` is `gcm.Open`, `seal` is `gcm.Seal` without its prefix, and `number_text` writes a length.
pub record Library : Type 1 where
  pub Block : Type 0
  pub Gcm : Type 0
  pub new_cipher : Bytes → Result Block
  pub new_gcm : Block → Result Gcm
  pub nonce_size : Gcm → ℕ
  pub read_random : ℕ → Result Bytes
  pub seal : Gcm → Bytes → Bytes → Bytes
  pub open_sealed : Gcm → Bytes → Bytes → Result Bytes
  pub encode_base64 : Bytes → Bytes
  pub decode_base64 : Bytes → Result Bytes
  pub marshal : Fields → Result Bytes
  pub unmarshal : Bytes → Result Fields
  pub number_text : ℕ → Bytes

-- An encrypter that is not nil.
pub record Encrypter : Type 0 where
  pub key : Bytes

module _ (lib : Library) where
  -- `NewEncrypter`.
  unfoldable pub new_encrypter : Bytes → Result Encrypter
  new_encrypter key =
      if not (length key == 32)
      then err (
          message (
            codes "key must be exactly 32 bytes for AES-256, got " ++ lib.number_text (length key)))
      else ok (record { key = key })

  abbrev from_decoded : Result Bytes → Result Encrypter
  from_decoded (err e) = err (wrap (codes "decode base64 key") e)
  from_decoded (ok key) = new_encrypter key

  -- `NewEncrypterFromBase64`.
  unfoldable pub new_encrypter_from_base64 : Bytes → Result Encrypter
  unfolding new_encrypter
  new_encrypter_from_base64 key = from_decoded (lib.decode_base64 key)

  abbrev gcm_of : Result lib.Gcm → Result lib.Gcm
  gcm_of (err e) = err (wrap (codes "new gcm") e)
  gcm_of (ok gcm) = ok gcm

  abbrev block_of : Result lib.Block → Result lib.Gcm
  block_of (err e) = err (wrap (codes "new cipher") e)
  block_of (ok block) = gcm_of (lib.new_gcm block)

  -- `aes.NewCipher` and `cipher.NewGCM`.
  unfoldable pub cipher : Bytes → Result lib.Gcm
  cipher key = block_of (lib.new_cipher key)

  abbrev sealed : lib.Gcm → Bytes → Result Bytes → Result Fields
  sealed gcm plaintext (err e) = err (wrap (codes "read nonce") e)
  sealed gcm plaintext (ok nonce) =
      ok (
        field (codes "_enc") (text (lib.encode_base64 (nonce ++ lib.seal gcm nonce plaintext))) end)

  abbrev seal_with : Bytes → Result lib.Gcm → Result Fields
  seal_with plaintext (err e) = err e
  seal_with plaintext (ok gcm) = sealed gcm plaintext (lib.read_random (lib.nonce_size gcm))

  abbrev seal_payload : Bytes → Result Bytes → Result Fields
  seal_payload key (err e) = err (wrap (codes "marshal json") e)
  seal_payload key (ok plaintext) = seal_with plaintext (cipher key)

  -- `EncryptJSON`.
  unfoldable pub encrypt_json : Option Encrypter → Fields → Result Fields
  unfolding cipher
  encrypt_json none m = ok m
  encrypt_json (some e) m = seal_payload e.key (lib.marshal m)

  abbrev unmarshalled : Result Fields → Result Fields
  unmarshalled (err e) = err (wrap (codes "unmarshal json") e)
  unmarshalled (ok m) = ok m

  abbrev opened : Result Bytes → Result Fields
  opened (err e) = err (wrap (codes "decrypt") e)
  opened (ok plaintext) = unmarshalled (lib.unmarshal plaintext)

  abbrev open_with : Bytes → Result lib.Gcm → Result Fields
  open_with ciphertext (err e) = err e
  open_with ciphertext (ok gcm) =
      if ltb (length ciphertext) (lib.nonce_size gcm)
      then err (message (codes "ciphertext too short"))
      else opened (
          lib.open_sealed gcm (take (lib.nonce_size gcm) ciphertext)
            (drop (lib.nonce_size gcm) ciphertext))

  abbrev open_payload : Bytes → Result Bytes → Result Fields
  open_payload key (err e) = err (wrap (codes "decode base64") e)
  open_payload key (ok ciphertext) = open_with ciphertext (cipher key)

  abbrev decrypt_field : Bytes → Fields → Option Value → Result Fields
  decrypt_field key m (some (text value)) = open_payload key (lib.decode_base64 value)
  decrypt_field key m found = ok m

  -- `DecryptJSON`.
  unfoldable pub decrypt_json : Option Encrypter → Fields → Result Fields
  unfolding cipher get_field
  decrypt_json none m = ok m
  decrypt_json (some e) m = decrypt_field e.key m (get_field (codes "_enc") m)

-- ===== src/Shared/Crypto/Tests.antt =====
-- A library that frames without hiding, and the round trip at it.
use n.Base.{ℕ, zero, suc, ◌≡◌, refl, ap, [], ◌∷◌, some, Bytes, codes, length}
use n.Job.Backend.{message, Result, ok, err}
use n.Worker.Value.{text, Fields, field, end}
use n.Shared.Crypto.{Library, Encrypter, new_encrypter, encrypt_json, decrypt_json}
use n.Shared.Crypto.Roundtrip.{decrypt_json-encrypt_json}

abbrev pub zeros : ℕ → Bytes
zeros zero = []
zeros (suc k) = 0 ∷ zeros k

pub length-zeros : (k : ℕ) → length (zeros k) ≡ k
length-zeros zero = refl
length-zeros (suc k) = ap (λ j. suc j) (length-zeros k)

abbrev pub params : Fields
params = field (codes "host") (text (codes "db")) end

abbrev pub add_bracket : Bytes → Bytes
add_bracket p = b'[' ∷ p

abbrev pub drop_bracket : Bytes → Result Bytes
drop_bracket [] = err (message (codes "empty"))
drop_bracket (x ∷ p) = ok p

-- JSON is known for the one map of the test.
abbrev pub library : Library
library = record {
  Block = Bytes;
  Gcm = Bytes;
  new_cipher = λ key. ok key;
  new_gcm = λ block. ok block;
  nonce_size = λ gcm. 3;
  read_random = λ k. ok (zeros k);
  seal = λ gcm nonce p. add_bracket p;
  open_sealed = λ gcm nonce c. drop_bracket c;
  encode_base64 = add_bracket;
  decode_base64 = drop_bracket;
  marshal = λ m. ok (codes "{}");
  unmarshal = λ p. ok params;
  number_text = λ k. [];
}

abbrev pub encrypter : Encrypter
encrypter = record { key = zeros 32 }

key_taken : new_encrypter library (zeros 32) ≡ ok encrypter
unfolding new_encrypter
key_taken = refl

abbrev pub encrypted : Fields
encrypted = field (codes "_enc") (text (b'[' ∷ 0 ∷ 0 ∷ 0 ∷ b'[' ∷ codes "{}")) end

params_encrypted : encrypt_json library (some encrypter) params ≡ ok encrypted
unfolding encrypt_json
params_encrypted = refl

pub drawn_length : (k : ℕ) (x : Bytes) → library.read_random k ≡ ok x → length x ≡ k
drawn_length k x h = rw (← same) (length-zeros k)
  where
    same : zeros k ≡ x
    same = cc h

decrypt_json-encrypt_json_example : decrypt_json library (some encrypter) encrypted ≡ ok params
decrypt_json-encrypt_json_example =
    decrypt_json-encrypt_json library (some encrypter) params encrypted drawn_length
      (λ gcm x p n. refl) (λ x. refl) (λ p h. refl) params_encrypted

-- ===== src/Shared/Crypto/Roundtrip.antt =====
-- aes.go: what `EncryptJSON` writes, `DecryptJSON` reads back.
use n.Base.{
  ℕ, ◌≡◌, refl, false, List, ◌++◌, Option, none, some, Bytes, codes, ltb, length, length-append,
  take-append, drop-append, arith, eq,
}
use n.Job.Backend.{Result, ok, err}
use n.Worker.Value.{text, Fields, field, end, get_field}
use n.Shared.Crypto.{
  Library, Encrypter, gcm_of, block_of, cipher, sealed, seal_with, seal_payload, encrypt_json,
  open_with, decrypt_json,
}

long_enough : {A : Type 0} (xs ys : List A) → ltb (length (xs ++ ys)) (length xs) ≡ false
long_enough xs ys = let e = length-append xs ys in ground (arith, e)

module _ (lib : Library) where
  -- The map that holds the nonce and the sealed text.
  abbrev pub framed : lib.Gcm → Bytes → Bytes → Fields
  framed gcm nonce plaintext =
      field (codes "_enc") (text (lib.encode_base64 (nonce ++ lib.seal gcm nonce plaintext))) end

  -- What an encryption has gone through.
  pub record Sealed (key : Bytes) (m c : Fields) : Type 0 where
    pub plaintext : Bytes
    pub block : lib.Block
    pub gcm : lib.Gcm
    pub nonce : Bytes
    pub marshalled : lib.marshal m ≡ ok plaintext
    pub block_is : lib.new_cipher key ≡ ok block
    pub gcm_is : lib.new_gcm block ≡ ok gcm
    pub drawn : lib.read_random (lib.nonce_size gcm) ≡ ok nonce
    pub is_framed : c ≡ framed gcm nonce plaintext

  gcm_of-ok : (found : Result lib.Gcm) (gcm : lib.Gcm) → gcm_of lib found ≡ ok gcm → found ≡ ok gcm
  gcm_of-ok (ok g) gcm h = h
  gcm_of-ok (err e) gcm h = cc h

  block_of-ok :
      (found : Result lib.Block) (gcm : lib.Gcm)
      → block_of lib found ≡ ok gcm
      → (block : lib.Block) × (found ≡ ok block) × (lib.new_gcm block ≡ ok gcm)
  block_of-ok (ok block) gcm h = (block, refl, gcm_of-ok (lib.new_gcm block) gcm h)
  block_of-ok (err e) gcm h = cc h

  cipher-ok :
      (key : Bytes) (gcm : lib.Gcm)
      → cipher lib key ≡ ok gcm
      → (block : lib.Block) × (lib.new_cipher key ≡ ok block) × (lib.new_gcm block ≡ ok gcm)
  unfolding cipher
  cipher-ok key gcm h = block_of-ok (lib.new_cipher key) gcm h

  Sealed-cipher : (key : Bytes) (m c : Fields) (s : Sealed key m c) → cipher lib key ≡ ok s.gcm
  unfolding cipher
  Sealed-cipher key m c s = rw (s.block_is) (rw (s.gcm_is) refl)

  sealed-Sealed :
      (key p : Bytes) (m c : Fields) (gcm : lib.Gcm) (found : Result Bytes)
      → lib.marshal m ≡ ok p
      → cipher lib key ≡ ok gcm
      → lib.read_random (lib.nonce_size gcm) ≡ found
      → sealed lib gcm p found ≡ ok c
      → Sealed key m c
  sealed-Sealed key p m c gcm (err e) j k w h = cc h
  sealed-Sealed key p m c gcm (ok nonce) j k w h =
      let (block, x, y) = cipher-ok key gcm k in
      record {
        plaintext = p;
        block = block;
        gcm = gcm;
        nonce = nonce;
        marshalled = j;
        block_is = x;
        gcm_is = y;
        drawn = w;
        is_framed = cc h;
      }

  seal_with-Sealed :
      (key p : Bytes) (m c : Fields) (found : Result lib.Gcm)
      → lib.marshal m ≡ ok p
      → cipher lib key ≡ found
      → seal_with lib p found ≡ ok c
      → Sealed key m c
  seal_with-Sealed key p m c (err e) j k h = cc h
  seal_with-Sealed key p m c (ok gcm) j k h = sealed-Sealed key p m c gcm _ j k refl h

  seal_payload-Sealed :
      (key : Bytes) (m c : Fields) (found : Result Bytes)
      → lib.marshal m ≡ found
      → seal_payload lib key found ≡ ok c
      → Sealed key m c
  seal_payload-Sealed key m c (err e) j h = cc h
  seal_payload-Sealed key m c (ok p) j h = seal_with-Sealed key p m c _ j refl h

  -- What an encrypter makes of parameters is their sealed JSON behind its nonce.
  pub encrypt_json-Sealed :
      (e : Encrypter) (m c : Fields) → encrypt_json lib (some e) m ≡ ok c → Sealed e.key m c
  unfolding encrypt_json
  encrypt_json-Sealed e m c h = seal_payload-Sealed e.key m c (lib.marshal m) refl h

  open_with-framed :
      (gcm : lib.Gcm) (nonce rest plaintext : Bytes) (m : Fields)
      → length nonce ≡ lib.nonce_size gcm
      → lib.open_sealed gcm nonce rest ≡ ok plaintext
      → lib.unmarshal plaintext ≡ ok m
      → open_with lib (nonce ++ rest) (ok gcm) ≡ ok m
  open_with-framed gcm nonce rest plaintext m n o u = rw (← n) (
      rw (long_enough nonce rest)
        (rw (take-append nonce rest) (rw (drop-append nonce rest) (rw o (rw u refl)))))

  -- If the library reads back what it writes (GCM under a nonce of its size, base64, and the JSON
  -- of these parameters) and draws as many random bytes as are asked for, then the parameters that
  -- an encrypter, nil or not, has encrypted are decrypted by it as they were.
  pub decrypt_json-encrypt_json :
      (encrypter : Option Encrypter) (m c : Fields)
      → ((k : ℕ) (x : Bytes) → lib.read_random k ≡ ok x → length x ≡ k)
      → ((gcm : lib.Gcm) (x p : Bytes)
          → length x ≡ lib.nonce_size gcm
          → lib.open_sealed gcm x (lib.seal gcm x p) ≡ ok p)
      → ((x : Bytes) → lib.decode_base64 (lib.encode_base64 x) ≡ ok x)
      → ((p : Bytes) → lib.marshal m ≡ ok p → lib.unmarshal p ≡ ok m)
      → encrypt_json lib encrypter m ≡ ok c
      → decrypt_json lib encrypter c ≡ ok m
  unfolding encrypt_json decrypt_json get_field eq
  decrypt_json-encrypt_json none m c r g b j h = cc h
  decrypt_json-encrypt_json (some e) m c r g b j h =
      let s = seal_payload-Sealed e.key m c (lib.marshal m) refl h in
      let n = r (lib.nonce_size s.gcm) s.nonce s.drawn in
      rw s.is_framed (
        rw (b (s.nonce ++ lib.seal s.gcm s.nonce s.plaintext)) (
          rw (Sealed-cipher e.key m c s) (
            open_with-framed s.gcm s.nonce _ s.plaintext m n (g s.gcm s.nonce s.plaintext n)
              (j s.plaintext s.marshalled))))

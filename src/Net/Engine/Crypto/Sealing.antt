-- ===== src/Net/Engine/Crypto/Sealing.antt =====
-- Which engines can read an encrypted token (src/crates/bey-net/src/engine.rs).
use bey.Base.{
  ℕ, leb, ltb, ◌≤◌, ◌≡◌, ◌≢◌, refl, sym, ◌∙◌, ap, false, if_true, if_false, Option, none, some,
  List, ◌++◌, length, length-append, take, take-append, drop-append, String, string_eq, lookup,
  remove-insert, arith,
}
use bey.Base.Errors.{NetResult, ok, ◌>>=◌}
use bey.Net.Token.{Token}
use bey.Net.Engine.Crypto.{
  Cipher, KeySource, derive_by, derive_master_key, sealed, unsealed, encrypt_with, obtain_key,
  encrypt_token, after_unseal, decrypt_token,
}

-- What reading an encrypted token with a key comes to.
decrypt-sealed :
    (cipher : Cipher) (key nonce ciphertext : List ℕ) (token : Token)
    → 32 ≤ length key
    → length nonce ≡ 12
    → decrypt_token cipher (some key) (sealed token (nonce ++ ciphertext))
      ≡ after_unseal
          (sealed token (nonce ++ ciphertext))
          (cipher.unseal (take 32 key) nonce ciphertext)
unfolding decrypt_token
decrypt-sealed cipher key nonce ciphertext token h n =
    if_true (λ r. r ≡ result) (leb 32 (length key)) _ _ (ground arith)
      (if_false (λ r. r ≡ result) (ltb (length (nonce ++ ciphertext)) 12) _ _
        (ground (arith, length-append nonce ciphertext))
        (rw (take-append 12 nonce ciphertext n, drop-append 12 nonce ciphertext n) refl))
  where
    result : NetResult Token
    result =
        after_unseal (sealed token (nonce ++ ciphertext))
          (cipher.unseal (take 32 key) nonce ciphertext)

module _ (cipher : Cipher) where
  -- Sealing succeeds, and with the same key and nonce unsealing gives the bytes back.
  abbrev pub Inverts : Type 0
  Inverts =
      (key nonce bytes : List ℕ)
      → (c : List ℕ) × (cipher.seal key nonce bytes ≡ some c)
        × (cipher.unseal key nonce c ≡ some bytes)

  -- With another key unsealing fails.
  abbrev pub IsAuthentic : Type 0
  IsAuthentic =
      (key other nonce bytes c : List ℕ)
      → cipher.seal key nonce bytes ≡ some c
      → other ≢ key
      → cipher.unseal other nonce c ≡ none

  -- What a key seals, unsealed with some key.
  encrypt_with-read :
      (key other nonce : List ℕ) (token : Token)
      → (i : Inverts) → 32 ≤ length key
      → 32 ≤ length other
      → length nonce ≡ 12
      → (let c = (i (take 32 key) nonce token.payload).0 in
          (encrypt_with cipher nonce token key >>= decrypt_token cipher (some other))
          ≡ after_unseal (sealed token (nonce ++ c)) (cipher.unseal (take 32 other) nonce c))
  encrypt_with-read key other nonce token i h g n =
      if_true (λ r. (r >>= decrypt_token cipher (some other)) ≡ result) (leb 32 (length key)) _ _
        (ground arith)
        (rw (i (take 32 key) nonce token.payload).1 (decrypt-sealed cipher other nonce c token g n))
    where
      c : List ℕ
      c = (i (take 32 key) nonce token.payload).0

      result : NetResult Token
      result = after_unseal (sealed token (nonce ++ c)) (cipher.unseal (take 32 other) nonce c)

  -- Keys have 32 bytes at least, and SHA-256 gives 32.
  abbrev pub KeyFits : Option (List ℕ) → Type 0
  KeyFits none = Unit
  KeyFits (some key) = 32 ≤ length key

  abbrev pub IsDigest : (String → String → List ℕ) → Type 0
  IsDigest digest = (pem name : String) → length (digest pem name) ≡ 32

  obtained :
      (source : KeySource) (pem : String) (master_key : Option (List ℕ))
      → source.certificate ≡ some (ok (some pem))
      → IsDigest source.digest
      → KeyFits master_key
      → (key : List ℕ) × (obtain_key source master_key ≡ ok key) × (32 ≤ length key)
  unfolding derive_master_key
  obtained source pem none e d k =
      (source.digest pem source.name, ap (derive_by source) e, omega (arith, d pem source.name))
  obtained source pem (some key) e d k = (key, refl, k)

  unsealed-sealed :
      (token : Token) (payload : List ℕ)
      → token.meta.encrypted ≡ false
      → lookup "encryption" token.meta.attributes ≡ none
      → unsealed (sealed token payload) token.payload ≡ token
  unsealed-sealed token payload e h =
      ap
        (λ attributes. record {
          meta = record token.meta { encrypted = false; attributes = attributes };
          payload = token.payload;
        })
        (remove-insert "encryption" "aes-256-gcm" token.meta.attributes h)
      ∙ ap (λ b. record token { meta = record token.meta { encrypted = b } }) (sym e)

  -- encrypt_token and then decrypt_token, with the key that the first leaves, give the token back.
  -- The token is not encrypted yet and has no attribute of that name, the certificate is there, the
  -- nonce has 12 bytes and a key that is there 32 at least; AES-GCM undoes itself and SHA-256 has
  -- 32 bytes.
  pub decrypt_token-encrypt_token :
      (source : KeySource) (pem : String) (nonce : List ℕ) (master_key : Option (List ℕ))
      (token : Token)
      → Inverts
      → IsDigest source.digest
      → KeyFits master_key
      → source.certificate ≡ some (ok (some pem))
      → length nonce ≡ 12
      → token.meta.encrypted ≡ false
      → lookup "encryption" token.meta.attributes ≡ none
      → (let (key, r) = encrypt_token cipher source nonce master_key token in
          (r >>= decrypt_token cipher key) ≡ ok token)
  unfolding encrypt_token
  decrypt_token-encrypt_token source pem nonce master_key token i d k e n plain free =
      let (key, was, long) = obtained source pem master_key e d k in
      let (c, seals, unseals) = i (take 32 key) nonce token.payload in
      rw was (
        encrypt_with-read key key nonce token i long long n
        ∙ ap (after_unseal (sealed token (nonce ++ c))) unseals
        ∙ ap ok (unsealed-sealed token (nonce ++ c) plain free))

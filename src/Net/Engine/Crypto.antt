-- ===== src/Net/Engine/Crypto.antt =====
-- The encryption of tokens, src/crates/bey-net/src/engine.rs. AES-256-GCM, SHA-256 and the
-- certificate manager are arguments, and so is the random nonce. A cipher of a key of 32 bytes is
-- always built, so the errors 4309, 4313 and the 4316 of the nonce do not arise.
pub mod Sealing
mod Tests
use bey.Base.{
  ℕ, leb, ltb, Bool, true, false, if◌then◌else◌, Option, none, some, List, [], ◌∷◌, ◌++◌, length,
  take, drop, String, string_eq, insert, remove,
}
use bey.Base.Errors.{
  NetResult, ok, err, panics, ◌>>=◌, ErrorInfo, ErrorCategory, new_error, with_category,
  with_severity, error, encryption, parse, configuration, authentication,
}
use bey.Net.Token.{Token}

-- What `Aes256Gcm` does with a key, a nonce and bytes; it may fail.
pub record Cipher : Type 0 where
  pub seal : List ℕ → List ℕ → List ℕ → Option (List ℕ)
  pub unseal : List ℕ → List ℕ → List ℕ → Option (List ℕ)

-- What an engine derives its key from: the SHA-256 of a certificate and a name, its own name, and
-- the answer of the certificate manager, if there is one.
pub record KeySource : Type 0 where
  pub digest : String → String → List ℕ
  pub name : String
  pub certificate : Option (NetResult (Option String))

abbrev pub fault : ℕ → ErrorCategory → ErrorInfo
fault code category = with_severity (with_category (new_error code) category) error

abbrev pub derive_from : KeySource → NetResult (Option String) → NetResult (List ℕ)
derive_from source (ok (some pem)) = ok (source.digest pem source.name)
derive_from source (ok none) = err (fault 4322 authentication)
derive_from source (err e) = err (fault 4317 authentication)
derive_from source panics = panics

abbrev pub derive_by : KeySource → Option (NetResult (Option String)) → NetResult (List ℕ)
derive_by source none = err (fault 4316 configuration)
derive_by source (some answer) = derive_from source answer

-- `derive_master_key`: the key that it stores.
unfoldable pub derive_master_key : KeySource → NetResult (List ℕ)
derive_master_key source = derive_by source source.certificate

-- The token with a new payload, and the attribute that says so.
abbrev pub sealed : Token → List ℕ → Token
sealed token payload = record {
  meta = record token.meta {
    encrypted = true;
    attributes = insert "encryption" "aes-256-gcm" token.meta.attributes;
  };
  payload = payload;
}

abbrev pub unsealed : Token → List ℕ → Token
unsealed token payload = record {
  meta = record token.meta {
    encrypted = false;
    attributes = remove "encryption" token.meta.attributes;
  };
  payload = payload;
}

abbrev pub after_seal : Token → List ℕ → Option (List ℕ) → NetResult Token
after_seal token nonce none = err (fault 4310 encryption)
after_seal token nonce (some ciphertext) = ok (sealed token (nonce ++ ciphertext))

abbrev pub encrypt_with : Cipher → List ℕ → Token → List ℕ → NetResult Token
encrypt_with cipher nonce token key =
    if leb 32 (length key)
    then after_seal token nonce (cipher.seal (take 32 key) nonce token.payload)
    else err (fault 4308 encryption)

-- The key that is there, or a new one.
abbrev pub obtain_key : KeySource → Option (List ℕ) → NetResult (List ℕ)
obtain_key source (some key) = ok key
obtain_key source none = derive_master_key source

abbrev pub store_key : Option (List ℕ) → NetResult (List ℕ) → Option (List ℕ)
store_key old (ok key) = some key
store_key old (err e) = old
store_key old panics = old

-- The master key after the call, and the result.
unfoldable pub encrypt_token :
    Cipher → KeySource → List ℕ → Option (List ℕ) → Token → Option (List ℕ) × NetResult Token
encrypt_token cipher source nonce master_key token =
    let key = obtain_key source master_key in
    (store_key master_key key, key >>= encrypt_with cipher nonce token)

abbrev pub after_unseal : Token → Option (List ℕ) → NetResult Token
after_unseal token none = err (fault 4315 encryption)
after_unseal token (some plaintext) = ok (unsealed token plaintext)

abbrev pub decrypt_payload : Cipher → List ℕ → Token → NetResult Token
decrypt_payload cipher key token =
    if ltb (length token.payload) 12
    then err (fault 4314 parse)
    else after_unseal token
        (cipher.unseal (take 32 key) (take 12 token.payload) (drop 12 token.payload))

-- `decrypt_token`, and `decrypt_token_static`, which is the same.
unfoldable pub decrypt_token : Cipher → Option (List ℕ) → Token → NetResult Token
decrypt_token cipher none token = err (fault 4311 encryption)
decrypt_token cipher (some key) token =
    if leb 32 (length key) then decrypt_payload cipher key token else err (fault 4312 encryption)

-- ===== src/Net/Engine/Crypto/Tests.antt =====
-- The theorems about encryption at concrete inputs, with a cipher that writes the key before the
-- bytes and a digest of two values.
use bey.Base.{
  ℕ, zero, suc, eqb, ◌≡◌, refl, lookup, if◌then◌else◌, if-either, Option, none, some, List, [], ◌∷◌,
  length, String, string_eq, ◌==◌, arith,
}
use bey.Base.Errors.{ok, ◌>>=◌}
use bey.Net.Token.{Token, new_meta}
use bey.Net.Engine.Crypto.{Cipher, KeySource, encrypt_token, decrypt_token}
use bey.Net.Engine.Crypto.Sealing.{Inverts, IsDigest, decrypt_token-encrypt_token}

abbrev write_key : List ℕ → List ℕ → List ℕ
write_key [] bytes = 0 ∷ bytes
write_key (x ∷ key) bytes = 1 ∷ x ∷ write_key key bytes

abbrev read_key : List ℕ → List ℕ → Option (List ℕ)
read_key [] (zero ∷ bytes) = some bytes
read_key (x ∷ key) (suc n ∷ y ∷ bytes) =
    let rest = read_key key bytes in if eqb x y then rest else none
read_key _ _ = none

abbrev toy : Cipher
toy = record {
  seal = λ key nonce bytes. some (write_key key bytes);
  unseal = λ key nonce bytes. read_key key bytes;
}

read_key-write_key : (key bytes : List ℕ) → read_key key (write_key key bytes) ≡ some bytes
read_key-write_key [] bytes = refl
read_key-write_key (x ∷ key) bytes = ground (arith, read_key-write_key key bytes)

toy-Inverts : Inverts toy
toy-Inverts key nonce bytes = (write_key key bytes, refl, read_key-write_key key bytes)

abbrev copies_of : ℕ → ℕ → List ℕ
copies_of zero x = []
copies_of (suc n) x = x ∷ copies_of n x

abbrev digest : String → String → List ℕ
digest pem name = if pem == "red" then copies_of 32 1 else copies_of 32 2

digest-IsDigest : IsDigest toy digest
digest-IsDigest pem name = if-either (λ (d : List ℕ). length d ≡ 32) (pem == "red") _ _ refl refl

abbrev source_of : String → String → KeySource
source_of name pem = record { digest = digest; name = name; certificate = some (ok (some pem)) }

abbrev nonce : List ℕ
nonce = copies_of 12 7

abbrev message : Token
message = record { meta = new_meta "id" 0 "chat" "alice"; payload = 5 ∷ 6 ∷ [] }

decrypt_token-encrypt_token_example :
    let (key, r) = encrypt_token toy (source_of "alice" "red") nonce none message in
    (r >>= decrypt_token toy key) ≡ ok message
unfolding new_meta lookup
decrypt_token-encrypt_token_example =
    decrypt_token-encrypt_token toy (source_of "alice" "red") "red" nonce none message toy-Inverts
      digest-IsDigest tt refl refl refl refl

-- ===== src/Api/Totp/Seal.antt =====
-- A secret that sealTOTP of src/svc/internal/api/totp.go writes and openTOTP reads.
use dcalcon.Base.{
  ℕ, true, false, some, List, [], ◌∷◌, ◌++◌, Text, same, all, has_prefix, trim_prefix-append, ◌≡◌,
  refl, sym, eq_of_same, arith, Bool-cases, Option-cases, inl, inr, has_prefix-append,
}
use dcalcon.Api.{Crypto}
use dcalcon.Api.Totp.{cut, totp_seal_prefix, seal_totp, open_totp}
use dcalcon.Hex.{is_byte, is_hex, decode-encode, encode-hex}
use dcalcon.Hex

cut-hex : (s rest : Text) → all is_hex s ≡ true → cut b':' (s ++ b':' ∷ rest) ≡ some (s, rest)
unfolding cut all
cut-hex [] rest h = refl
cut-hex (c ∷ s) rest h = rw (cut-hex s rest (ground arith)) (ground arith)

-- openTOTP reads back the secret that sealTOTP wrote, if what AES-GCM seals opens to the same text,
-- its ciphertexts and nonces are bytes, and a secret that is not sealed lacks the prefix of sealed
-- ones.
pub open_totp-seal_totp :
    (c : Crypto) (plain : Text)
    → ((p : Text) (ct nonce : List ℕ)
        → c.seal p ≡ some (ct, nonce)
        → (c.unseal ct nonce ≡ some p) × (all is_byte ct ≡ true) × (all is_byte nonce ≡ true))
    → has_prefix plain totp_seal_prefix ≡ false
    → open_totp c (seal_totp c plain) ≡ plain
unfolding open_totp seal_totp same
open_totp-seal_totp c plain aead plain_prefix = elim (Bool-cases (same plain [])) [
  | inl empty ↦ rw empty (sym (eq_of_same plain [] empty))
  | inr given ↦ elim (Option-cases (c.seal plain)) [
    | inl unkeyed ↦ rw (given, unkeyed) (rw (given, plain_prefix) refl)
    | inr ((ct, nonce), e) ↦
        let (opens, ct_bytes, nonce_bytes) = aead plain ct nonce e in
        rw (given, e)
          (rw
            (
              has_prefix-append totp_seal_prefix (Hex.encode nonce ++ b':' ∷ Hex.encode ct),
              trim_prefix-append totp_seal_prefix (Hex.encode nonce ++ b':' ∷ Hex.encode ct),
              cut-hex (Hex.encode nonce) (Hex.encode ct) (encode-hex nonce nonce_bytes),
              decode-encode nonce nonce_bytes,
              decode-encode ct ct_bytes,
              opens,
            )
            refl)
  ]
]

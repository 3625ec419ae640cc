-- ===== src/Nip04/Messages.antt =====
-- A NIP-04 message decrypts to what it was made of, for both keys.
use passport_nostr_signer.Prelude.{
  ℕ, ◌≡◌, ◌≢◌, refl, inl, inr, none, some, [], ◌∷◌, ◌++◌, arith, Bytes, Text, text, length, All,
}
use passport_nostr_signer.Prelude.Result.{Result, ok, Result-cases}
use passport_nostr_signer.Strings.{split_once, strip_prefix}
use passport_nostr_signer.Keys.{NostrError}
use passport_nostr_signer.Nip04.{Lib, delimiter, encrypt, decrypt}

-- What the crates must do for a message to come back. No base64 text has a question mark.
pub record IsFaithful (lib : Lib) : Type 0 where
  pub utf8_back : (s : Text) → lib.from_utf8 (lib.utf8 s) ≡ some s
  pub b64_back : (b : Bytes) → lib.b64_decode (lib.b64_encode b) ≡ ok b
  pub b64_plain : (b : Bytes) → All (λ c. c ≢ 63) (lib.b64_encode b)
  pub cbc_back : (key iv b : Bytes) → lib.cbc_decrypt key iv (lib.cbc_encrypt key iv b) ≡ some b

strip_prefix_self : (ps s : Text) → strip_prefix ps (ps ++ s) ≡ some s
unfolding strip_prefix
strip_prefix_self [] s = refl
strip_prefix_self (p ∷ ps) s = ground (arith, strip_prefix_self ps s)

strip_prefix_other : (p c : ℕ) (ps cs : Text) → c ≢ p → strip_prefix (p ∷ ps) (c ∷ cs) ≡ none
unfolding strip_prefix
strip_prefix_other p c ps cs h = ground (arith, h)

-- The first code point of the separator does not occur before it.
split_once_at :
    (p : ℕ) (ps before after : Text)
    → All (λ c. c ≢ p) before
    → split_once (p ∷ ps) (before ++ ((p ∷ ps) ++ after)) ≡ some (before, after)
unfolding split_once
split_once_at p ps [] after h = rw (strip_prefix_self (p ∷ ps) after) refl
split_once_at p ps (c ∷ cs) after h =
    rw (strip_prefix_other p c ps (cs ++ ((p ∷ ps) ++ after)) h.0, split_once_at p ps cs after h.1)
      refl

-- A text that `encrypt` has encrypted, with an iv of 16 bytes, is what `decrypt` gives back to whoever
-- has the same shared secret, if UTF-8, base64 and AES-CBC are inverted and base64 writes no question
-- mark.
pub nip04_decrypt-encrypt :
    (lib : Lib) (shared : Result Bytes NostrError) (iv : Bytes) (plaintext payload : Text)
    → IsFaithful lib
    → length iv ≡ 16
    → encrypt lib shared (some iv) plaintext ≡ ok payload
    → decrypt lib shared payload ≡ ok plaintext
unfolding encrypt decrypt split_once text
nip04_decrypt-encrypt lib shared iv plaintext payload f size h = elim (Result-cases shared) [
  | inl (key, e) ↦
      let ct = lib.cbc_encrypt key iv (lib.utf8 plaintext) in
      let is : lib.b64_encode ct ++ (delimiter ++ lib.b64_encode iv) ≡ payload = cc (rw e at h) in
      rw
        (
          ← is,
          split_once_at 63 (text "iv=") (lib.b64_encode ct) (lib.b64_encode iv) (f.b64_plain ct),
          f.b64_back ct,
          f.b64_back iv,
          size,
          e,
          f.cbc_back key iv (lib.utf8 plaintext),
          f.utf8_back plaintext,
        )
        refl
  | inr (x, e) ↦ absurd (cc (rw e at h))
]

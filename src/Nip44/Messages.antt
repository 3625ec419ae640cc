-- ===== src/Nip44/Messages.antt =====
-- An encrypted message decrypts to what it was made of.
use passport_nostr_signer.Prelude.{
  ℕ, zero, suc, ◌+◌, ◌-◌, ◌≤◌, get_or, ◌≡◌, refl, sym, ◌∙◌, ap, true, false, ◌||◌, inl, inr, some,
  [], ◌∷◌, ◌++◌, arith, Bytes, Text, length, take, drop, ltb, Bool-cases, length-append,
  take-append, drop-append,
}
use passport_nostr_signer.Prelude.Result.{Result, Result-cases, ok}
use passport_nostr_signer.Prelude.Bits.{bit_or-eq-zero, bit_xor-eq-zero}
use passport_nostr_signer.Nip44.{
  Lib, version, ct_diff, ct_eq, pad, unpad, conversation_key, encrypt, decrypt, derive_message_keys,
  hmac_over_nonce_and_ct, encrypt_with_nonce, open_payload, is_future, decrypt_with_key,
}
use passport_nostr_signer.Nip44.Padding.{unpad_bytes-pad, length-pad, calc_padded_len_min}
use passport_nostr_signer.Keys.{NostrError}

-- What the crates must do for a message to come back.
pub record IsFaithful (lib : Lib) : Type 0 where
  pub utf8_back : (s : Text) → lib.from_utf8 (lib.utf8 s) ≡ some s
  pub b64_back : (b : Bytes) → lib.b64_decode (lib.b64_encode b) ≡ ok b
  pub b64_plain : (b : Bytes) → is_future lib (lib.b64_encode b) ≡ false
  pub chacha_back : (key nonce b : Bytes) → lib.chacha20 key nonce (lib.chacha20 key nonce b) ≡ b
  pub chacha_length : (key nonce b : Bytes) → length (lib.chacha20 key nonce b) ≡ length b
  pub mac_length : (key b : Bytes) → length (lib.hmac_sha256 key b) ≡ 32

ct_diff_self : (a : Bytes) → ct_diff 0 a a ≡ 0
unfolding ct_diff
ct_diff_self [] = refl
ct_diff_self (x ∷ a) =
    let same = (bit_xor-eq-zero x x).1 refl in
    let start = (bit_or-eq-zero 0 0).1 (refl, refl) in rw (same, start) (ct_diff_self a)

ct_eq_self : (a : Bytes) → ct_eq a a ≡ true
unfolding ct_eq
ct_eq_self a = rw (ct_diff_self a) refl

drop_two : (n : ℕ) (a b c : Bytes) → n ≡ length a + length b → drop n (a ++ (b ++ c)) ≡ c
drop_two n [] b c h = drop-append n b c (omega arith)
drop_two zero (x ∷ a) b c h = absurd (omega arith)
drop_two (suc n) (x ∷ a) b c h = drop_two n a b c (omega arith)

module _ (lib : Lib) (conversation_key nonce : Bytes) where
  open_parts :
      (payload ct mac : Bytes)
      → ltb (length payload) 97 ≡ false
      → get_or payload 0 0 ≡ 2
      → take 32 (drop 1 payload) ≡ nonce
      → take (length payload - 32 - 33) (drop 33 payload) ≡ ct
      → drop (length payload - 32) payload ≡ mac
      → let keys = derive_message_keys lib conversation_key nonce in
        hmac_over_nonce_and_ct lib keys.2 nonce ct ≡ mac
        → open_payload lib conversation_key payload ≡ unpad lib (lib.chacha20 keys.0 keys.1 ct)
  unfolding open_payload
  open_parts payload ct mac long v n c m same = rw (long, v, n, c, m, same, ct_eq_self mac) refl

  -- A payload put together as `encrypt_with_nonce` does is taken apart again.
  open_sealed :
      (padded : Bytes)
      → IsFaithful lib
      → length nonce ≡ 32
      → 32 ≤ length padded
      → let keys = derive_message_keys lib conversation_key nonce in
        let ct = lib.chacha20 keys.0 keys.1 padded in
        open_payload lib conversation_key
          (version ∷ nonce ++ (ct ++ hmac_over_nonce_and_ct lib keys.2 nonce ct))
        ≡ unpad lib padded
  unfolding hmac_over_nonce_and_ct
  open_sealed padded f n long =
      let keys = derive_message_keys lib conversation_key nonce in
      let ct : Bytes = lib.chacha20 keys.0 keys.1 padded in
      let mac : Bytes = lib.hmac_sha256 keys.2 (nonce ++ ct) in
      let payload : Bytes = version ∷ nonce ++ (ct ++ mac) in
      let size : length payload ≡ 65 + length ct = omega (
        arith,
        length-append nonce (ct ++ mac),
        length-append ct mac,
        f.mac_length keys.2 (nonce ++ ct),
        n,
      ) in
      let wide : 32 ≤ length ct = omega (arith, f.chacha_length keys.0 keys.1 padded) in
      let body : drop 32 (nonce ++ (ct ++ mac)) ≡ ct ++ mac =
        drop-append 32 nonce (ct ++ mac) (sym n) in
      open_parts payload ct mac (ground (arith, size, wide)) refl
        (take-append 32 nonce (ct ++ mac) (sym n))
        (ap (take (length payload - 32 - 33)) body
          ∙ take-append (length payload - 32 - 33) ct mac (omega arith))
        (ap (λ k. drop k payload) (the_end payload ct size)
          ∙ drop_two (32 + length ct) nonce ct mac (omega arith))
        refl
      ∙ ap (unpad lib) (f.chacha_back keys.0 keys.1 padded)
    where
      the_end :
          (payload ct : Bytes)
          → length payload ≡ 65 + length ct
          → length payload - 32 ≡ suc (32 + length ct)
      the_end payload ct h = omega arith

  unpad-pad :
      (s : Text)
      → IsFaithful lib
      → 1 ≤ length (lib.utf8 s)
      → length (lib.utf8 s) ≤ 65535
      → unpad lib (pad (lib.utf8 s)) ≡ ok s
  unfolding unpad
  unpad-pad s f low high = rw (unpad_bytes-pad (lib.utf8 s) low high, f.utf8_back s) refl

  decrypt_encoded :
      (b : Bytes)
      → IsFaithful lib
      → decrypt_with_key lib conversation_key (lib.b64_encode b)
        ≡ open_payload lib conversation_key b
  unfolding decrypt_with_key
  decrypt_encoded b f = rw (f.b64_plain b, f.b64_back b) refl

  decrypt_with_key-encrypt :
      (plaintext payload : Text)
      → IsFaithful lib
      → length nonce ≡ 32
      → encrypt_with_nonce lib conversation_key nonce plaintext ≡ ok payload
      → decrypt_with_key lib conversation_key payload ≡ ok plaintext
  unfolding encrypt_with_nonce
  decrypt_with_key-encrypt plaintext payload f n h =
      let bytes : Bytes = lib.utf8 plaintext in
      let keys = derive_message_keys lib conversation_key nonce in
      let ct : Bytes = lib.chacha20 keys.0 keys.1 (pad bytes) in
      let b : Bytes = version ∷ nonce ++ (ct ++ hmac_over_nonce_and_ct lib keys.2 nonce ct) in
      elim (Bool-cases (ltb (length bytes) 1 || ltb 65535 (length bytes))) [
        | inl outside ↦ absurd (cc (rw outside at h))
        | inr inside ↦
            let low : 1 ≤ length bytes = ground arith in
            let high : length bytes ≤ 65535 = ground arith in
            let is : lib.b64_encode b ≡ payload = cc (rw inside at h) in
            ap (decrypt_with_key lib conversation_key) (sym is)
            ∙ decrypt_encoded b f
            ∙ open_sealed (pad bytes) f n
                (omega (arith, length-pad bytes high, calc_padded_len_min (length bytes)))
            ∙ unpad-pad plaintext f low high
      ]

-- A text that `encrypt` has encrypted, with a nonce of 32 bytes, is what `decrypt` gives back to whoever
-- has the same shared secret, if UTF-8, base64 and ChaCha20 are inverted and ChaCha20 and HMAC keep
-- their lengths.
pub decrypt-encrypt :
    (lib : Lib) (shared : Result Bytes NostrError) (nonce : Bytes) (plaintext payload : Text)
    → IsFaithful lib
    → length nonce ≡ 32
    → encrypt lib shared (some nonce) plaintext ≡ ok payload
    → decrypt lib shared payload ≡ ok plaintext
unfolding encrypt decrypt
decrypt-encrypt lib shared nonce plaintext payload f n h =
    elim (Result-cases (conversation_key lib shared)) [
      | inl (ck, e) ↦ rw e (decrypt_with_key-encrypt lib ck nonce plaintext payload f n (rw e at h))
      | inr (x, e) ↦ absurd (cc (rw e at h))
    ]

-- ===== src/Tests/Ciphers.antt =====
-- NIP-44 and bech32 with small stand-ins for the crates.
use passport_nostr_signer.Prelude.{
  eqb, ◌≡◌, refl, some, ◌∷◌, ◌++◌, arith, Bytes, Text, text, drop, replicate, length, take, get_or,
  take-append, drop-append,
}
use passport_nostr_signer.Prelude.Result.{ok, err}
use passport_nostr_signer.Keys.{bech32_hrp, secret_from_slice}
use passport_nostr_signer.Keys.Valid.{IsSecret}
use passport_nostr_signer.Bech32
use passport_nostr_signer.Bech32.{
  hrp_npub, hrp_nsec, decode_entity, decode_npub, nsec_not_npub, encode_entity, encode_nsec,
  decode_nsec, decode_nsec-encode_nsec,
}
use passport_nostr_signer.Tests.Samples.{curve, hx, secret_a}
use passport_nostr_signer.Nip44.{
  Lib, pad, unpad_bytes, resize, calc_padded_len, conversation_key, encrypt, encrypt_with_nonce,
  decrypt, derive_message_keys, hmac_over_nonce_and_ct, is_future,
}
use passport_nostr_signer.Nip44.Padding.{unpad_bytes-pad}
use passport_nostr_signer.Nip44.Messages.{IsFaithful, decrypt-encrypt}

abbrev pub lib : Lib
lib = record {
  utf8 = λ s. s;
  from_utf8 = λ b. some b;
  b64_encode = λ b. 65 ∷ b;
  b64_decode = λ s. ok (drop 1 s);
  hkdf_extract = λ salt ikm. ikm;
  hkdf_expand = λ prk nonce n. replicate n 1;
  chacha20 = λ key nonce b. b;
  hmac_sha256 = λ key b. replicate 32 5;
}

pub lib-IsFaithful : IsFaithful lib
unfolding is_future
lib-IsFaithful = record {
  utf8_back = λ s. refl;
  b64_back = λ b. refl;
  b64_plain = λ b. refl;
  chacha_back = λ key nonce b. refl;
  chacha_length = λ key nonce b. refl;
  mac_length = λ key b. refl;
}

abbrev nonce : Bytes
nonce = replicate 32 3

abbrev payload : Text
payload = 65 ∷ 2 ∷ nonce ++ ((0 ∷ 2 ∷ text "gm" ++ replicate 30 0) ++ replicate 32 5)

encrypted : encrypt lib (ok (replicate 32 4)) (some nonce) (text "gm") ≡ ok payload
unfolding encrypt conversation_key encrypt_with_nonce derive_message_keys hmac_over_nonce_and_ct pad
    resize calc_padded_len text
encrypted = refl

decrypt-encrypt_example : decrypt lib (ok (replicate 32 4)) payload ≡ ok (text "gm")
decrypt-encrypt_example =
    decrypt-encrypt lib (ok (replicate 32 4)) nonce (text "gm") payload lib-IsFaithful refl
      encrypted

unpad_bytes-pad_example : unpad_bytes (pad (replicate 40 7)) ≡ ok (replicate 40 7)
unpad_bytes-pad_example = unpad_bytes-pad (replicate 40 7) (omega arith) (omega arith)

-- A stand-in that writes the prefix's length first, and reads the prefix back from it.
abbrev nsec_lib : Bech32.Lib
nsec_lib = record {
  encode = λ hrp b. ok (length hrp ∷ hrp ++ b);
  decode = λ s. ok (take (get_or s 0 0) (drop 1 s), drop (get_or s 0 0) (drop 1 s));
}

nsec_lib-Inverts : Bech32.Inverts nsec_lib hrp_nsec
unfolding Bech32.Inverts
nsec_lib-Inverts bytes s h =
    let is : length hrp_nsec ∷ hrp_nsec ++ bytes ≡ s = cc h in
    rw
      (
        ← is,
        take-append (length hrp_nsec) hrp_nsec bytes refl,
        drop-append (length hrp_nsec) hrp_nsec bytes refl,
      )
      refl

secret_a-IsSecret : IsSecret curve hx secret_a
secret_a-IsSecret = record { size = refl; valid = refl }

written_a : encode_nsec nsec_lib secret_a ≡ ok (4 ∷ text "nsec" ++ secret_a.bytes)
unfolding encode_nsec encode_entity text
written_a = refl

decode_nsec-encode_nsec_example :
    decode_nsec nsec_lib curve hx (4 ∷ text "nsec" ++ secret_a.bytes) ≡ ok secret_a
decode_nsec-encode_nsec_example =
    decode_nsec-encode_nsec nsec_lib curve hx secret_a (4 ∷ text "nsec" ++ secret_a.bytes)
      nsec_lib-Inverts secret_a-IsSecret written_a

read_a : decode_nsec nsec_lib curve hx (4 ∷ text "nsec" ++ secret_a.bytes) ≡ ok secret_a
unfolding decode_nsec decode_entity secret_from_slice text eqb
read_a = refl

nsec_not_npub_example :
    decode_npub nsec_lib curve hx (4 ∷ text "nsec" ++ secret_a.bytes)
    ≡ err (bech32_hrp hrp_npub hrp_nsec)
nsec_not_npub_example =
    nsec_not_npub nsec_lib curve hx (4 ∷ text "nsec" ++ secret_a.bytes) secret_a read_a

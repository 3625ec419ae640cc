-- ===== src/Nip44.antt =====
-- logic/nostr-core/src/nip44.rs: NIP-44 version 2. A plaintext is the UTF-8 of a text; what
-- `shared_secret` gives for the two keys is an argument.
pub mod Padding
pub mod Messages
use passport_nostr_signer.Prelude.{
  ℕ, zero, suc, ◌+◌, ◌-◌, ◌*◌, ◌/◌, ◌%◌, ◌^◌, Bool, true, false, not, ◌||◌, Option, none, some,
  List, [], ◌∷◌, ◌++◌, bit_or, bit_xor, Bytes, Text, text, length, get_or, take, drop, replicate,
  ltb, leb, ◌==◌, if◌then◌else◌,
}
use passport_nostr_signer.Prelude.Result.{Result, ok, err, ◌>>=◌, ◌>>◌, reject_if, ok_or}
use passport_nostr_signer.Keys.{NostrError, nip44, base64, SecretKey, PublicKey}

abbrev pub version : ℕ
version = 2

abbrev pub min_plaintext_len : ℕ
min_plaintext_len = 1

abbrev pub max_plaintext_len : ℕ
max_plaintext_len = 65535

-- UTF-8, base64, HKDF, ChaCha20 (key, nonce, data) and HMAC-SHA256.
pub record Lib : Type 0 where
  pub utf8 : Text → Bytes
  pub from_utf8 : Bytes → Option Text
  pub b64_encode : Bytes → Text
  pub b64_decode : Text → Result Bytes Text
  pub hkdf_extract : Bytes → Bytes → Bytes
  pub hkdf_expand : Bytes → Bytes → ℕ → Bytes
  pub chacha20 : Bytes → Bytes → Bytes → Bytes
  pub hmac_sha256 : Bytes → Bytes → Bytes

-- `32 - leading_zeros()` of a `u32`: its number of binary digits; 32 steps are enough.
unfoldable pub digits : ℕ → ℕ → ℕ
digits zero n = 0
digits (suc fuel) n = let rest = digits fuel (n / 2) in if n == 0 then 0 else 1 + rest

-- `chunk` in `calc_padded_len`, of `next_power`.
unfoldable pub chunk_of : ℕ → ℕ
chunk_of next_power = if leb next_power 256 then 32 else next_power / 8

unfoldable pub calc_padded_len : ℕ → ℕ
calc_padded_len unpadded_len =
    if leb unpadded_len 32
    then 32
    else let chunk = chunk_of (2 ^ digits 32 (unpadded_len - 1)) in
      chunk * ((unpadded_len - 1) / chunk + 1)

-- `Vec::resize` with zeros.
unfoldable pub resize : ℕ → Bytes → Bytes
resize n b = if leb n (length b) then take n b else b ++ replicate (n - length b) 0

unfoldable pub pad : Bytes → Bytes
pad plaintext =
    let len = length plaintext % 2 ^ 16 in
    resize (2 + calc_padded_len (length plaintext)) (len / 256 ∷ len % 256 ∷ plaintext)

unfoldable pub unpad_bytes : Bytes → Result Bytes NostrError
unpad_bytes padded = do
  reject_if (ltb (length padded) 2) (nip44 (text "padded too short"))
  let declared_len = get_or padded 0 0 * 256 + get_or padded 1 0
  reject_if (ltb declared_len min_plaintext_len || ltb max_plaintext_len declared_len)
      (nip44 (text "declared length out of range"))
  reject_if (not (length padded == 2 + calc_padded_len declared_len))
      (nip44 (text "padded size does not match declared length"))
  ok (take declared_len (drop 2 padded))

-- The loop of `ct_eq` over two arrays of 32 bytes.
unfoldable pub ct_diff : ℕ → Bytes → Bytes → ℕ
ct_diff x (a ∷ as') (b ∷ bs) = ct_diff (bit_or x (bit_xor a b)) as' bs
ct_diff x _ _ = x

unfoldable pub ct_eq : Bytes → Bytes → Bool
unfolding ct_diff
ct_eq a b = ct_diff 0 a b == 0

abbrev pub base64_error : Result Bytes Text → Result Bytes NostrError
base64_error (ok b) = ok b
base64_error (err e) = err (base64 e)

module _ (lib : Lib) where
  unfoldable pub unpad : Bytes → Result Text NostrError
  unpad padded = do
    pt ← unpad_bytes padded
    ok_or (lib.from_utf8 pt) (nip44 (text "plaintext not utf-8"))

  -- `derive_message_keys`: the ChaCha20 key and nonce, and the HMAC key.
  unfoldable pub derive_message_keys : Bytes → Bytes → Bytes × Bytes × Bytes
  derive_message_keys conversation_key nonce =
      let material = lib.hkdf_expand conversation_key nonce 76 in
      (take 32 material, take 12 (drop 32 material), take 32 (drop 44 material))

  unfoldable pub hmac_over_nonce_and_ct : Bytes → Bytes → Bytes → Bytes
  hmac_over_nonce_and_ct hmac_key nonce ct = lib.hmac_sha256 hmac_key (nonce ++ ct)

  unfoldable pub encrypt_with_nonce : Bytes → Bytes → Text → Result Text NostrError
  encrypt_with_nonce conversation_key nonce plaintext = do
    let bytes = lib.utf8 plaintext
    reject_if (ltb (length bytes) min_plaintext_len || ltb max_plaintext_len (length bytes))
        (nip44 (text "plaintext length out of range"))
    let keys = derive_message_keys conversation_key nonce
    let ct = lib.chacha20 keys.0 keys.1 (pad bytes)
    let mac = hmac_over_nonce_and_ct keys.2 nonce ct
    ok (lib.b64_encode (version ∷ nonce ++ (ct ++ mac)))

  -- `decrypt_with_key` from the decoded payload on.
  unfoldable pub open_payload : Bytes → Bytes → Result Text NostrError
  open_payload conversation_key payload = do
    reject_if (ltb (length payload) (1 + 32 + 32 + 32)) (nip44 (text "payload too short"))
    reject_if (not (get_or payload 0 0 == version)) (nip44 (text "unsupported version byte"))
    let nonce = take 32 (drop 1 payload)
    let ct = take (length payload - 32 - 33) (drop 33 payload)
    let mac_tag = drop (length payload - 32) payload
    let keys = derive_message_keys conversation_key nonce
    reject_if (not (ct_eq (hmac_over_nonce_and_ct keys.2 nonce ct) mac_tag))
        (nip44 (text "mac mismatch"))
    unpad (lib.chacha20 keys.0 keys.1 ct)

  -- `starts_with('#')`
  unfoldable pub is_future : Text → Bool
  is_future [] = false
  is_future (c ∷ cs) = c == 35

  unfoldable pub decrypt_with_key : Bytes → Text → Result Text NostrError
  decrypt_with_key conversation_key payload_b64 = do
    reject_if (is_future payload_b64) (nip44 (text "unsupported future version (leading #)"))
    payload ← base64_error (lib.b64_decode payload_b64)
    open_payload conversation_key payload

  -- `conversation_key`, of what `shared_secret` gives.
  unfoldable pub conversation_key : Result Bytes NostrError → Result Bytes NostrError
  conversation_key shared = do ikm ← shared; ok (lib.hkdf_extract (text "nip44-v2") ikm)

  unfoldable pub encrypt : Result Bytes NostrError → Option Bytes → Text → Result Text NostrError
  encrypt shared nonce_draw plaintext = do
    nonce ← ok_or nonce_draw (nip44 (text "rng failed"))
    ck ← conversation_key shared
    encrypt_with_nonce ck nonce plaintext

  unfoldable pub decrypt : Result Bytes NostrError → Text → Result Text NostrError
  decrypt shared payload_b64 = do ck ← conversation_key shared; decrypt_with_key ck payload_b64

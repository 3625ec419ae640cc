-- ===== src/Nip04.antt =====
-- logic/nostr-core/src/nip04.rs: the shared secret of two keys, and NIP-04 messages. Points and scalars of
-- the curve are those of `k256`.
pub mod Messages
use passport_nostr_signer.Prelude.{
  ℕ, Bool, not, ◌||◌, Option, none, some, List, [], ◌∷◌, ◌++◌, Bytes, Text, text, length, get_or,
  take, drop, ◌==◌, if◌then◌else◌,
}
use passport_nostr_signer.Prelude.Result.{Result, ok, err, ◌>>=◌, ◌>>◌, reject_if, ok_or, map_err}
use passport_nostr_signer.Strings.{split_once}
use passport_nostr_signer.Keys.{NostrError, invalid_key, nip04, base64, SecretKey, PublicKey}

-- `K256Pub::from_sec1_bytes`, `ScalarPrimitive::from_bytes`, the product, and the uncompressed encoding.
pub record Group (Point Scalar : Type 0) : Type 0 where
  pub from_sec1 : Bytes → Option Point
  pub scalar_of : Bytes → Option Scalar
  pub mul : Point → Scalar → Point
  pub uncompressed : Point → Bytes

-- AES-256-CBC with PKCS#7 padding, UTF-8 and base64.
pub record Lib : Type 0 where
  pub utf8 : Text → Bytes
  pub from_utf8 : Bytes → Option Text
  pub b64_encode : Bytes → Text
  pub b64_decode : Text → Result Bytes Text
  pub cbc_encrypt : Bytes → Bytes → Bytes → Bytes
  pub cbc_decrypt : Bytes → Bytes → Bytes → Option Bytes

abbrev pub delimiter : Text
delimiter = text "?iv="

module _ {Point Scalar : Type 0} (group : Group Point Scalar) where
  -- The point with this x and an even y.
  unfoldable pub lift_x : Bytes → Result Point NostrError
  lift_x x = ok_or (group.from_sec1 (2 ∷ x)) invalid_key

  unfoldable pub sk_to_scalar : SecretKey → Result Scalar NostrError
  sk_to_scalar sk = ok_or (group.scalar_of sk.bytes) invalid_key

  unfoldable pub shared_secret : SecretKey → PublicKey → Result Bytes NostrError
  unfolding lift_x sk_to_scalar
  shared_secret sk peer = do
    peer_point ← lift_x peer.bytes
    scalar ← sk_to_scalar sk
    let bytes = group.uncompressed (group.mul peer_point scalar)
    reject_if (not (length bytes == 65) || not (get_or bytes 0 0 == 4))
        (nip04 (text "ecdh yielded unexpected point encoding"))
    ok (take 32 (drop 1 bytes))

-- What `shared_secret` gives is an argument.
module _ (lib : Lib) where
  unfoldable pub encrypt : Result Bytes NostrError → Option Bytes → Text → Result Text NostrError
  encrypt shared iv_draw plaintext = do
    key ← shared
    iv ← ok_or iv_draw (nip04 (text "rng failed"))
    ok (
        lib.b64_encode (lib.cbc_encrypt key iv (lib.utf8 plaintext))
        ++ (delimiter ++ lib.b64_encode iv))

  unfoldable pub decrypt : Result Bytes NostrError → Text → Result Text NostrError
  decrypt shared payload = do
    parts ← ok_or (split_once delimiter payload) (nip04 (text "missing ?iv= delimiter"))
    ct ← map_err base64 (lib.b64_decode parts.0)
    iv ← map_err base64 (lib.b64_decode parts.1)
    reject_if (not (length iv == 16)) (nip04 (text "iv must be 16 bytes"))
    key ← shared
    pt ← ok_or (lib.cbc_decrypt key iv ct) (nip04 (text "cbc decrypt / padding error"))
    ok_or (lib.from_utf8 pt) (nip04 (text "plaintext not utf-8"))

-- ===== src/Hexed.antt =====
-- logic/keystore/src/lib.rs and logic/nostr-core/src/event.rs: the `serde` helpers that write byte fields in
-- hex. The string that `serde` carries is the text here, and its errors are their messages.
use passport_nostr_signer.Prelude.{
  ℕ, ◌≡◌, ◌∙◌, refl, true, inl, inr, not, Bytes, Text, text, length, ◌==◌, arith,
}
use passport_nostr_signer.Prelude.Result.{Result, ok, ◌>>=◌, ◌>>◌, reject_if, map_err, Result-cases}
use passport_nostr_signer.External.{Hex, Curve}
use passport_nostr_signer.Describe.{Show, nostr_text}
use passport_nostr_signer.Keys.{PublicKey, public_from_hex, public_to_hex}

-- The two functions of one helper module.
pub record Codec (A : Type 0) : Type 0 where
  pub serialize : A → Text
  pub deserialize : Text → Result A Text

abbrev pub HasSize : ℕ → Bytes → Type 0
HasSize size b = length b ≡ size

-- A public key as the constructors let it through.
pub record IsPublic (curve : Curve) (pk : PublicKey) : Type 0 where
  pub size : length pk.bytes ≡ 32
  pub valid : curve.valid_public pk.bytes ≡ true

module _ (hx : Hex) where
  -- The bodies that the modules share but for the size and the message.
  unfoldable pub deserialize_sized : ℕ → Text → Text → Result Bytes Text
  deserialize_sized size message s = do
    v ← hx.decode s
    reject_if (not (length v == size)) message
    ok v

  unfoldable pub hex_bytes_16 : Codec Bytes
  hex_bytes_16 = record {
    serialize = hx.encode;
    deserialize = deserialize_sized 16 (text "expected 16-byte hex");
  }

  unfoldable pub hex_bytes_32 : Codec Bytes
  hex_bytes_32 = record {
    serialize = hx.encode;
    deserialize = deserialize_sized 32 (text "expected 32-byte hex");
  }

  unfoldable pub hex_bytes_12 : Codec Bytes
  hex_bytes_12 = record {
    serialize = hx.encode;
    deserialize = deserialize_sized 12 (text "expected 12-byte hex");
  }

  unfoldable pub hex32 : Codec Bytes
  hex32 = record {
    serialize = hx.encode;
    deserialize = deserialize_sized 32 (text "expected 32-byte hex");
  }

  unfoldable pub hex64 : Codec Bytes
  hex64 = record {
    serialize = hx.encode;
    deserialize = deserialize_sized 64 (text "expected 64-byte hex");
  }

  unfoldable pub pubkey_hex : Curve → Show → Codec PublicKey
  pubkey_hex curve show = record {
    serialize = public_to_hex curve hx;
    deserialize = λ s. map_err (nostr_text show) (public_from_hex curve hx s);
  }

  -- What fits is read back as it was written, and all that is read fits.
  pub record IsFaithful {A : Type 0} (codec : Codec A) (Fits : A → Type 0) : Type 0 where
    pub back : (a : A) → Fits a → codec.deserialize (codec.serialize a) ≡ ok a
    pub fits : (s : Text) (a : A) → codec.deserialize s ≡ ok a → Fits a

  module _ (hex_back : (b : Bytes) → hx.decode (hx.encode b) ≡ ok b) where
    sized_back :
        (size : ℕ) (message : Text) (b : Bytes)
        → length b ≡ size
        → deserialize_sized size message (hx.encode b) ≡ ok b
    unfolding deserialize_sized
    sized_back size message b h = rw (hex_back b) (ground (arith, h))

    sized_fits :
        (size : ℕ) (message s : Text) (b : Bytes)
        → deserialize_sized size message s ≡ ok b
        → length b ≡ size
    unfolding deserialize_sized
    sized_fits size message s b h = ground (arith, h)

    public_back :
        (curve : Curve) (pk : PublicKey)
        → IsPublic curve pk
        → public_from_hex curve hx (hx.encode pk.bytes) ≡ ok pk
    unfolding public_from_hex
    public_back curve pk p = rw (hex_back pk.bytes) (ground (arith, p.size, p.valid))

    public_from_hex-IsPublic :
        (curve : Curve) (s : Text) (pk : PublicKey)
        → public_from_hex curve hx s ≡ ok pk
        → IsPublic curve pk
    unfolding public_from_hex
    public_from_hex-IsPublic curve s pk h = record {
      size = ground (arith, h);
      valid = ground (arith, h);
    }

    pubkey_hex-IsPublic :
        (curve : Curve) (show : Show) (s : Text) (pk : PublicKey)
        → map_err (nostr_text show) (public_from_hex curve hx s) ≡ ok pk
        → IsPublic curve pk
    pubkey_hex-IsPublic curve show s pk h = elim (Result-cases (public_from_hex curve hx s)) [
      | inl (q, e) ↦ public_from_hex-IsPublic curve s pk (e ∙ (cc (rw e at h)))
      | inr (x, e) ↦ absurd (cc (rw e at h))
    ]

    -- Each field reads back what it wrote, if that has the field's size, and reads nothing of another
    -- size; a public key is read only if the curve accepts it. This needs that `hex` is inverted.
    pub codecs-IsFaithful :
        (curve : Curve) (show : Show)
        → IsFaithful hex_bytes_16 (HasSize 16)
          × IsFaithful hex_bytes_32 (HasSize 32)
          × IsFaithful hex_bytes_12 (HasSize 12)
          × IsFaithful hex32 (HasSize 32)
          × IsFaithful hex64 (HasSize 64)
          × IsFaithful (pubkey_hex curve show) (IsPublic curve)
    unfolding hex_bytes_16 hex_bytes_32 hex_bytes_12 hex32 hex64 pubkey_hex public_to_hex
    codecs-IsFaithful curve show = (
      record { back = sized_back 16 _; fits = sized_fits 16 _ },
      record { back = sized_back 32 _; fits = sized_fits 32 _ },
      record { back = sized_back 12 _; fits = sized_fits 12 _ },
      record { back = sized_back 32 _; fits = sized_fits 32 _ },
      record { back = sized_back 64 _; fits = sized_fits 64 _ },
      record {
        back = λ pk p. rw (public_back curve pk p) refl;
        fits = pubkey_hex-IsPublic curve show;
      },
    )

-- ===== src/Nip06/Child.antt =====
-- logic/nostr-core/src/nip06.rs: the derivation along a path, beside that of BIP-32.
use passport_nostr_signer.Prelude.{
  ℕ, ◌+◌, ◌^◌, ◌<◌, ◌≡◌, subst, true, inl, inr, some, List, [], ◌∷◌, Bytes, Text, text, take, drop,
  Option-cases, arith,
}
use passport_nostr_signer.Prelude.Result.{ok, Result-cases}
use passport_nostr_signer.External.{Hex, Curve}
use passport_nostr_signer.Keys.{SecretKey, secret_from_bytes}
use passport_nostr_signer.Nip06.Accounts.{path_lem}
use passport_nostr_signer.Nip06.{
  Lib, path, scalar_from_bytes, derive_child, derive_path, master_from_seed, derive,
}
use passport_nostr_signer.Nip06.Bip32.{IsModular, IsChild, derive_child-IsChild}

secret_kept :
    (curve : Curve) (hx : Hex) (k : Bytes) (sk : SecretKey)
    → secret_from_bytes curve hx k ≡ ok sk
    → (k ≡ sk.bytes) × (curve.valid_secret sk.bytes ≡ true)
unfolding secret_from_bytes
secret_kept curve hx k sk h = (ground (arith, h), ground (arith, h))

module _ {Scalar : Type 0} (lib : Lib Scalar) where
  module _ (order : ℕ) (value : Scalar → ℕ) (modular : IsModular lib order value) where
    -- A key and a chain code that are derived one child after another.
    unfoldable pub Chain : Bytes → Bytes → List ℕ → Bytes → Bytes → Type 0
    Chain k c [] k' c' = (k' ≡ k) × (c' ≡ c)
    Chain k c (index ∷ rest) k' c' =
        (k1 : Bytes) × (c1 : Bytes) × IsChild lib order value k c index k1 c1
        × Chain k1 c1 rest k' c'

    derive_path-Chain :
        (indices : List ℕ) (k c k' c' : Bytes)
        → derive_path lib indices k c ≡ ok (k', c')
        → Chain k c indices k' c'
    unfolding derive_path Chain
    derive_path-Chain [] k c k' c' h = (cc h, cc h)
    derive_path-Chain (index ∷ rest) k c k' c' h =
        elim (Result-cases (derive_child lib k c index)) [
          | inl ((k1, c1), e) ↦ (
            k1,
            c1,
            derive_child-IsChild lib order value modular k c index k1 c1 e,
            derive_path-Chain rest k1 c1 k' c' (rw e at h),
          )
          | inr (x, e) ↦ absurd (cc (rw e at h))
        ]

    -- Where a derived secret key comes from.
    pub record IsDerived (curve : Curve) (hx : Hex) (mnemonic passphrase : Text) (account : ℕ)
        (sk : SecretKey) : Type 0 where
      pub seed : Bytes
      pub from_mnemonic : lib.mnemonic_seed mnemonic passphrase ≡ some seed
      pub i : Bytes
      pub mac : lib.hmac_sha512 (text "Bitcoin seed") seed ≡ some i
      pub chain_code : Bytes
      pub chain :
          Chain
            (take 32 i)
            (take 32 (drop 32 i))
            ((44 + 2 ^ 31) ∷ (1237 + 2 ^ 31) ∷ (account + 2 ^ 31) ∷ 0 ∷ 0 ∷ [])
            sk.bytes
            chain_code
      pub valid : curve.valid_secret sk.bytes ≡ true

    -- The secret key that `derive` returns for an account below 2^31 is the one that BIP-32 derives from
    -- the mnemonic's seed along m/44'/1237'/account'/0/0: each child key is the sum modulo the order of its
    -- parent and the left half of the HMAC of 0x00 and the parent key (hardened) or of the parent's public
    -- key, and of the four bytes of the index. The curve accepts it. This needs that the scalars are the
    -- numbers below the order.
    pub derive-IsDerived :
        (curve : Curve) (hx : Hex) (mnemonic passphrase : Text) (account : ℕ) (sk : SecretKey)
        → account < 2 ^ 31
        → derive lib curve hx mnemonic passphrase account ≡ ok sk
        → IsDerived curve hx mnemonic passphrase account sk
    unfolding derive master_from_seed
    derive-IsDerived curve hx mnemonic passphrase account sk small h =
        elim (Option-cases (lib.mnemonic_seed mnemonic passphrase)) [
          | inl e ↦ absurd (cc (rw e at h))
          | inr (seed, e) ↦ elim (Option-cases (lib.hmac_sha512 (text "Bitcoin seed") seed)) [
            | inl f ↦ absurd (cc (rw (e, f) at h))
            | inr (i, f) ↦ elim (Result-cases (scalar_from_bytes lib (take 32 i))) [
              | inr (x, g) ↦ absurd (cc (rw (e, f, g) at h))
              | inl (s, g) ↦
                  elim (Result-cases
                    (derive_path lib (path account) (take 32 i) (take 32 (drop 32 i)))) [
                      | inr (x, p) ↦ absurd (cc (rw (e, f, g, p) at h))
                      | inl ((k', c'), p) ↦
                          let (same, valid) = secret_kept curve hx k' sk (rw (e, f, g, p) at h) in
                          record {
                            seed = seed;
                            from_mnemonic = e;
                            i = i;
                            mac = f;
                            chain_code = c';
                            chain =
                                subst (λ ks. Chain (take 32 i) (take 32 (drop 32 i)) ks sk.bytes c')
                                  (path_lem account account small small).0
                                  (subst
                                    (λ k.
                                      Chain (take 32 i) (take 32 (drop 32 i)) (path account) k c')
                                    same
                                    (derive_path-Chain (path account) (take 32 i)
                                      (take 32 (drop 32 i)) k' c' p));
                            valid = valid;
                          }
                    ]
            ]
          ]
        ]

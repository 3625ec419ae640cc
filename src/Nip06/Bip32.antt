-- ===== src/Nip06/Bip32.antt =====
-- logic/nostr-core/src/nip06.rs: `derive_child` beside BIP-32's CKDpriv on numbers.
use passport_nostr_signer.Prelude.{
  ℕ, ◌+◌, ◌*◌, ◌%◌, ◌^◌, ◌<◌, ◌≤◌, ◌≡◌, ◌≢◌, ◌⊎◌, refl, leb, length, All, sym, ap, ◌∙◌, false, inl,
  inr, some, [], ◌∷◌, ◌++◌, Bytes, take, drop, Bool-cases, Option-cases, arith,
}
use passport_nostr_signer.Prelude.Result.{ok, Result-cases}
use passport_nostr_signer.Nip06.{
  Lib, hardened, to_be_bytes, scalar_from_bytes, scalar_from_bytes_allow_zero, child_prefix,
  child_of, derive_child,
}

-- BIP-32's parse256.
unfoldable pub parse256 : Bytes → ℕ
parse256 bytes = horner 0 bytes
  where
    horner : ℕ → Bytes → ℕ
    horner acc [] = acc
    horner acc (b ∷ bs) = horner (acc * 256 + b) bs

module _ {Scalar : Type 0} (lib : Lib Scalar) where
  -- The scalars are the numbers below `order`, and bytes are read and written as big-endian ones.
  pub record IsModular (order : ℕ) (value : Scalar → ℕ) : Type 0 where
    pub reads :
        (b : Bytes) (s : Scalar)
        → lib.primitive b ≡ some s
        → (value s ≡ parse256 b) × (parse256 b < order)
    pub adds : (s t : Scalar) → value (lib.add s t) ≡ (value s + value t) % order
    pub zero_tested : (s : Scalar) → lib.is_zero s ≡ false → value s ≢ 0
    pub written : (s : Scalar) → parse256 (lib.to_bytes s) ≡ value s

  -- BIP-32's ser32 of the index: four bytes, the most significant one first.
  pub record IsSer32 (index : ℕ) (bytes : Bytes) : Type 0 where
    pub size : length bytes ≡ 4
    pub are_bytes : All (λ b. b < 256) bytes
    pub number : parse256 bytes ≡ index % 2 ^ 32

  -- What CKDpriv hashes before the index: for a hardened index 0x00 and the parent's key, for any other
  -- the compressed public key of the parent's scalar.
  pub IsPrefix : (Scalar → ℕ) → Bytes → ℕ → Bytes → Type 0
  IsPrefix value k index prefix =
      ((2 ^ 31 ≤ index) × (prefix ≡ 0 ∷ k))
      ⊎ ((index < 2 ^ 31)
          × ((s : Scalar) × (value s ≡ parse256 k) × (lib.compressed s ≡ some prefix)))

  -- BIP-32's CKDpriv: IL is in range, the child key is its sum with the parent's modulo the order and is
  -- not zero, and the chain code is the right half of the HMAC of the prefix and the index.
  pub record IsChild (order : ℕ) (value : Scalar → ℕ) (k c : Bytes) (index : ℕ) (k' c' : Bytes)
      : Type 0 where
    pub prefix : Bytes
    pub hashed : IsPrefix value k index prefix
    pub ser32 : Bytes
    pub indexed : IsSer32 index ser32
    pub i : Bytes
    pub mac : lib.hmac_sha512 c (prefix ++ ser32) ≡ some i
    pub in_range : parse256 (take 32 i) < order
    pub parent_in_range : parse256 k < order
    pub key : parse256 k' ≡ (parse256 (take 32 i) + parse256 k) % order
    pub not_zero : parse256 k' ≢ 0
    pub chain_code : c' ≡ take 32 (drop 32 i)

  to_be_bytes-IsSer32 : (index : ℕ) → IsSer32 index (to_be_bytes index)
  unfolding to_be_bytes parse256
  to_be_bytes-IsSer32 index = record {
    size = refl;
    are_bytes = (omega arith, (omega arith, (omega arith, (omega arith, tt))));
    number = omega arith;
  }

  scalar_read : (b : Bytes) (s : Scalar) → scalar_from_bytes lib b ≡ ok s → lib.primitive b ≡ some s
  unfolding scalar_from_bytes
  scalar_read b s h = ground (arith, h)

  scalar_read_zero :
      (b : Bytes) (s : Scalar)
      → scalar_from_bytes_allow_zero lib b ≡ ok s
      → lib.primitive b ≡ some s
  unfolding scalar_from_bytes_allow_zero
  scalar_read_zero b s h = ground (arith, h)

  prefix_hashed :
      (value : Scalar → ℕ) (k prefix : Bytes) (index : ℕ)
      → ((s : Scalar) → lib.primitive k ≡ some s → value s ≡ parse256 k)
      → child_prefix lib k index ≡ ok prefix
      → IsPrefix value k index prefix
  unfolding child_prefix IsPrefix
  prefix_hashed value k prefix index reads h = elim (Bool-cases (leb hardened index)) [
    | inl hard ↦ inl (ground (arith, hard), cc (rw hard at h))
    | inr normal ↦ elim (Result-cases (scalar_from_bytes lib k)) [
      | inl (s, e) ↦ elim (Option-cases (lib.compressed s)) [
        | inl bad ↦ absurd (cc (rw (normal, e, bad) at h))
        | inr (point, p) ↦
            let same : point ≡ prefix = cc (rw (normal, e, p) at h) in
            inr (ground (arith, normal), (s, reads s (scalar_read k s e), p ∙ ap some same))
      ]
      | inr (x, e) ↦ absurd (cc (rw (normal, e) at h))
    ]
  ]

  -- What `child_of` has done if it returned Ok.
  record Summed (k i : Bytes) (il parent : Scalar) (k' c' : Bytes) : Type 0 where
    left : lib.primitive (take 32 i) ≡ some il
    from : lib.primitive k ≡ some parent
    not_zero : lib.is_zero (lib.add il parent) ≡ false
    key : lib.to_bytes (lib.add il parent) ≡ k'
    chain_code : take 32 (drop 32 i) ≡ c'

  child_of-Summed :
      (k i k' c' : Bytes)
      → child_of lib k i ≡ ok (k', c')
      → (il : Scalar) × (parent : Scalar) × Summed k i il parent k' c'
  unfolding child_of
  child_of-Summed k i k' c' h = elim (Result-cases (scalar_from_bytes_allow_zero lib (take 32 i))) [
    | inl (il, e) ↦ elim (Result-cases (scalar_from_bytes lib k)) [
      | inl (parent, f) ↦ elim (Bool-cases (lib.is_zero (lib.add il parent))) [
        | inl zero ↦ absurd (cc (rw (e, f, zero) at h))
        | inr nonzero ↦
            let done : ok (lib.to_bytes (lib.add il parent), take 32 (drop 32 i)) ≡ ok (k', c') =
              rw (e, f, nonzero) at h in
            (
              il,
              parent,
              record {
                left = scalar_read_zero (take 32 i) il e;
                from = scalar_read k parent f;
                not_zero = nonzero;
                key = cc done;
                chain_code = cc done;
              },
            )
      ]
      | inr (x, f) ↦ absurd (cc (rw (e, f) at h))
    ]
    | inr (x, e) ↦ absurd (cc (rw e at h))
  ]

  module _ (order : ℕ) (value : Scalar → ℕ) (modular : IsModular order value) where
    -- A child key that is derived is the one of BIP-32, if the scalars are the numbers modulo the order.
    pub derive_child-IsChild :
        (k c : Bytes) (index : ℕ) (k' c' : Bytes)
        → derive_child lib k c index ≡ ok (k', c')
        → IsChild order value k c index k' c'
    unfolding derive_child
    derive_child-IsChild k c index k' c' h = elim (Option-cases (lib.hmac_sha512 c [])) [
      | inl e ↦ absurd (cc (rw e at h))
      | inr (m, e) ↦ elim (Result-cases (child_prefix lib k index)) [
        | inl (prefix, f) ↦ elim (Option-cases (lib.hmac_sha512 c (prefix ++ to_be_bytes index))) [
          | inl g ↦ absurd (cc (rw (e, f, g) at h))
          | inr (i, g) ↦
              let (il, parent, summed) = child_of-Summed k i k' c' (rw (e, f, g) at h) in
              let (il_value, il_small) = modular.reads (take 32 i) il summed.left in
              let (k_value, k_small) = modular.reads k parent summed.from in
              let sum = lib.add il parent in
              let out : parse256 k' ≡ value sum =
                ap parse256 (sym summed.key) ∙ modular.written sum in
              record {
                prefix = prefix;
                hashed = prefix_hashed value k prefix index (λ s e. (modular.reads k s e).0) f;
                ser32 = to_be_bytes index;
                indexed = to_be_bytes-IsSer32 index;
                i = i;
                mac = g;
                in_range = il_small;
                parent_in_range = k_small;
                key =
                    out
                    ∙ modular.adds il parent
                    ∙ ap (λ x. (x + value parent) % order) il_value
                    ∙ ap (λ x. (parse256 (take 32 i) + x) % order) k_value;
                not_zero = λ z. modular.zero_tested sum summed.not_zero (sym out ∙ z);
                chain_code = sym summed.chain_code;
              }
        ]
        | inr (x, f) ↦ absurd (cc (rw (e, f) at h))
      ]
    ]

-- ===== src/Nip44/Padding.antt =====
-- Padding and back.
use native.Mathlib.Nat.{div-add-mod, mod-lt, mul-suc}
use passport_nostr_signer.Prelude.{
  ℕ, suc, ◌+◌, ◌-◌, ◌*◌, ◌/◌, ◌%◌, ◌^◌, ◌≤◌, ◌<◌, ◌≡◌, refl, sym, ◌∙◌, ap, inl, inr, [], ◌∷◌, ◌++◌,
  arith, Bytes, length, take, replicate, leb, Bool-cases, length-append, length-replicate,
  take-append,
}
use passport_nostr_signer.Prelude.Result.{ok}
use passport_nostr_signer.Nip44.{calc_padded_len, chunk_of, digits, pad, resize, unpad_bytes}

-- What is rounded up to whole chunks is no less than it was, and fills chunks.
rounded : (c m : ℕ) → 0 < c → m < c * (m / c + 1)
rounded c m h = omega (arith, div-add-mod m c, mod-lt m h, mul-suc c (m / c))

chunk_of_pos : (p : ℕ) → 0 < chunk_of p
unfolding chunk_of
chunk_of_pos p = ground arith

pub length-calc_padded_len : (n : ℕ) → n ≤ calc_padded_len n
unfolding calc_padded_len
length-calc_padded_len n = elim (Bool-cases (leb n 32)) [
  | inl short ↦ rw short (ground arith)
  | inr long ↦
      let chunk = chunk_of (2 ^ digits 32 (n - 1)) in
      let up = rounded chunk (n - 1) (chunk_of_pos (2 ^ digits 32 (n - 1))) in
      rw long (omega (arith, up))
]

take_all : (b : Bytes) → take (length b) b ≡ b
take_all [] = refl
take_all (x ∷ b) = ap (λ (r : Bytes). x ∷ r) (take_all b)

append_nil : (b : Bytes) → b ++ [] ≡ b
append_nil [] = refl
append_nil (x ∷ b) = ap (λ (r : Bytes). x ∷ r) (append_nil b)

resize_grows : (n : ℕ) (b : Bytes) → length b ≤ n → resize n b ≡ b ++ replicate (n - length b) 0
unfolding resize
resize_grows n b h = elim (Bool-cases (leb n (length b))) [
  | inl full ↦
      let same : n ≡ length b = ground arith in
      let none_left : n - length b ≡ 0 = omega arith in
      rw (full, none_left) (ap (λ k. take k b) same ∙ take_all b ∙ sym (append_nil b))
  | inr room ↦ rw room refl
]

-- `pad` writes the length, the plaintext and zeros up to the padded length.
pad_layout :
    (b : Bytes)
    → length b ≤ 65535
    → pad b
      ≡ length b / 256 ∷ length b % 256 ∷ (b ++ replicate (calc_padded_len (length b) - length b) 0)
unfolding pad
pad_layout b h =
    let small : length b % 2 ^ 16 ≡ length b = omega arith in
    let left : 2 + calc_padded_len (length b) - suc (suc (length b))
        ≡ calc_padded_len (length b) - length b =
      omega arith in
    rw small (
      resize_grows (2 + calc_padded_len (length b)) (length b / 256 ∷ length b % 256 ∷ b)
        (omega (arith, length-calc_padded_len (length b)))
      ∙ ap (λ (k : ℕ). length b / 256 ∷ length b % 256 ∷ (b ++ replicate k 0)) left)

-- `unpad` gives back what was padded, for every length that `encrypt` accepts.
pub unpad_bytes-pad :
    (plaintext : Bytes)
    → 1 ≤ length plaintext
    → length plaintext ≤ 65535
    → unpad_bytes (pad plaintext) ≡ ok plaintext
unfolding unpad_bytes
unpad_bytes-pad b low high =
    let zeros : Bytes = replicate (calc_padded_len (length b) - length b) 0 in
    let cut = take-append (length b) b zeros refl in
    let declared : length b / 256 * 256 + length b % 256 ≡ length b = omega arith in
    let total : length (b ++ zeros) ≡ calc_padded_len (length b) = omega (
      arith,
      length-append b zeros,
      length-replicate {A = ℕ} (calc_padded_len (length b) - length b) 0,
      length-calc_padded_len (length b),
    ) in
    rw (pad_layout b high, declared, total) (ground (arith, cut))

pub length-pad : (b : Bytes) → length b ≤ 65535 → length (pad b) ≡ 2 + calc_padded_len (length b)
length-pad b h =
    let n = calc_padded_len (length b) - length b in
    let zeros : Bytes = replicate n 0 in
    let total : length (b ++ zeros) ≡ calc_padded_len (length b) = omega (
      arith,
      length-append b zeros,
      length-replicate {A = ℕ} n 0,
      length-calc_padded_len (length b),
    ) in
    rw (pad_layout b h, total) (omega arith)

pub calc_padded_len_min : (n : ℕ) → 32 ≤ calc_padded_len n
unfolding calc_padded_len
calc_padded_len_min n = elim (Bool-cases (leb n 32)) [
  | inl short ↦ rw short (omega arith)
  | inr long ↦
      let chunk = chunk_of (2 ^ digits 32 (n - 1)) in
      let up = rounded chunk (n - 1) (chunk_of_pos (2 ^ digits 32 (n - 1))) in
      let big : 32 < n = ground arith in rw long (omega (arith, up, big))
]

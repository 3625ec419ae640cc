-- ===== src/Autosign/File/Mac.antt =====
-- A policy file that is not empty is taken only with its MAC.
use passport_nostr_signer.Prelude.{
  ℕ, ◌≡◌, ◌↔◌, ◌⊎◌, refl, sym, ◌∙◌, ap, true, inl, inr, [], ◌∷◌, arith, Bytes, Text, length, ◌==◌,
  Bool-cases, bit_or, bit_xor, ==_iff,
}
use passport_nostr_signer.Prelude.Bits.{bit_or-eq-zero, bit_xor-eq-zero}
use passport_nostr_signer.Prelude.Result.{ok, Result-cases}
use passport_nostr_signer.Autosign.{AutoSignStore, empty_store, format_version}
use passport_nostr_signer.Autosign.File.{
  AutoSignPayload, AutoSignFile, Lib, diff_from, constant_time_eq, payload_of, file_of, mac_bytes,
  check_file, from_bytes,
}

diff_from-eq-zero :
    (diff : ℕ) (xs ys : Bytes)
    → length xs ≡ length ys
    → (diff_from diff xs ys ≡ 0) ↔ ((diff ≡ 0) × (xs ≡ ys))
unfolding diff_from
diff_from-eq-zero diff [] [] e = (λ h. (h, refl), λ h. h.0)
diff_from-eq-zero diff [] (y ∷ ys) e = absurd (omega arith)
diff_from-eq-zero diff (x ∷ xs) [] e = absurd (omega arith)
diff_from-eq-zero diff (x ∷ xs) (y ∷ ys) e =
    let rest = diff_from-eq-zero (bit_or diff (bit_xor x y)) xs ys (omega arith) in
    let both = bit_or-eq-zero diff (bit_xor x y) in
    let same = bit_xor-eq-zero x y in
    (
      λ h.
          let (none_yet, tail) = rest.0 h in
          let (d, x_y) = both.0 none_yet in (d, cc (same.0 x_y, tail)),
      λ h. rest.1 (both.1 (h.0, same.1 (ground arith)), ground arith),
    )

-- `constant_time_eq` is equality of the two byte strings.
pub constant_time_eq_iff :
    (left right : Bytes) → (constant_time_eq left right ≡ true) ↔ (left ≡ right)
unfolding constant_time_eq
constant_time_eq_iff left right = elim (Bool-cases (length left == length right)) [
  | inl same ↦
      let len : length left ≡ length right = ground arith in
      let zero_iff = diff_from-eq-zero 0 left right len in
      (
        λ h. (zero_iff.0 (ground arith)).1,
        λ h. rw same ((==_iff (diff_from 0 left right) 0).1 (zero_iff.1 (refl, h))),
      )
  | inr differ ↦
      (λ h. absurd (ground arith), λ h. absurd (ground (arith, ap (λ (t : Bytes). length t) h)))
]

-- What an accepted file shows: it parses, has this version, and its MAC is the HMAC of its own
-- version, rules and audit log under the key.
pub record IsAuthentic (lib : Lib) (bytes mac_key : Bytes) (s : AutoSignStore) : Type 0 where
  pub mac : Text
  pub printed : Bytes
  pub parsed : lib.file_json.parse bytes ≡ ok (file_of s mac)
  pub current : s.version ≡ format_version
  pub prints : lib.payload_json.print (payload_of s) ≡ ok printed
  pub signed : lib.hex.decode mac ≡ ok (lib.hmac_sha256 mac_key printed)

module _ (lib : Lib) where
  mac_bytes-eq-ok :
      (mac_key mac : Bytes) (p : AutoSignPayload)
      → mac_bytes lib mac_key p ≡ ok mac
      → (printed : Bytes) × (lib.payload_json.print p ≡ ok printed)
        × (lib.hmac_sha256 mac_key printed ≡ mac)
  unfolding mac_bytes
  mac_bytes-eq-ok mac_key mac p h = elim (Result-cases (lib.payload_json.print p)) [
    | inl (b, e) ↦ (b, e, ground arith)
    | inr (x, e) ↦ absurd (ground arith)
  ]

  record Checked (f : AutoSignFile) (mac_key : Bytes) (s : AutoSignStore) : Type 0 where
    mac : Bytes
    current : f.version ≡ format_version
    decoded : lib.hex.decode f.mac ≡ ok mac
    computed :
        mac_bytes lib mac_key (record { version = f.version; rules = f.rules; audit = f.audit })
        ≡ ok mac
    result : s ≡ record { version = f.version; rules = f.rules; audit = f.audit }

  check_file-Checked :
      (f : AutoSignFile) (mac_key : Bytes) (s : AutoSignStore)
      → check_file lib f mac_key ≡ ok s
      → Checked f mac_key s
  unfolding check_file
  check_file-Checked f mac_key s h =
      let p : AutoSignPayload = record { version = f.version; rules = f.rules; audit = f.audit } in
      elim (Result-cases (lib.hex.decode f.mac)) [
        | inl (m, d) ↦ elim (Result-cases (mac_bytes lib mac_key p)) [
          | inl (m', c) ↦
              let same : m ≡ m' = (constant_time_eq_iff m m').0 (ground arith) in
              record {
                mac = m;
                current = ground arith;
                decoded = d;
                computed = c ∙ ap ok (sym same);
                result = ground arith;
              }
          | inr (x, c) ↦ absurd (ground arith)
        ]
        | inr (x, d) ↦ absurd (ground arith)
      ]

  parsed-IsAuthentic :
      (b : ℕ) (bs mac_key : Bytes) (s : AutoSignStore)
      → from_bytes lib (b ∷ bs) mac_key ≡ ok s
      → IsAuthentic lib (b ∷ bs) mac_key s
  unfolding from_bytes
  parsed-IsAuthentic b bs mac_key s h = elim (Result-cases (lib.file_json.parse (b ∷ bs))) [
    | inl (f, e) ↦
        let c = check_file-Checked f mac_key s (ground arith) in
        let p : AutoSignPayload = record {
          version = f.version;
          rules = f.rules;
          audit = f.audit;
        } in
        let (printed, prints, mac) = mac_bytes-eq-ok mac_key c.mac p c.computed in
        record {
          mac = f.mac;
          printed = printed;
          parsed = e ∙ ap (λ (x : AutoSignStore). ok (file_of x f.mac)) (sym c.result);
          current = ap (λ (x : AutoSignStore). x.version) c.result ∙ c.current;
          prints =
              ap (λ (x : AutoSignStore). lib.payload_json.print (payload_of x)) c.result ∙ prints;
          signed = c.decoded ∙ ap ok (sym mac);
        }
    | inr (x, e) ↦ absurd (ground arith)
  ]

  -- A policy file that is accepted either is empty, and is then taken as the policy with no rules and
  -- no audit log, or has the current version and a MAC that is the HMAC of its own content under the
  -- device's key.
  pub from_bytes-IsAuthentic :
      (bytes mac_key : Bytes) (s : AutoSignStore)
      → from_bytes lib bytes mac_key ≡ ok s
      → ((bytes ≡ []) × (s.rules ≡ []) × (s.audit ≡ [])) ⊎ IsAuthentic lib bytes mac_key s
  unfolding from_bytes
  from_bytes-IsAuthentic [] mac_key s h =
      let is : empty_store ≡ s = cc h in
      inl (
        refl,
        sym (ap (λ (x : AutoSignStore). x.rules) is),
        sym (ap (λ (x : AutoSignStore). x.audit) is),
      )
  from_bytes-IsAuthentic (b ∷ bs) mac_key s h = inr (parsed-IsAuthentic b bs mac_key s h)

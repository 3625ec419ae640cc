-- ===== src/Keystore/Invariant.antt =====
-- No two stored identities share a uuid or a public key, whatever is called.
use passport_nostr_signer.Prelude.{
  ℕ, ◌≡◌, refl, ◌∙◌, ap, Bool, false, inl, inr, Option, List, [], ◌∷◌, ◌++◌, arith, Bytes, Text,
  eqb, eqb_iff, any_of, find_first, update_first, is_some, Bool-cases, any_of-snoc,
  any_of-update_first,
}
use passport_nostr_signer.Prelude.Result.{Result, ok, err}
use passport_nostr_signer.Keys.{SecretKey, public_key}
use passport_nostr_signer.Keystore.{
  EncryptedRecord, Keystore, Error, Lib, new, has_uuid, has_npub, remove_first, modify, remove,
  rename, set_color, set_archived, add, make_record, push_record, seal_record,
}

abbrev pub uuid_of : EncryptedRecord → Bytes
uuid_of r = r.uuid

abbrev pub npub_of : EncryptedRecord → Bytes
npub_of r = r.npub

-- No two records agree in this field.
abbrev pub IsDistinct : (EncryptedRecord → Bytes) → List EncryptedRecord → Type 0
IsDistinct field [] = Unit
IsDistinct field (r ∷ rs) = (any_of (λ x. eqb (field x) (field r)) rs ≡ false) × IsDistinct field rs

pub record IsValid (ks : Keystore) : Type 0 where
  pub uuids : IsDistinct uuid_of ks.records
  pub npubs : IsDistinct npub_of ks.records

module _ (field : EncryptedRecord → Bytes) where
  IsDistinct-update_first :
      (p : EncryptedRecord → Bool) (f : EncryptedRecord → EncryptedRecord)
      (rs : List EncryptedRecord)
      → ((r : EncryptedRecord) → field (f r) ≡ field r)
      → IsDistinct field rs
      → IsDistinct field (update_first p f rs)
  IsDistinct-update_first p f [] keep d = tt
  IsDistinct-update_first p f (r ∷ rs) keep d = elim (Bool-cases (p r)) [
    | inl here ↦ rw (here, keep r) d
    | inr there ↦ rw there (
      any_of-update_first (λ x. eqb (field x) (field r)) p f
            (λ x. ap (λ k. eqb k (field r)) (keep x)) rs
          ∙ d.0,
      IsDistinct-update_first p f rs keep d.1,
    )
  ]

  any_of-remove_first :
      (q : EncryptedRecord → Bool) (v : Bytes) (rs : List EncryptedRecord)
      → any_of q rs ≡ false
      → any_of q (remove_first v rs) ≡ false
  unfolding remove_first
  any_of-remove_first q v [] h = refl
  any_of-remove_first q v (r ∷ rs) h = ground (arith, any_of-remove_first q v rs)

  IsDistinct-remove_first :
      (v : Bytes) (rs : List EncryptedRecord)
      → IsDistinct field rs
      → IsDistinct field (remove_first v rs)
  unfolding remove_first
  IsDistinct-remove_first v [] d = tt
  IsDistinct-remove_first v (r ∷ rs) d = elim (Bool-cases (has_uuid v r)) [
    | inl here ↦ rw here d.1
    | inr there ↦ rw there (
      any_of-remove_first (λ x. eqb (field x) (field r)) v rs d.0,
      IsDistinct-remove_first v rs d.1,
    )
  ]

  IsDistinct-snoc :
      (rs : List EncryptedRecord) (y : EncryptedRecord)
      → IsDistinct field rs
      → any_of (λ x. eqb (field x) (field y)) rs ≡ false
      → IsDistinct field (rs ++ y ∷ [])
  IsDistinct-snoc [] y d h = (refl, tt)
  IsDistinct-snoc (r ∷ rs) y d h = (
    any_of-snoc (λ x. eqb (field x) (field r)) rs y
        ∙ (ground (arith, d.0, eqb_iff (field y) (field r), eqb_iff (field r) (field y))),
    IsDistinct-snoc rs y d.1 (ground arith),
  )

modify-IsValid :
    (uuid : Bytes) (f : EncryptedRecord → EncryptedRecord) (ks : Keystore)
    → ((r : EncryptedRecord) → (f r).uuid ≡ r.uuid)
    → ((r : EncryptedRecord) → (f r).npub ≡ r.npub)
    → IsValid ks
    → IsValid (modify uuid f ks).0
unfolding modify
modify-IsValid uuid f ks ku kn v =
    elim (Bool-cases (is_some (find_first (has_uuid uuid) ks.records))) [
      | inl found ↦ rw found (record {
        uuids = IsDistinct-update_first uuid_of (has_uuid uuid) f ks.records ku v.uuids;
        npubs = IsDistinct-update_first npub_of (has_uuid uuid) f ks.records kn v.npubs;
      })
      | inr missing ↦ rw missing v
    ]

pub remove-IsValid : (uuid : Bytes) (ks : Keystore) → IsValid ks → IsValid (remove uuid ks).0
unfolding remove
remove-IsValid uuid ks v = elim (Bool-cases (is_some (find_first (has_uuid uuid) ks.records))) [
  | inl found ↦ rw found (record {
    uuids = IsDistinct-remove_first uuid_of uuid ks.records v.uuids;
    npubs = IsDistinct-remove_first npub_of uuid ks.records v.npubs;
  })
  | inr missing ↦ rw missing v
]

module _ (lib : Lib) (label : Text) (sk : SecretKey) (now : ℕ) (uuid_draw nonce_draw : Option Bytes)
    (seed : Result Bytes Error) where
  -- What is pushed has a new uuid and a new public key.
  pub record Fresh (ks : Keystore) (r : EncryptedRecord) : Type 0 where
    pub npub : r.npub ≡ (public_key lib.curve lib.hx sk).bytes
    pub new_npub : any_of (has_npub r.npub) ks.records ≡ false
    pub new_uuid : any_of (has_uuid r.uuid) ks.records ≡ false

  pub make_record-Fresh :
      (ks : Keystore) (r : EncryptedRecord)
      → make_record lib label sk now uuid_draw nonce_draw seed ks ≡ ok r
      → Fresh ks r
  unfolding make_record seal_record
  make_record-Fresh ks r h = record {
    npub = ground arith;
    new_npub = ground arith;
    new_uuid = ground arith;
  }

  push_record-IsValid :
      (o : Result EncryptedRecord Error) (ks : Keystore)
      → make_record lib label sk now uuid_draw nonce_draw seed ks ≡ o
      → IsValid ks
      → IsValid (push_record lib o ks).0
  unfolding push_record
  push_record-IsValid (err e) ks h v = v
  push_record-IsValid (ok r) ks h v =
      let fresh = make_record-Fresh ks r h in
      record {
        uuids = IsDistinct-snoc uuid_of ks.records r v.uuids fresh.new_uuid;
        npubs = IsDistinct-snoc npub_of ks.records r v.npubs fresh.new_npub;
      }

  add-IsValid :
      (ks : Keystore) → IsValid ks → IsValid (add lib label sk now uuid_draw nonce_draw seed ks).0
  unfolding add
  add-IsValid ks v =
      push_record-IsValid (make_record lib label sk now uuid_draw nonce_draw seed ks) ks refl v

-- Every call that changes a keystore.
pub data Step (lib : Lib) (ks : Keystore) : Keystore → Type 0 where
  added :
      (label : Text) (sk : SecretKey) (now : ℕ) (uuid_draw nonce_draw : Option Bytes)
      (seed : Result Bytes Error)
      → Step lib ks (add lib label sk now uuid_draw nonce_draw seed ks).0
  removed : (uuid : Bytes) → Step lib ks (remove uuid ks).0
  renamed : (uuid : Bytes) (label : Text) → Step lib ks (rename uuid label ks).0
  coloured : (uuid : Bytes) (color : ℕ) → Step lib ks (set_color uuid color ks).0
  archived : (uuid : Bytes) (flag : Bool) → Step lib ks (set_archived uuid flag ks).0

pub data Reach (lib : Lib) (ks : Keystore) : Keystore → Type 0 where
  here : Reach lib ks ks
  next : {t u : Keystore} → Reach lib ks t → Step lib t u → Reach lib ks u

Step-IsValid : {lib : Lib} {s t : Keystore} → Step lib s t → IsValid s → IsValid t
Step-IsValid {lib} {s} (added label sk now uuid_draw nonce_draw seed) v =
    add-IsValid lib label sk now uuid_draw nonce_draw seed s v
Step-IsValid {lib} {s} (removed uuid) v = remove-IsValid uuid s v
Step-IsValid {lib} {s} (renamed uuid label) v =
    unfold rename in
    modify-IsValid uuid (λ r. record r { label = label }) s (λ r. refl) (λ r. refl) v
Step-IsValid {lib} {s} (coloured uuid color) v =
    unfold set_color in
    modify-IsValid uuid (λ r. record r { color = color }) s (λ r. refl) (λ r. refl) v
Step-IsValid {lib} {s} (archived uuid flag) v =
    unfold set_archived in
    modify-IsValid uuid (λ r. record r { archived = flag }) s (λ r. refl) (λ r. refl) v

-- After any calls on a new keystore no two identities share a uuid or a public key.
pub history-IsValid : {lib : Lib} {ks : Keystore} → Reach lib new ks → IsValid ks
history-IsValid here = record { uuids = tt; npubs = tt }
history-IsValid (next r st) = Step-IsValid st (history-IsValid r)

-- ===== src/Engine/Grants.antt =====
-- The rule that lets `reserve_auto_sign` answer for the user, and what is then on the disk.
use passport_nostr_signer.Prelude.{
  ℕ, ◌≡◌, refl, sym, ◌∙◌, ap, subst, inl, inr, Option, none, some, arith, Bytes, Text, is_some,
  Option-cases, Bool-cases, text,
}
use passport_nostr_signer.Prelude.Result.{ok, err, Result-cases}
use passport_nostr_signer.Storage.{SaveOutcome, save_file}
use passport_nostr_signer.Storage.Atomic.{save_file-IsAtomic}
use passport_nostr_signer.Autosign.{AutoSignStore, record_signed, reserve_match}
use passport_nostr_signer.Autosign.Charged.{IsCharged, reserve_match-IsCharged}
use passport_nostr_signer.Autosign.File.{to_bytes, save}
use passport_nostr_signer.Engine.{Config, Device, Lib}
use passport_nostr_signer.Engine.Policy.{
  Failure, put_autosign, persist_auto_sign, save_reserved, reserve_auto_sign, record_auto_signed,
}
use passport_nostr_signer.Engine.Identities.{persist_auto_sign_keeps}

module _ (lib : Lib) (config : Config) where
  -- What a `persist_auto_sign` that returned Ok has done: the device's own policy, with its MAC, is
  -- the content of the policy file.
  pub record IsPersisted (d d' : Device) : Type 0 where
    pub mac_key : Bytes
    pub has_mac_key : config.autosign_mac_key ≡ some mac_key
    pub bytes : Bytes
    pub encoded : to_bytes lib.autosign d.autosign mac_key ≡ ok bytes
    pub on_disk : d'.disk config.autosign_path ≡ some bytes
    pub same_policy : d'.autosign ≡ d.autosign

  pub persist_auto_sign-IsPersisted :
      (outcome : SaveOutcome) (d : Device)
      → (persist_auto_sign lib config outcome d).1 ≡ ok tt
      → IsPersisted d (persist_auto_sign lib config outcome d).0
  unfolding persist_auto_sign save
  persist_auto_sign-IsPersisted outcome d h = elim (Option-cases config.autosign_mac_key) [
    | inl missing ↦ absurd (ground (arith, missing))
    | inr (mac_key, k) ↦
        let atomic =
          save_file-IsAtomic (text "autosign") config.autosign_path
            (to_bytes lib.autosign d.autosign mac_key) outcome d.disk in
        let (bytes, encoded, on_disk) = atomic.done (ground (arith, k)) in
        record {
          mac_key = mac_key;
          has_mac_key = k;
          bytes = bytes;
          encoded = encoded;
          on_disk = rw k on_disk;
          same_policy = rw k refl;
        }
  ]

  pub IsPersisted-self : (d d' : Device) → IsPersisted d d' → IsPersisted d' d'
  IsPersisted-self d d' p = record {
    mac_key = p.mac_key;
    has_mac_key = p.has_mac_key;
    bytes = p.bytes;
    encoded = ap (λ s. to_bytes lib.autosign s p.mac_key) p.same_policy ∙ p.encoded;
    on_disk = p.on_disk;
    same_policy = refl;
  }

  -- The policy file holds, with its MAC, a policy with the rules of the device.
  pub record IsStored (d : Device) : Type 0 where
    pub mac_key : Bytes
    pub has_mac_key : config.autosign_mac_key ≡ some mac_key
    pub store : AutoSignStore
    pub same_rules : store.rules ≡ d.autosign.rules
    pub bytes : Bytes
    pub encoded : to_bytes lib.autosign store mac_key ≡ ok bytes
    pub on_disk : d.disk config.autosign_path ≡ some bytes

  IsPersisted-IsStored : (d d' : Device) → IsPersisted d d' → IsStored d'
  IsPersisted-IsStored d d' p = record {
    mac_key = p.mac_key;
    has_mac_key = p.has_mac_key;
    store = d.autosign;
    same_rules = sym (ap (λ (s : AutoSignStore). s.rules) p.same_policy);
    bytes = p.bytes;
    encoded = p.encoded;
    on_disk = p.on_disk;
  }

  -- A save that fails leaves the file.
  persist_failed :
      (outcome : SaveOutcome) (d : Device) (e : Failure)
      → (persist_auto_sign lib config outcome d).1 ≡ err e
      → (persist_auto_sign lib config outcome d).0.disk config.autosign_path
        ≡ d.disk config.autosign_path
  unfolding persist_auto_sign save
  persist_failed outcome d e h = elim (Option-cases config.autosign_mac_key) [
    | inl missing ↦ rw missing refl
    | inr (mac_key, k) ↦
        let encoded = to_bytes lib.autosign d.autosign mac_key in
        let atomic =
          save_file-IsAtomic (text "autosign") config.autosign_path encoded outcome d.disk in
        elim (Result-cases
          (save_file (text "autosign") config.autosign_path encoded outcome d.disk).1) [
            | inl (x, saved) ↦ absurd (cc (rw (k, saved, persist_auto_sign) at h))
            | inr (x, failed) ↦ rw k (atomic.kept x failed)
          ]
  ]

  -- The audit entry leaves the rules, and a policy with them in the file.
  pub record_auto_signed-IsStored :
      (rule_id key_uuid : Bytes) (origin : Text) (kind : ℕ) (event_id : Text) (now : ℕ)
      (outcome : SaveOutcome) (d : Device)
      → IsStored d
      → let d' =
          (record_auto_signed lib config rule_id key_uuid origin kind event_id now outcome d).0 in
        IsStored d' × (d'.autosign.rules ≡ d.autosign.rules)
  unfolding record_auto_signed record_signed
  record_auto_signed-IsStored rule_id key_uuid origin kind event_id now outcome d stored =
      let d1 =
        put_autosign (record_signed rule_id key_uuid origin kind event_id now d.autosign) d in
      let d' = (persist_auto_sign lib config outcome d1).0 in
      let (_, _, kept) = persist_auto_sign_keeps lib config outcome d1 in
      let same : d'.autosign.rules ≡ d.autosign.rules = ap (λ (s : AutoSignStore). s.rules) kept in
      elim (Result-cases (persist_auto_sign lib config outcome d1).1) [
        | inl (tt, saved) ↦
            (IsPersisted-IsStored d1 d' (persist_auto_sign-IsPersisted outcome d1 saved), same)
        | inr (e, failed) ↦ (
          record {
            mac_key = stored.mac_key;
            has_mac_key = stored.has_mac_key;
            store = stored.store;
            same_rules = stored.same_rules ∙ sym same;
            bytes = stored.bytes;
            encoded = stored.encoded;
            on_disk = persist_failed outcome d1 e failed ∙ stored.on_disk;
          },
          same,
        )
      ]

  -- A rule that takes the place of the user's decision on a request to sign: it has been charged, and
  -- the file has the charged rules.
  pub record IsGranted (key_uuid : Bytes) (origin : Option Text) (kind now : ℕ) (d d' : Device)
      (rule_id : Bytes) : Type 0 where
    pub site : Text
    pub has_site : origin ≡ some site
    pub charged : IsCharged key_uuid site kind now d.autosign d'.autosign rule_id
    pub stored : IsStored d'

  -- The rules of the charged policy are all that matters of it.
  pub IsGranted-later :
      (key_uuid : Bytes) (origin : Option Text) (kind now : ℕ) (d d' d'' : Device) (rule_id : Bytes)
      → IsGranted key_uuid origin kind now d d' rule_id
      → IsStored d''
      → d''.autosign.rules ≡ d'.autosign.rules
      → IsGranted key_uuid origin kind now d d'' rule_id
  IsGranted-later key_uuid origin kind now d d' d'' rule_id g stored same = record {
    site = g.site;
    has_site = g.has_site;
    charged = record {
      authorised = g.charged.authorised;
      before = g.charged.before;
      after = g.charged.after;
      rules = g.charged.rules;
      charged = g.charged.charged;
      rules_now = same ∙ g.charged.rules_now;
      same_id = g.charged.same_id;
      used = g.charged.used;
      total = g.charged.total;
      last_used = g.charged.last_used;
    };
    stored = stored;
  }

  save_reserved-some :
      (o : Option Bytes) (outcome : SaveOutcome) (d : Device) (rule_id : Bytes)
      → (save_reserved lib config o outcome d).1 ≡ ok (some rule_id)
      → (o ≡ some rule_id) × IsPersisted d (save_reserved lib config o outcome d).0
  unfolding save_reserved
  save_reserved-some none outcome d rule_id h = absurd (ground arith)
  save_reserved-some (some r) outcome d rule_id h =
      elim (Result-cases (persist_auto_sign lib config outcome d).1) [
        | inl (tt, e) ↦ (ground (arith, e), rw e (persist_auto_sign-IsPersisted outcome d e))
        | inr (x, e) ↦ absurd (ground (arith, e))
      ]

  pub reserve_auto_sign-IsGranted :
      (key_uuid : Bytes) (origin : Option Text) (kind now : ℕ) (outcome : SaveOutcome) (d : Device)
      (rule_id : Bytes)
      → (reserve_auto_sign lib config key_uuid origin kind now outcome d).1 ≡ ok (some rule_id)
      → IsGranted key_uuid origin kind now d
          (reserve_auto_sign lib config key_uuid origin kind now outcome d).0
          rule_id
  unfolding reserve_auto_sign
  reserve_auto_sign-IsGranted key_uuid none kind now outcome d rule_id h = absurd (ground arith)
  reserve_auto_sign-IsGranted key_uuid (some site) kind now outcome d rule_id h =
      elim (Bool-cases (is_some config.autosign_mac_key)) [
        | inl present ↦
            let s' = (reserve_match key_uuid site kind now d.autosign).0 in
            let o = (reserve_match key_uuid site kind now d.autosign).1 in
            let (granted, persisted) =
              save_reserved-some o outcome (put_autosign s' d) rule_id (ground (arith, present)) in
            rw present (record {
              site = site;
              has_site = refl;
              charged =
                  subst (λ s. IsCharged key_uuid site kind now d.autosign s rule_id)
                    (sym persisted.same_policy)
                    (reserve_match-IsCharged key_uuid site kind now d.autosign rule_id granted);
              stored =
                  IsPersisted-IsStored (put_autosign s' d)
                    (save_reserved lib config o outcome (put_autosign s' d)).0 persisted;
            })
        | inr missing ↦ absurd (ground (arith, missing))
      ]

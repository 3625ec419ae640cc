-- ===== src/Keystore/Refines.antt =====
-- The keystore of logic/keystore/src/lib.rs answers every run of calls as the vault does.
use passport_nostr_signer.Prelude.{
  ℕ, ◌≡◌, refl, ap, inl, inr, Option, List, [], ◌∷◌, Bytes, Text, any_of, All, Bool-cases,
  Option-cases,
}
use passport_nostr_signer.Prelude.Result.{ok}
use passport_nostr_signer.Keys.{SecretKey}
use passport_nostr_signer.Keystore.{
  Keystore, Lib, new, add, remove, rename, set_color, set_archived, reveal, make_record,
  push_record,
}
use passport_nostr_signer.Keystore.Vault.{
  Call, add_call, remove_call, rename_call, color_call, archive_call, reveal_call, Reply, added,
  changed, revealed, Vault, is_under, is_in, call, has_key, admit, answer, calls, answers,
}
use passport_nostr_signer.Keystore.Holding.{
  Sealable, IsSealable, Holding, any_uuid, any_npub, found_uuid, Holding-remove_first, Holding-snoc,
  revealed_key, modified, seal_record-Holds,
}

module _ (lib : Lib) (master : Bytes) where
  -- The same reply, and a keystore that holds what the vault does.
  record Agrees (x : Keystore × Reply) (y : Vault × Reply) : Type 0 where
    holding : Holding lib master x.0.records y.0
    reply : x.1 ≡ y.1

  add-Agrees :
      (label : Text) (sk : SecretKey) (now : ℕ) (uuid_draw nonce_draw : Option Bytes)
      (ks : Keystore) (v : Vault)
      → Sealable lib master sk
      → Holding lib master ks.records v
      → Agrees
          (call lib master (add_call label sk now uuid_draw nonce_draw) ks)
          (answer lib master (add_call label sk now uuid_draw nonce_draw) v)
  unfolding call answer add make_record push_record admit
  add-Agrees label sk now uuid_draw nonce_draw ks v s h =
      let keys = any_npub lib master sk ks.records v h in
      elim (Bool-cases (any_of (has_key lib master sk) v)) [
        | inl twice ↦ rw (keys, twice) (record { holding = h; reply = refl })
        | inr fresh ↦ elim (Option-cases uuid_draw) [
          | inl a ↦ rw (keys, fresh, a) (record { holding = h; reply = refl })
          | inr (uuid, a) ↦
              let uuids = any_uuid lib master uuid ks.records v h in
              elim (Bool-cases (any_of (is_under uuid) v)) [
                | inl taken ↦
                    rw (keys, fresh, a, uuids, taken) (record { holding = h; reply = refl })
                | inr free ↦ elim (Option-cases nonce_draw) [
                  | inl b ↦
                      rw (keys, fresh, a, uuids, free, b) (record { holding = h; reply = refl })
                  | inr (nonce, b) ↦
                      let (r, made, holds) =
                        seal_record-Holds lib master label sk now uuid nonce s in
                      rw (keys, fresh, a, uuids, free, b, made)
                        (record {
                          holding = Holding-snoc lib master ks.records v r (uuid, sk) h holds;
                          reply = ap (λ u. added (ok u)) holds.uuid;
                        })
                ]
              ]
        ]
      ]

  remove-Agrees :
      (uuid : Bytes) (ks : Keystore) (v : Vault)
      → Holding lib master ks.records v
      → Agrees (call lib master (remove_call uuid) ks) (answer lib master (remove_call uuid) v)
  unfolding call answer remove
  remove-Agrees uuid ks v h =
      let same = found_uuid lib master uuid ks.records v h in
      elim (Bool-cases (is_in uuid v)) [
        | inl there ↦
            rw (same, there)
              (record {
                holding = Holding-remove_first lib master uuid ks.records v h;
                reply = refl;
              })
        | inr missing ↦ rw (same, missing) (record { holding = h; reply = refl })
      ]

  call-Agrees :
      (c : Call) (ks : Keystore) (v : Vault)
      → IsSealable lib master c
      → Holding lib master ks.records v
      → Agrees (call lib master c ks) (answer lib master c v)
  unfolding call answer rename set_color set_archived reveal
  call-Agrees (add_call label sk now uuid_draw nonce_draw) ks v s h =
      add-Agrees label sk now uuid_draw nonce_draw ks v s h
  call-Agrees (remove_call uuid) ks v s h = remove-Agrees uuid ks v h
  call-Agrees (rename_call uuid label) ks v s h =
      let (kept, is) =
        modified lib master uuid (λ r. record r { label = label }) ks v
          (λ r p k. record { uuid = k.uuid; npub = k.npub; opens = k.opens }) h in
      record { holding = kept; reply = ap changed is }
  call-Agrees (color_call uuid color) ks v s h =
      let (kept, is) =
        modified lib master uuid (λ r. record r { color = color }) ks v
          (λ r p k. record { uuid = k.uuid; npub = k.npub; opens = k.opens }) h in
      record { holding = kept; reply = ap changed is }
  call-Agrees (archive_call uuid flag) ks v s h =
      let (kept, is) =
        modified lib master uuid (λ r. record r { archived = flag }) ks v
          (λ r p k. record { uuid = k.uuid; npub = k.npub; opens = k.opens }) h in
      record { holding = kept; reply = ap changed is }
  call-Agrees (reveal_call uuid) ks v s h = record {
    holding = h;
    reply = ap revealed (revealed_key lib master uuid ks.records v h);
  }

  calls_refine :
      (cs : List Call) (ks : Keystore) (v : Vault)
      → All (IsSealable lib master) cs
      → Holding lib master ks.records v
      → calls lib master cs ks ≡ answers lib master cs v
  unfolding calls answers
  calls_refine [] ks v s h = refl
  calls_refine (c ∷ cs) ks v s h =
      let agrees = call-Agrees c ks v s.0 h in
      rw (agrees.reply) (
        ap (λ rs. (answer lib master c v).1 ∷ rs)
          (calls_refine cs (call lib master c ks).0 (answer lib master c v).0 s.1 agrees.holding))

  -- Whatever is called on a new keystore, in whatever order, the replies are those of a plain list of
  -- secret keys under uuids, errors included: every key revealed is the one that was added under that uuid
  -- and not removed since. The keys added are secret keys, and sealing succeeds and can be undone.
  pub calls-Refines :
      (cs : List Call)
      → All (IsSealable lib master) cs
      → calls lib master cs new ≡ answers lib master cs []
  calls-Refines cs s = calls_refine cs new [] s tt

-- ===== src/Autosign/Added.antt =====
-- src/autosign.rs: what an `add_rule` that returns Ok has done.
use passport_nostr_signer.Prelude.{
  ℕ, ◌<◌, ◌≤◌, ◌≡◌, refl, false, ◌⊎◌, inl, inr, [], ◌∷◌, ◌++◌, not, ◌==◌, ◌||◌, ◌&&◌, ltb, leb,
  arith, Bytes, length, keep_if, any_of, Bool-cases, true,
}
use passport_nostr_signer.Prelude.Result.{ok, Result-cases}
use passport_nostr_signer.Origin.{normalize_origin}
use passport_nostr_signer.Autosign.{
  AutoSignRule, AutoSignStore, max_rules_per_key, is_key, is_for, new_rule, add_normal, add_rule,
}

-- One rule more, at the end, as it was asked for: on, unused, with the origin in its normal form, the
-- first for its key, origin and kind. Nothing else of the store has changed.
pub record IsAppended (key origin : Bytes) (kind expires_at most now : ℕ) (id : Bytes)
    (s s' : AutoSignStore) : Type 0 where
  pub rule : AutoSignRule
  pub rules : s'.rules ≡ s.rules ++ rule ∷ []
  pub audit : s'.audit ≡ s.audit
  pub named : rule.id ≡ id
  pub owner : rule.key_uuid ≡ key
  pub site : normalize_origin origin ≡ ok rule.origin
  pub same_kind : rule.kind ≡ kind
  pub switched_on : rule.enabled ≡ true
  pub expiry : rule.expires_at ≡ expires_at
  pub cap : rule.max_per_hour ≡ most
  pub unused : rule.used_in_window ≡ 0
  pub capped : (1 ≤ most) × (most ≤ 1000)
  pub ahead : (expires_at ≡ 0) ⊎ (now < expires_at)
  pub has_room : length (keep_if (is_key key) s.rules) < 24
  pub is_first : any_of (is_for key rule.origin kind) s.rules ≡ false

add_normal-IsAppended :
    (key origin o : Bytes) (kind at most now : ℕ) (id new_id : Bytes) (s : AutoSignStore)
    → normalize_origin origin ≡ ok o
    → (add_normal key o kind at most now id s).1 ≡ ok new_id
    → IsAppended key origin kind at most now id s (add_normal key o kind at most now id s).0
unfolding add_normal
add_normal-IsAppended key origin o kind at most now id new_id s e h =
    elim (Bool-cases (leb max_rules_per_key (length (keep_if (is_key key) s.rules)))) [
      | inl full ↦ absurd (cc (rw full at h))
      | inr room ↦ elim (Bool-cases (any_of (is_for key o kind) s.rules)) [
        | inl twice ↦ absurd (cc (rw (room, twice) at h))
        | inr fresh ↦ elim (Bool-cases ((most == 0) || ltb 1000 most)) [
          | inl wild ↦ absurd (cc (rw (room, fresh, wild) at h))
          | inr capped ↦ elim (Bool-cases (not (at == 0) && leb at now)) [
            | inl past ↦ absurd (cc (rw (room, fresh, capped, past) at h))
            | inr ahead ↦
                rw (room, fresh, capped, ahead)
                  (record {
                    rule = new_rule id key o kind at most now;
                    rules = refl;
                    audit = refl;
                    named = refl;
                    owner = refl;
                    site = e;
                    same_kind = refl;
                    switched_on = refl;
                    expiry = refl;
                    cap = refl;
                    unused = refl;
                    capped = (ground (arith, capped), ground (arith, capped));
                    ahead = ground (arith, ahead);
                    has_room = ground (arith, room);
                    is_first = fresh;
                  })
          ]
        ]
      ]
    ]

pub add_rule-IsAppended :
    (key origin : Bytes) (kind at most now : ℕ) (id new_id : Bytes) (s : AutoSignStore)
    → (add_rule key origin kind at most now id s).1 ≡ ok new_id
    → IsAppended key origin kind at most now id s (add_rule key origin kind at most now id s).0
unfolding add_rule
add_rule-IsAppended key origin kind at most now id new_id s h =
    elim (Result-cases (normalize_origin origin)) [
      | inl (o, e) ↦
          rw (e, add_rule)
            (add_normal-IsAppended key origin o kind at most now id new_id s e
              (rw (e, add_rule) at h))
      | inr (x, e) ↦ absurd (cc (rw (e, add_rule) at h))
    ]

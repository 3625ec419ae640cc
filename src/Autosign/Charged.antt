-- ===== src/Autosign/Charged.antt =====
-- src/autosign.rs: what a granted `reserve_match` leaves of the rules.
use passport_nostr_signer.Prelude.{
  ℕ, ◌+◌, ◌%◌, ◌^◌, ◌≡◌, sym, ◌∙◌, ap, true, inl, inr, Option, some, List, ◌∷◌, ◌++◌, arith, Bytes,
  Option-cases, find_first, update_first_split,
}
use passport_nostr_signer.Prelude.Result.{ok, Result-cases}
use passport_nostr_signer.Origin.{normalize_origin}
use passport_nostr_signer.Autosign.{
  AutoSignRule, AutoSignStore, is_match, charge, roll_window, reserve_normal, reserve_match,
}
use passport_nostr_signer.Autosign.Rule.{charge-id}
use passport_nostr_signer.Autosign.Reserve.{
  IsAuthorised, found_authorises, reserve_normal_found, reserve_normal_missing,
}

-- A rule that authorises a request has been charged for it: of the rules, it alone has changed, and it
-- counts one use more in its window and in all, the last one now.
pub record IsCharged (key origin : Bytes) (kind now : ℕ) (s s' : AutoSignStore) (id : Bytes)
    : Type 0 where
  pub authorised : IsAuthorised key origin kind now s id
  pub before : List AutoSignRule
  pub after : List AutoSignRule
  pub rules : s.rules ≡ before ++ authorised.rule ∷ after
  pub charged : AutoSignRule
  pub rules_now : s'.rules ≡ before ++ charged ∷ after
  pub same_id : charged.id ≡ id
  pub used :
      charged.used_in_window ≡ ((roll_window now authorised.rule).used_in_window + 1) % 2 ^ 32
  pub total : charged.total_uses ≡ (authorised.rule.total_uses + 1) % 2 ^ 64
  pub last_used : charged.last_used_at ≡ now

charge_counts :
    (now : ℕ) (r : AutoSignRule)
    → (charge now r).1 ≡ true
    → ((charge now r).0.used_in_window ≡ ((roll_window now r).used_in_window + 1) % 2 ^ 32)
      × ((charge now r).0.total_uses ≡ (r.total_uses + 1) % 2 ^ 64)
      × ((charge now r).0.last_used_at ≡ now)
unfolding charge roll_window
charge_counts now r h = (ground arith, ground arith, ground arith)

reserve_normal-IsCharged :
    (key origin o : Bytes) (kind now : ℕ) (s : AutoSignStore) (id : Bytes)
    → normalize_origin origin ≡ ok o
    → (reserve_normal key o kind now s).1 ≡ some id
    → IsCharged key origin kind now s (reserve_normal key o kind now s).0 id
reserve_normal-IsCharged key origin o kind now s id e h =
    elim (Option-cases (find_first (is_match key o kind now) s.rules)) [
      | inl missing ↦ absurd (
          cc (
            ap (λ (p : AutoSignStore × Option Bytes). p.1)
                (reserve_normal_missing key o kind now s missing),
            h,
          ))
      | inr (r, found) ↦
          let (a, is, granted) = found_authorises key origin o kind now s id r e found h in
          let (before, after, same, updated) =
            update_first_split (is_match key o kind now) (λ x. (charge now x).0) s.rules r found in
          let (used, total, last) = charge_counts now r granted in
          let shape =
            ap (λ (p : AutoSignStore × Option Bytes). p.0.rules)
              (reserve_normal_found key o kind now s r found) in
          record {
            authorised = a;
            before = before;
            after = after;
            rules = same ∙ ap (λ x. before ++ x ∷ after) (sym is);
            charged = (charge now r).0;
            rules_now = shape ∙ updated;
            same_id = charge-id now r ∙ sym (ap (λ (x : AutoSignRule). x.id) is) ∙ a.named;
            used = used ∙ ap (λ x. ((roll_window now x).used_in_window + 1) % 2 ^ 32) (sym is);
            total = total ∙ ap (λ (x : AutoSignRule). (x.total_uses + 1) % 2 ^ 64) (sym is);
            last_used = last;
          }
    ]

pub reserve_match-IsCharged :
    (key origin : Bytes) (kind now : ℕ) (s : AutoSignStore) (id : Bytes)
    → (reserve_match key origin kind now s).1 ≡ some id
    → IsCharged key origin kind now s (reserve_match key origin kind now s).0 id
unfolding reserve_match
reserve_match-IsCharged key origin kind now s id h = elim (Result-cases (normalize_origin origin)) [
  | inl (o, e) ↦
      rw (e, reserve_match)
        (reserve_normal-IsCharged key origin o kind now s id e (rw (e, reserve_match) at h))
  | inr (x, e) ↦ absurd (cc (rw (e, reserve_match) at h))
]

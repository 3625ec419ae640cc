-- ===== src/Keystore/Vault.antt =====
-- What a keystore promises, without seals or files: a list of secret keys under their uuids. `Call` is one
-- call of logic/keystore/src/lib.rs, and both sides answer it.
use passport_nostr_signer.Prelude.{
  ℕ, Bool, Option, none, some, List, [], ◌∷◌, ◌++◌, Bytes, Text, eqb, any_of, find_first, is_some,
  if◌then◌else◌,
}
use passport_nostr_signer.Prelude.Result.{Result, ok, err, ◌>>=◌, ◌>>◌, reject_if, ok_or}
use passport_nostr_signer.Keys.{SecretKey, public_key}
use passport_nostr_signer.Keystore.{
  Keystore, Error, unknown_key, duplicate_key, duplicate_pubkey, rng, Lib, add, remove, rename,
  set_color, set_archived, reveal,
}

pub data Call : Type 0 where
  add_call : Text → SecretKey → ℕ → Option Bytes → Option Bytes → Call
  remove_call : Bytes → Call
  rename_call : Bytes → Text → Call
  color_call : Bytes → ℕ → Call
  archive_call : Bytes → Bool → Call
  reveal_call : Bytes → Call

pub data Reply : Type 0 where
  added : Result Bytes Error → Reply
  changed : Result (Unit {0}) Error → Reply
  revealed : Result SecretKey Error → Reply

abbrev with_reply : {A S : Type 0} → (A → Reply) → S × A → S × Reply
with_reply f (s, a) = (s, f a)

abbrev pub Vault : Type 0
Vault = List (Bytes × SecretKey)

abbrev pub is_under : Bytes → Bytes × SecretKey → Bool
is_under uuid p = eqb p.0 uuid

abbrev pub key_in : Option (Bytes × SecretKey) → Result SecretKey Error
key_in none = err unknown_key
key_in (some p) = ok p.1

unfoldable pub without : Bytes → Vault → Vault
without uuid [] = []
without uuid (p ∷ ps) = let rest = without uuid ps in if is_under uuid p then ps else p ∷ rest

abbrev pub is_in : Bytes → Vault → Bool
is_in uuid v = is_some (find_first (is_under uuid) v)

module _ (lib : Lib) (master : Bytes) where
  -- The keystore's side, with the seed at hand.
  unfoldable pub call : Call → Keystore → Keystore × Reply
  call (add_call label sk now uuid_draw nonce_draw) ks =
      with_reply added (add lib label sk now uuid_draw nonce_draw (ok master) ks)
  call (remove_call uuid) ks = with_reply changed (remove uuid ks)
  call (rename_call uuid label) ks = with_reply changed (rename uuid label ks)
  call (color_call uuid color) ks = with_reply changed (set_color uuid color ks)
  call (archive_call uuid flag) ks = with_reply changed (set_archived uuid flag ks)
  call (reveal_call uuid) ks = (ks, revealed (reveal lib uuid (ok master) ks))

  abbrev pub has_key : SecretKey → Bytes × SecretKey → Bool
  has_key sk p = eqb (public_key lib.curve lib.hx p.1).bytes (public_key lib.curve lib.hx sk).bytes

  -- The uuid that a new key goes under.
  unfoldable pub admit : SecretKey → Option Bytes → Option Bytes → Vault → Result Bytes Error
  admit sk uuid_draw nonce_draw v = do
    reject_if (any_of (has_key sk) v) duplicate_pubkey
    uuid ← ok_or uuid_draw rng
    reject_if (any_of (is_under uuid) v) duplicate_key
    ok_or nonce_draw rng
    ok uuid

  abbrev pub put_in : SecretKey → Vault → Result Bytes Error → Vault × Reply
  put_in sk v (ok uuid) = (v ++ (uuid, sk) ∷ [], added (ok uuid))
  put_in sk v (err e) = (v, added (err e))

  abbrev pub edit_in : Bytes → Vault → Vault × Reply
  edit_in uuid v = (v, changed (if is_in uuid v then ok tt else err unknown_key))

  -- The vault's side. An edit changes nothing that it keeps.
  unfoldable pub answer : Call → Vault → Vault × Reply
  unfolding admit without
  answer (add_call label sk now uuid_draw nonce_draw) v =
      put_in sk v (admit sk uuid_draw nonce_draw v)
  answer (remove_call uuid) v =
      if is_in uuid v then (without uuid v, changed (ok tt)) else (v, changed (err unknown_key))
  answer (rename_call uuid label) v = edit_in uuid v
  answer (color_call uuid color) v = edit_in uuid v
  answer (archive_call uuid flag) v = edit_in uuid v
  answer (reveal_call uuid) v = (v, revealed (key_in (find_first (is_under uuid) v)))

  -- A run of calls, with the replies in order.
  unfoldable pub calls : List Call → Keystore → List Reply
  unfolding call
  calls [] ks = []
  calls (c ∷ cs) ks = let done = call c ks in done.1 ∷ calls cs done.0

  unfoldable pub answers : List Call → Vault → List Reply
  unfolding answer
  answers [] v = []
  answers (c ∷ cs) v = let done = answer c v in done.1 ∷ answers cs done.0

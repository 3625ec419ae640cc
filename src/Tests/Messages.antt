-- ===== src/Tests/Messages.antt =====
-- A message between two devices, and the listing of a key's rules.
use passport_nostr_signer.Prelude.{
  ◌+◌, ◌-◌, ◌≡◌, ◌≢◌, refl, ap, ◌&&◌, some, [], ◌∷◌, ◌++◌, map, Bytes, Text, text, replicate,
  length, keep_if, All, ◌==◌, arith,
}
use passport_nostr_signer.Prelude.Result.{ok}
use passport_nostr_signer.Keys.{public_key}
use passport_nostr_signer.Approval.{approve}
use passport_nostr_signer.Message
use passport_nostr_signer.Message.{ok_response}
use passport_nostr_signer.Autosign.{is_key, info}
use passport_nostr_signer.Autosign.Listing.{
  rules_for_key, IsSorted, count_if, rules_for_key-IsSorted,
}
use passport_nostr_signer.Nip04
use passport_nostr_signer.Nip04.{Group, shared_secret}
use passport_nostr_signer.Nip04.Messages
use passport_nostr_signer.Engine.Requests.{
  World, nip04, encrypting, decrypting, cipher_job, finish, finish_cipher, run_cipher,
}
use passport_nostr_signer.Engine.Ciphers.{cipher04, engine, job_of, messages_cross}
use passport_nostr_signer.Tests.Samples.{
  curve, hx, lib, config, device, world, secret_a, secret_b, uuid_a, one_rule,
}
use passport_nostr_signer.Tests.Ciphers

-- All products are the same point.
abbrev group : Group Bytes Bytes
group = record {
  from_sec1 = λ b. some b;
  scalar_of = λ b. some b;
  mul = λ p s. 4 ∷ replicate 64 1;
  uncompressed = λ p. p;
}

abbrev shift : Bytes → Text
shift = map (λ b. b + 64)

abbrev unshift : Text → Bytes
unshift = map (λ c. c - 64)

abbrev lib04 : Nip04.Lib
lib04 = record {
  utf8 = λ s. s;
  from_utf8 = λ b. some b;
  b64_encode = shift;
  b64_decode = λ s. ok (unshift s);
  cbc_encrypt = λ key iv b. b;
  cbc_decrypt = λ key iv b. some b;
}

unshifted : (b : Bytes) → unshift (shift b) ≡ b
unshifted [] = refl
unshifted (x ∷ xs) = let here : x + 64 - 64 ≡ x = omega arith in rw (here, unshifted xs) refl

plain : (b : Bytes) → All (λ c. c ≢ 63) (shift b)
plain [] = tt
plain (x ∷ xs) = ((λ h. omega arith), plain xs)

lib04-IsFaithful : Messages.IsFaithful lib04
lib04-IsFaithful = record {
  utf8_back = λ s. refl;
  b64_back = λ b. ap ok (unshifted b);
  b64_plain = plain;
  cbc_back = λ key iv b. refl;
}

abbrev payload : Text
payload = shift (text "gm") ++ (text "?iv=" ++ shift (replicate 16 3))

abbrev small_world : World
small_world = record world { randomness = replicate 16 3 }

sent :
    (finish
      (engine group lib04 Ciphers.lib lib config)
      config
      (cipher_job (
        job_of group lib04 Ciphers.lib lib config
          (text "1")
          encrypting
          nip04
          secret_a
          (public_key curve hx secret_b)
          (text "gm")))
      approve
      small_world
      device).1
    ≡ ok_response (text "1") (Message.ciphertext payload)
unfolding finish finish_cipher run_cipher cipher04 shared_secret Nip04.encrypt
sent = refl

messages_cross_example :
    (finish
      (engine group lib04 Ciphers.lib lib config)
      config
      (cipher_job (
        job_of group lib04 Ciphers.lib lib config
          (text "2")
          decrypting
          nip04
          secret_b
          (public_key curve hx secret_a)
          payload))
      approve
      small_world
      device).1
    ≡ ok_response (text "2") (Message.plaintext (text "gm"))
messages_cross_example =
    messages_cross group lib04 Ciphers.lib lib config nip04 (text "1") (text "2") secret_a
      (public_key curve hx secret_b) secret_b (public_key curve hx secret_a) (text "gm") payload
      small_world small_world device device lib04-IsFaithful Ciphers.lib-IsFaithful shared refl sent
  where
    shared :
        shared_secret group secret_a (public_key curve hx secret_b)
        ≡ shared_secret group secret_b (public_key curve hx secret_a)
    shared = unfold shared_secret in refl

rules_for_key-IsSorted_example :
    IsSorted (rules_for_key uuid_a one_rule)
    × (count_if (λ i. i.kind == 1) (rules_for_key uuid_a one_rule)
        ≡ length (keep_if (λ r. is_key uuid_a r && ((info r).kind == 1)) one_rule.rules))
rules_for_key-IsSorted_example = rules_for_key-IsSorted uuid_a one_rule (λ i. i.kind == 1)

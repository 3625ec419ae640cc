-- ===== src/Engine/Ciphers.antt =====
-- src/engine.rs with logic/nostr-core/src/nip04.rs and nip44.rs: a message from one device to another.
use passport_nostr_signer.Prelude.{ℕ, ◌≡◌, refl, sym, ap, ◌∙◌, inl, inr, some, Bytes, Text, length}
use passport_nostr_signer.Prelude.Result.{ok, Result-cases}
use passport_nostr_signer.Keys.{SecretKey, PublicKey}
use passport_nostr_signer.Approval.{approve}
use passport_nostr_signer.Message
use passport_nostr_signer.Message.{ok_response, err_response, Response, Value}
use passport_nostr_signer.Nip04
use passport_nostr_signer.Nip04.{Group, shared_secret}
use passport_nostr_signer.Nip04.Messages
use passport_nostr_signer.Nip04.Messages.{nip04_decrypt-encrypt}
use passport_nostr_signer.Nip44
use passport_nostr_signer.Nip44.Messages as Messages44
use passport_nostr_signer.Nip44.Messages.{decrypt-encrypt}
use passport_nostr_signer.Engine.{Config, Device, Cipher, Lib, into_response}
use passport_nostr_signer.Engine.Requests.{
  World, CipherKind, nip04, nip44, Direction, encrypting, decrypting, CipherJob, cipher_job,
  run_cipher, finish, finish_cipher,
}

module _ {Point Scalar : Type 0} (group : Group Point Scalar) (lib04 : Nip04.Lib)
    (lib44 : Nip44.Lib) where
  -- `nip04::encrypt` and `nip04::decrypt` of two keys, and those of `nip44`.
  unfoldable pub cipher04 : Cipher
  cipher04 = record {
    encrypt = λ sk peer t iv. Nip04.encrypt lib04 (shared_secret group sk peer) (some iv) t;
    decrypt = λ sk peer t. Nip04.decrypt lib04 (shared_secret group sk peer) t;
  }

  unfoldable pub cipher44 : Cipher
  cipher44 = record {
    encrypt = λ sk peer t nonce. Nip44.encrypt lib44 (shared_secret group sk peer) (some nonce) t;
    decrypt = λ sk peer t. Nip44.decrypt lib44 (shared_secret group sk peer) t;
  }

  -- The engine with the repository's own ciphers.
  abbrev pub with_ciphers : Lib → Lib
  with_ciphers lib = record lib { nip04 = cipher04; nip44 = cipher44 }

-- The random bytes that an encryption draws.
abbrev pub draw_size : CipherKind → ℕ
draw_size nip04 = 16
draw_size nip44 = 32

module _ {Point Scalar : Type 0} (group : Group Point Scalar) (lib04 : Nip04.Lib)
    (lib44 : Nip44.Lib) (lib : Lib) (config : Config) where
  abbrev pub engine : Lib
  engine = with_ciphers group lib04 lib44 lib

  answered :
      (job : CipherJob) (w : World) (d : Device) (v : Value)
      → (finish engine config (cipher_job job) approve w d).1 ≡ ok_response job.id v
      → run_cipher engine config job w ≡ ok v
  unfolding finish finish_cipher ok_response err_response into_response
  answered job w d v h = elim (Result-cases (run_cipher engine config job w)) [
    | inl (u, e) ↦
        let same : ok_response job.id u ≡ ok_response job.id v = rw (e, finish_cipher) at h in
        let is : u ≡ v = cc same in e ∙ ap ok is
    | inr (x, e) ↦ absurd (cc (rw (e, finish_cipher) at h))
  ]

  abbrev pub job_of : Text → Direction → CipherKind → SecretKey → PublicKey → Text → CipherJob
  job_of id direction kind sk peer input = record {
    id = id;
    direction = direction;
    kind = kind;
    sk = sk;
    peer = peer;
    input = input;
  }

  abbrev cipher : CipherKind → Cipher
  cipher nip04 = engine.nip04
  cipher nip44 = engine.nip44

  encrypted :
      (kind : CipherKind) (id : Text) (sk : SecretKey) (peer : PublicKey) (t p : Text) (w : World)
      → run_cipher engine config (job_of id encrypting kind sk peer t) w ≡ ok (Message.ciphertext p)
      → (cipher kind).encrypt sk peer t w.randomness ≡ ok p
  unfolding run_cipher
  encrypted nip04 id sk peer t p w h =
      elim (Result-cases (engine.nip04.encrypt sk peer t w.randomness)) [
        | inl (q, e) ↦ e ∙ (cc (rw e at h))
        | inr (x, e) ↦ absurd (cc (rw e at h))
      ]
  encrypted nip44 id sk peer t p w h =
      elim (Result-cases (engine.nip44.encrypt sk peer t w.randomness)) [
        | inl (q, e) ↦ e ∙ (cc (rw e at h))
        | inr (x, e) ↦ absurd (cc (rw e at h))
      ]

  decrypted :
      (kind : CipherKind) (sk : SecretKey) (peer : PublicKey) (own : SecretKey) (other : PublicKey)
      (t p : Text) (draw : Bytes)
      → Messages.IsFaithful lib04
      → Messages44.IsFaithful lib44
      → shared_secret group sk peer ≡ shared_secret group own other
      → length draw ≡ draw_size kind
      → (cipher kind).encrypt sk peer t draw ≡ ok p
      → (cipher kind).decrypt own other p ≡ ok t
  unfolding cipher04 cipher44
  decrypted nip04 sk peer own other t p draw f04 f44 same size h =
      ap (λ s. Nip04.decrypt lib04 s p) (sym same)
      ∙ nip04_decrypt-encrypt lib04 (shared_secret group sk peer) draw t p f04 size h
  decrypted nip44 sk peer own other t p draw f04 f44 same size h =
      ap (λ s. Nip44.decrypt lib44 s p) (sym same)
      ∙ decrypt-encrypt lib44 (shared_secret group sk peer) draw t p f44 size h

  answers :
      (kind : CipherKind) (id : Text) (sk : SecretKey) (peer : PublicKey) (t p : Text) (w : World)
      (d : Device)
      → (cipher kind).decrypt sk peer p ≡ ok t
      → (finish engine config (cipher_job (job_of id decrypting kind sk peer p)) approve w d).1
        ≡ ok_response id (Message.plaintext t)
  unfolding finish finish_cipher run_cipher
  answers nip04 id sk peer t p w d h = rw (h, finish_cipher, run_cipher) refl
  answers nip44 id sk peer t p w d h = rw (h, finish_cipher, run_cipher) refl

  -- What one device answers to an approved encryption for the other's key, the other device, approving
  -- the decryption of it, answers with the plaintext: for NIP-04 and NIP-44, if both compute the same
  -- shared secret, the draw has its size, and the crates invert what they encode and encrypt.
  pub messages_cross :
      (kind : CipherKind) (id id' : Text) (sk : SecretKey) (peer : PublicKey) (own : SecretKey)
      (other : PublicKey) (t p : Text) (w w' : World) (d d' : Device)
      → Messages.IsFaithful lib04
      → Messages44.IsFaithful lib44
      → shared_secret group sk peer ≡ shared_secret group own other
      → length w.randomness ≡ draw_size kind
      → (finish engine config (cipher_job (job_of id encrypting kind sk peer t)) approve w d).1
        ≡ ok_response id (Message.ciphertext p)
      → (finish engine config (cipher_job (job_of id' decrypting kind own other p)) approve w' d').1
        ≡ ok_response id' (Message.plaintext t)
  messages_cross kind id id' sk peer own other t p w w' d d' f04 f44 same size h =
      let done = answered (job_of id encrypting kind sk peer t) w d (Message.ciphertext p) h in
      answers kind id' own other t p w' d' (
        decrypted kind sk peer own other t p w.randomness f04 f44 same size
          (encrypted kind id sk peer t p w done))

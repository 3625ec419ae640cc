-- ===== src/Lib.antt =====
-- A model of the Nostr signer for Passport: a device that keeps Nostr keys, signs events and
-- encrypts for a browser extension, after the user's approval or by a rule the user has set up.
--
-- Parts, and the files that model them (paths from the repository's root):
--   logic/protocol/src/frame.rs     Frame: 64-byte reports; `frame` is Framer::frame, `feed` is
--                                   Defragmenter::feed, in the three steps feed, accept, append_payload
--   logic/protocol/src/message.rs   Message: requests, responses, error codes
--   logic/nostr-core/src/keys.rs, error.rs   Keys, Describe: keys and the messages of errors
--   logic/nostr-core/src/event.rs   Event: id_of is UnsignedEvent::id, with sign and verify
--   logic/nostr-core/src/nip04.rs   Nip04: shared_secret, encrypt and decrypt
--   logic/nostr-core/src/nip06.rs   Nip06: the key of an account; Nip06/Bip32 has BIP-32 on numbers
--   logic/nostr-core/src/nip44.rs   Nip44: padding, payloads, encrypt and decrypt
--   logic/nostr-core/src/bech32.rs  Bech32: nsec, npub and note
--   logic/keystore/src/lib.rs       Keystore, Keystore/File: sealed identities and their file;
--                                   Keystore/Vault: what a keystore promises; Keystore/Master:
--                                   FileMasterKey
--   the `serde` helpers of keystore and event.rs   Hexed
--   src/autosign.rs                 Autosign, Autosign/File: rules, reservations, audit, and the file
--                                   with its MAC; Origin: normalize_origin
--   src/approval.rs                 Approval: what the user is asked
--   src/engine.rs                   Engine: state and how a request names a key; Engine/Policy: the
--                                   policy with its saves; Engine/Screens: the screens' calls;
--                                   Engine/Requests: `handle`; Engine/Prompted: what a prompt
--                                   says of the event; Engine/Ciphers: nip04 and nip44 in it
--   src/transport.rs, src/transport/websocket.rs   Transport: handle_client and dispatch_text;
--                                   Transport/Serve: serve and the status line
--   src/main.rs                     Approver: SlintApprover, ApprovalFuture and the buttons, as steps;
--                                   Ui: the screens (Ui/Format, Ui/Rows), their callbacks
--                                   (Ui/Callbacks, Ui/Rules, together Ui/Events), Ui/Startup, and
--                                   Ui/Shown, the page of a prompt beside the event signed
--   `save` and `temp_path` of both stores   Storage
-- Prelude has what the parts share: lists and texts over native numbers, Rust's Result, bits. Strings
-- has the methods of `str` that the code uses. External has the crates' interfaces.
--
-- How code is read. Mutexes and `&mut self` are explicit states; an error is a value of Result. A
-- `u32` or `u64` is a number, wrapped by `% 2 ^ w` where the code adds to a stored one. A String is
-- the list of its code points, a byte array a list of numbers below 256 (the theorems hold for any).
-- The engine awaits the user without a lock, so a request is a step to the wait (`handle`), and a step
-- from the decision on whatever the device is by then (`finish`). Clocks, random draws, the app seed
-- and the outcomes of file calls are arguments, so every outcome is covered. The results that the
-- engine puts in a response are constructors of Message.Value in place of JSON objects.
--
-- Bounds and fuel: `chunks` recurs on the length of the payload, which suffices since each step takes
-- off at least one byte. `generate` runs over the draws it is given. `digits` has 32 steps, one for
-- each bit of the `u32` it counts. `await_decision` polls on fuel: a poll comes at least a millisecond
-- after the one before, however late, so the milliseconds to the deadline and one more suffice. All
-- other loops are structural.
--
-- Parameters: the curve, its points and scalars, AES, ChaCha20, HKDF, HMAC, SHA-256, BIP-39, UTF-8,
-- base64, bech32, hex, serde_json and decimal digits. What a theorem needs of one is its hypothesis.
-- Not modelled: sockets themselves, the call of the platform's app seed (src/master_key.rs), the
-- paths of the files, logging, wiping of secrets, Slint's layouts and the
-- browser extension.
pub mod Prelude
pub mod Strings
pub mod External
pub mod Storage
pub mod Frame
pub mod Origin
pub mod Keys
pub mod Keystore
pub mod Hexed
pub mod Autosign
pub mod Event
pub mod Message
pub mod Approval
pub mod Describe
pub mod Approver
pub mod Nip04
pub mod Nip06
pub mod Nip44
pub mod Bech32
pub mod Engine
pub mod Transport
pub mod Ui
pub mod Tests

-- ===== src/Approval.antt =====
-- src/approval.rs: what the user is asked on the device, and the answer.
use passport_nostr_signer.Prelude.{ℕ, Option, Text, text}

pub record SignPrompt : Type 0 where
  pub origin : Option Text
  pub key_label : Text
  pub npub_hex : Text
  pub kind : ℕ
  pub content_preview : Text
  pub tag_count : ℕ

-- The fields that the four requests on a cipher share; `preview` is the text to encrypt or decrypt.
pub record CipherPrompt : Type 0 where
  pub origin : Option Text
  pub key_label : Text
  pub peer_pubkey_hex : Text
  pub preview : Text

pub data ApprovalRequest : Type 0 where
  sign_event : SignPrompt → ApprovalRequest
  nip04_encrypt : CipherPrompt → ApprovalRequest
  nip44_encrypt : CipherPrompt → ApprovalRequest
  nip04_decrypt : CipherPrompt → ApprovalRequest
  nip44_decrypt : CipherPrompt → ApprovalRequest

-- `ApprovalRequest::origin`
unfoldable pub origin_of : ApprovalRequest → Option Text
origin_of (sign_event p) = p.origin
origin_of (nip04_encrypt p) = p.origin
origin_of (nip44_encrypt p) = p.origin
origin_of (nip04_decrypt p) = p.origin
origin_of (nip44_decrypt p) = p.origin

-- `ApprovalRequest::action`
unfoldable pub action : ApprovalRequest → Text
action (sign_event p) = text "sign_event"
action (nip04_encrypt p) = text "nip04_encrypt"
action (nip44_encrypt p) = text "nip44_encrypt"
action (nip04_decrypt p) = text "nip04_decrypt"
action (nip44_decrypt p) = text "nip44_decrypt"

pub data ApprovalDecision : Type 0 where
  approve : ApprovalDecision
  reject : ApprovalDecision

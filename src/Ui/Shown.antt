-- ===== src/Ui/Shown.antt =====
-- src/main.rs: the page that `populate_approval` fills for a prompt, beside the event that is then signed.
use passport_nostr_signer.Prelude.{◌%◌, ◌^◌, ◌≡◌, length}
use passport_nostr_signer.Event.{Event}
use passport_nostr_signer.Message
use passport_nostr_signer.Approval
use passport_nostr_signer.Engine.{Config, Lib, truncate}
use passport_nostr_signer.Ui.{ApprovalState, as_i32}
use passport_nostr_signer.Ui.Format.{short_hex}

module _ (lib : Lib) (config : Config) where
  -- A page that shows an event: kind and number of tags are numbers of Slint, `i32`.
  pub record IsShown (page : ApprovalState) (e : Event) : Type 0 where
    pub kind : page.kind ≡ as_i32 e.kind
    pub tags : page.tag_count ≡ as_i32 (length e.tags % 2 ^ 32)
    pub preview : page.content_preview ≡ truncate e.content config.content_preview_chars
    pub author : page.key_short ≡ short_hex (lib.keystore.hx.encode e.pubkey.bytes)

-- ===== src/Origin.antt =====
-- src/autosign.rs, `normalize_origin`: the form in which origins are stored and compared.
pub mod Normal
use passport_nostr_signer.Prelude.{
  ℕ, Bool, ◌&&◌, ◌||◌, not, Option, none, some, [], ◌∷◌, ◌++◌, Text, text, eqb, any_of, ltb, ◌==◌,
  if◌then◌else◌,
}
use passport_nostr_signer.Prelude.Result.{Result, ok, err, ok_or, reject_if, ◌>>=◌, ◌>>◌}
use passport_nostr_signer.Strings.{
  is_whitespace, is_empty, trim, trim_end_by, to_ascii_lowercase, len, split_once,
}

-- One constructor for each message.
pub data OriginError : Type 0 where
  required : OriginError
  too_long : OriginError
  has_spaces : OriginError
  no_scheme : OriginError
  unsupported_scheme : OriginError
  host_required : OriginError
  not_site_origin : OriginError

-- The characters that only a URL beyond its origin has.
unfoldable pub is_url_part : ℕ → Bool
is_url_part c = (c == b'/') || (c == b'?') || (c == b'#') || (c == b'@')

abbrev pub scheme_sep : Text
scheme_sep = b':' ∷ b'/' ∷ b'/' ∷ []

-- The end of `normalize_origin`, from the scheme and the rest on.
unfoldable pub check_parts : Text × Text → Result Text OriginError
unfolding is_url_part
check_parts (raw_scheme, rest) =
    let scheme = to_ascii_lowercase raw_scheme in
    if not (eqb scheme (text "https")) && not (eqb scheme (text "http"))
    then err unsupported_scheme
    else if is_empty rest
    then err host_required
    else if any_of is_url_part rest
    then err not_site_origin
    else ok (scheme ++ (scheme_sep ++ to_ascii_lowercase rest))

-- `normalize_origin` from the first check on.
unfoldable pub check_trimmed : Text → Result Text OriginError
check_trimmed trimmed =
    if is_empty trimmed
    then err required
    else if ltb 200 (len trimmed)
    then err too_long
    else if any_of is_whitespace trimmed
    then err has_spaces
    else ok_or (split_once scheme_sep trimmed) no_scheme >>= check_parts

unfoldable pub normalize_origin : Text → Result Text OriginError
unfolding check_trimmed
normalize_origin input = check_trimmed (trim_end_by (λ c. c == b'/') (trim input))

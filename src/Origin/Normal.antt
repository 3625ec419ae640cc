-- ===== src/Origin/Normal.antt =====
-- What a normalised origin is, and that normalising gives exactly these.
use passport_nostr_signer.Prelude.{
  ℕ, ◌≤◌, ◌≡◌, refl, sym, ◌∙◌, ap, subst, ◌⊎◌, false, some, [], ◌∷◌, ◌++◌, arith, Text, text,
  eqb_iff, any_of, ◌==◌, Option-cases, inl, inr,
}
use passport_nostr_signer.Prelude.Result.{ok}
use passport_nostr_signer.Strings.{
  is_whitespace, is_empty, trim_end_by, trim, lower, to_ascii_lowercase, len, strip_prefix,
  split_once,
}
use passport_nostr_signer.Strings.Trim.{
  trim_end_by-append, trim_none, is_whitespace-lower, any_of-lower, len-lower,
  to_ascii_lowercase_idem, split_once-append,
}
use passport_nostr_signer.Origin.{
  is_url_part, scheme_sep, check_parts, check_trimmed, normalize_origin,
}

-- A site's origin in the form that rules store: `http` or `https`, `://`, and a host in lower case
-- that is not empty, with no path, query, fragment, user or white space; 200 bytes at most.
pub record IsSiteOrigin (o : Text) : Type 0 where
  pub scheme : Text
  pub host : Text
  pub parts : o ≡ scheme ++ (scheme_sep ++ host)
  pub known : (scheme ≡ text "https") ⊎ (scheme ≡ text "http")
  pub host_given : is_empty host ≡ false
  pub site_only : any_of is_url_part host ≡ false
  pub no_spaces : any_of is_whitespace o ≡ false
  pub lowered : to_ascii_lowercase host ≡ host
  pub short : len o ≤ 200

is_url_part-lower : (c : ℕ) → is_url_part (lower c) ≡ is_url_part c
unfolding lower is_url_part
is_url_part-lower c = ground arith

is_empty-lower : (s : Text) → is_empty (to_ascii_lowercase s) ≡ is_empty s
unfolding to_ascii_lowercase
is_empty-lower [] = refl
is_empty-lower (c ∷ cs) = refl

-- What the checks up to the separator let through.
record Passed (t o : Text) : Type 0 where
  before : Text
  after : Text
  split : split_once scheme_sep t ≡ some (before, after)
  checked : check_parts (before, after) ≡ ok o
  fits : len t ≤ 200
  unspaced : any_of is_whitespace t ≡ false

check_trimmed-Passed : (t o : Text) → check_trimmed t ≡ ok o → Passed t o
unfolding check_trimmed
check_trimmed-Passed t o h = elim (Option-cases (split_once scheme_sep t)) [
  | inl missing ↦ absurd (ground arith)
  | inr (p, found) ↦ record {
    before = p.0;
    after = p.1;
    split = found;
    checked = ground arith;
    fits = ground arith;
    unspaced = ground arith;
  }
]

check_parts-known :
    (raw rest o : Text)
    → check_parts (raw, rest) ≡ ok o
    → (to_ascii_lowercase raw ≡ text "https") ⊎ (to_ascii_lowercase raw ≡ text "http")
unfolding check_parts
check_parts-known raw rest o h = ground (
  arith,
  eqb_iff (to_ascii_lowercase raw) (text "https"),
  eqb_iff (to_ascii_lowercase raw) (text "http"),
)

check_parts-result :
    (raw rest o : Text)
    → check_parts (raw, rest) ≡ ok o
    → (o ≡ to_ascii_lowercase raw ++ (scheme_sep ++ to_ascii_lowercase rest))
      × (is_empty rest ≡ false)
      × (any_of is_url_part rest ≡ false)
unfolding check_parts
check_parts-result raw rest o h = (ground arith, ground arith, ground arith)

lowered_whole :
    (a b : Text)
    → to_ascii_lowercase (a ++ (scheme_sep ++ b))
      ≡ to_ascii_lowercase a ++ (scheme_sep ++ to_ascii_lowercase b)
unfolding to_ascii_lowercase lower
lowered_whole [] b = refl
lowered_whole (c ∷ cs) b = ap (λ r. lower c ∷ r) (lowered_whole cs b)

-- Every accepted origin is brought into this form.
pub normalize_origin-IsSiteOrigin :
    (input o : Text) → normalize_origin input ≡ ok o → IsSiteOrigin o
unfolding normalize_origin
normalize_origin-IsSiteOrigin input o h =
    let t = trim_end_by (λ c. c == b'/') (trim input) in
    let p = check_trimmed-Passed t o h in
    let cut = split_once-append scheme_sep t p.before p.after p.split in
    let (shape, given, site) = check_parts-result p.before p.after o p.checked in
    let whole : to_ascii_lowercase t ≡ o =
      ap to_ascii_lowercase cut ∙ lowered_whole p.before p.after ∙ sym shape in
    record {
      scheme = to_ascii_lowercase p.before;
      host = to_ascii_lowercase p.after;
      parts = shape;
      known = check_parts-known p.before p.after o p.checked;
      host_given = is_empty-lower p.after ∙ given;
      site_only = any_of-lower is_url_part is_url_part-lower p.after ∙ site;
      no_spaces = rw (← whole) (any_of-lower is_whitespace is_whitespace-lower t ∙ p.unspaced);
      lowered = to_ascii_lowercase_idem p.after;
      short = rw (← whole, len-lower t) p.fits;
    }

any_of_slash : (s : Text) → any_of is_url_part s ≡ false → any_of (λ c. c == b'/') s ≡ false
unfolding is_url_part
any_of_slash [] h = refl
any_of_slash (c ∷ cs) h = ground (arith, any_of_slash cs)

-- A text that starts with a letter of a scheme and ends in a host is not trimmed.
trimmed_self :
    (c : ℕ) (cs host : Text)
    → is_empty host ≡ false
    → any_of is_url_part host ≡ false
    → any_of is_whitespace (c ∷ (cs ++ host)) ≡ false
    → trim_end_by (λ c. c == b'/') (trim (c ∷ (cs ++ host))) ≡ c ∷ (cs ++ host)
trimmed_self c cs host given site spaces =
    ap (trim_end_by (λ c. c == b'/')) (trim_none c (cs ++ host) spaces)
    ∙ trim_end_by-append (λ c. c == b'/') (c ∷ cs) host given (any_of_slash host site)

check_trimmed_self :
    (c : ℕ) (cs scheme host : Text)
    → any_of is_whitespace (c ∷ cs) ≡ false
    → len (c ∷ cs) ≤ 200
    → split_once scheme_sep (c ∷ cs) ≡ some (scheme, host)
    → check_trimmed (c ∷ cs) ≡ check_parts (scheme, host)
unfolding check_trimmed
check_trimmed_self c cs scheme host spaces short found = ground arith

check_parts_self :
    (scheme host : Text)
    → to_ascii_lowercase scheme ≡ scheme
    → (scheme ≡ text "https") ⊎ (scheme ≡ text "http")
    → is_empty host ≡ false
    → any_of is_url_part host ≡ false
    → to_ascii_lowercase host ≡ host
    → check_parts (scheme, host) ≡ ok (scheme ++ (scheme_sep ++ host))
unfolding check_parts
check_parts_self scheme host low known given site lowered =
    rw (low, lowered) (ground (arith, eqb_iff scheme (text "https"), eqb_iff scheme (text "http")))

abbrev IsFixed : Text → Type 0
IsFixed o = normalize_origin o ≡ ok o

https-IsFixed :
    (host : Text)
    → is_empty host ≡ false
    → any_of is_url_part host ≡ false
    → to_ascii_lowercase host ≡ host
    → any_of is_whitespace (text "https" ++ (scheme_sep ++ host)) ≡ false
    → len (text "https" ++ (scheme_sep ++ host)) ≤ 200
    → IsFixed (text "https" ++ (scheme_sep ++ host))
unfolding normalize_origin text
https-IsFixed host given site lowered spaces short =
    ap check_trimmed (trimmed_self b'h' (text "ttps" ++ scheme_sep) host given site spaces)
    ∙ check_trimmed_self b'h' (text "ttps" ++ (scheme_sep ++ host)) (text "https") host spaces short
        (unfold split_once strip_prefix in refl)
    ∙ check_parts_self (text "https") host (unfold to_ascii_lowercase lower in refl) (inl refl)
        given site lowered

http-IsFixed :
    (host : Text)
    → is_empty host ≡ false
    → any_of is_url_part host ≡ false
    → to_ascii_lowercase host ≡ host
    → any_of is_whitespace (text "http" ++ (scheme_sep ++ host)) ≡ false
    → len (text "http" ++ (scheme_sep ++ host)) ≤ 200
    → IsFixed (text "http" ++ (scheme_sep ++ host))
unfolding normalize_origin text
http-IsFixed host given site lowered spaces short =
    ap check_trimmed (trimmed_self b'h' (text "ttp" ++ scheme_sep) host given site spaces)
    ∙ check_trimmed_self b'h' (text "ttp" ++ (scheme_sep ++ host)) (text "http") host spaces short
        (unfold split_once strip_prefix in refl)
    ∙ check_parts_self (text "http") host (unfold to_ascii_lowercase lower in refl) (inr refl) given
        site lowered

-- An origin in this form is accepted as it is.
pub IsSiteOrigin-normalize_origin : (o : Text) → IsSiteOrigin o → normalize_origin o ≡ ok o
IsSiteOrigin-normalize_origin o s = elim s.known [
  | inl e ↦
      let shape : o ≡ text "https" ++ (scheme_sep ++ s.host) =
        s.parts ∙ ap (λ r. r ++ (scheme_sep ++ s.host)) e in
      subst IsFixed (sym shape) (
        https-IsFixed s.host s.host_given s.site_only s.lowered (rw shape at s.no_spaces)
          (rw shape at s.short))
  | inr e ↦
      let shape : o ≡ text "http" ++ (scheme_sep ++ s.host) =
        s.parts ∙ ap (λ r. r ++ (scheme_sep ++ s.host)) e in
      subst IsFixed (sym shape) (
        http-IsFixed s.host s.host_given s.site_only s.lowered (rw shape at s.no_spaces)
          (rw shape at s.short))
]

-- The results of `normalize_origin` are exactly the origins in this form, and normalising once more
-- changes nothing.
pub normalize_origin_idem :
    (input o : Text) → normalize_origin input ≡ ok o → IsSiteOrigin o × (normalize_origin o ≡ ok o)
normalize_origin_idem input o h =
    let s = normalize_origin-IsSiteOrigin input o h in (s, IsSiteOrigin-normalize_origin o s)

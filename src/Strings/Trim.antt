-- ===== src/Strings/Trim.antt =====
-- Trimming changes nothing where there is nothing to trim, and what lowering a text keeps.
use passport_nostr_signer.Prelude.{
  ℕ, ◌+◌, ◌≡◌, refl, ◌∙◌, ap, Bool, false, ◌||◌, Option, none, some, [], ◌∷◌, ◌++◌, arith, Text,
  any_of,
}
use passport_nostr_signer.Strings.{
  is_whitespace, is_empty, trim_start_by, trim_end_by, trim, lower, to_ascii_lowercase, len_utf8,
  len, strip_prefix, split_once, cons_before, found_or,
}

pub any_of-append :
    (p : ℕ → Bool) (xs ys : Text) → any_of p (xs ++ ys) ≡ (any_of p xs || any_of p ys)
any_of-append p [] ys = refl
any_of-append p (x ∷ xs) ys = ground (arith, any_of-append p xs ys)

pub trim_start_by_none : (p : ℕ → Bool) (s : Text) → any_of p s ≡ false → trim_start_by p s ≡ s
unfolding trim_start_by
trim_start_by_none p [] h = refl
trim_start_by_none p (c ∷ cs) h = ground arith

-- A text whose end has nothing to trim keeps all of it.
pub trim_end_by-append :
    (p : ℕ → Bool) (xs ys : Text)
    → is_empty ys ≡ false
    → any_of p ys ≡ false
    → trim_end_by p (xs ++ ys) ≡ xs ++ ys
unfolding trim_end_by
trim_end_by-append p [] [] e h = cc
trim_end_by-append p [] (y ∷ []) e h = ground arith
trim_end_by-append p [] (y ∷ (z ∷ ys)) e h = ground (arith, trim_end_by-append p [] (z ∷ ys) refl)
trim_end_by-append p (x ∷ []) (y ∷ ys) e h = ground (arith, trim_end_by-append p [] (y ∷ ys) refl)
trim_end_by-append p (x ∷ (x' ∷ xs)) ys e h = ground (arith, trim_end_by-append p (x' ∷ xs) ys e h)
trim_end_by-append p (x ∷ []) [] e h = cc

pub trim_none : (c : ℕ) (cs : Text) → any_of is_whitespace (c ∷ cs) ≡ false → trim (c ∷ cs) ≡ c ∷ cs
unfolding trim
trim_none c cs h =
    ap (trim_end_by is_whitespace) (trim_start_by_none is_whitespace (c ∷ cs) h)
    ∙ trim_end_by-append is_whitespace [] (c ∷ cs) refl h

-- Lowering keeps which characters are white space, and the bytes that a text takes.
pub lower_idem : (c : ℕ) → lower (lower c) ≡ lower c
unfolding lower
lower_idem c = ground arith

pub is_whitespace-lower : (c : ℕ) → is_whitespace (lower c) ≡ is_whitespace c
unfolding lower is_whitespace
is_whitespace-lower c = ground arith

len_utf8-lower : (c : ℕ) → len_utf8 (lower c) ≡ len_utf8 c
unfolding lower len_utf8
len_utf8-lower c = ground arith

pub any_of-lower :
    (p : ℕ → Bool)
    → ((c : ℕ) → p (lower c) ≡ p c)
    → (s : Text) → any_of p (to_ascii_lowercase s) ≡ any_of p s
unfolding to_ascii_lowercase
any_of-lower p h [] = refl
any_of-lower p h (c ∷ cs) = ground (arith, h c, any_of-lower p h cs)

pub len-lower : (s : Text) → len (to_ascii_lowercase s) ≡ len s
unfolding to_ascii_lowercase len
len-lower [] = refl
len-lower (c ∷ cs) = ground (arith, len_utf8-lower c, len-lower cs)

pub to_ascii_lowercase_idem :
    (s : Text) → to_ascii_lowercase (to_ascii_lowercase s) ≡ to_ascii_lowercase s
unfolding to_ascii_lowercase
to_ascii_lowercase_idem [] = refl
to_ascii_lowercase_idem (c ∷ cs) = cc (lower_idem c, to_ascii_lowercase_idem cs)

pub len-append : (xs ys : Text) → len (xs ++ ys) ≡ len xs + len ys
unfolding len
len-append [] ys = omega arith
len-append (x ∷ xs) ys = omega (arith, len-append xs ys)

strip_prefix-append : (ps s after : Text) → strip_prefix ps s ≡ some after → s ≡ ps ++ after
unfolding strip_prefix
strip_prefix-append [] s after h = ground arith
strip_prefix-append (p ∷ ps) [] after h = cc
strip_prefix-append (p ∷ ps) (c ∷ cs) after h = ground (arith, strip_prefix-append ps cs after)

found_or-append :
    (sep s : Text) (c : ℕ) (cs : Text) (here : Option Text) (later : Option (Text × Text))
    (before after : Text)
    → strip_prefix sep s ≡ here
    → s ≡ c ∷ cs
    → ((b a : Text) → later ≡ some (b, a) → cs ≡ b ++ (sep ++ a))
    → found_or here (cons_before c later) ≡ some (before, after)
    → s ≡ before ++ (sep ++ after)
found_or-append sep s c cs (some a) later before after e eq ih h =
    strip_prefix-append sep s after (e ∙ (ground arith)) ∙ (ground arith)
found_or-append sep s c cs none none before after e eq ih h = cc
found_or-append sep s c cs none (some (b, a)) before after e eq ih h = ground (arith, ih b a refl)

-- `split_once` cuts the text at one occurrence of the separator.
pub split_once-append :
    (sep s before after : Text)
    → split_once sep s ≡ some (before, after)
    → s ≡ before ++ (sep ++ after)
unfolding split_once
split_once-append sep [] before after h = cc
split_once-append sep (c ∷ cs) before after h =
    found_or-append sep (c ∷ cs) c cs (strip_prefix sep (c ∷ cs)) (split_once sep cs) before after
      refl refl (λ b a. split_once-append sep cs b a) h

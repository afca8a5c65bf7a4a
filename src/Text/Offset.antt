-- ===== src/Text/Offset.antt =====
-- The text of an instant in UTC: written with `Z` for its offset, and read back.
use Prim.Native.Char.{Char, code}
use text.Mathlib.TextLemmas.{nil-append, cons-append}
use Prim.Native.String.{◌++◌}
use rider_crawl_baemin.Prelude.{
  ℕ, String, Bool, true, false, ◌&&◌, ◌||◌, ◌≡◌, refl, sym, ap, ◌∙◌, leb, ◌==◌, truthy, arith,
}
use rider_crawl_baemin.Text.{
  replace_utc_offset, strip, zulu_offset, is_space, lstrip, rstrip, replace_from, after_prefix,
}

-- The characters of a date and a time before the offset
unfoldable pub is_stamp_char : ℕ → Bool
is_stamp_char c = (leb b'0' c && leb c b'9') || c == b'-' || c == b':' || c == b'.' || c == b'T'

unfoldable pub is_stamp : String → Bool
unfolding is_stamp_char
is_stamp String.[] = true
is_stamp (String.◌∷◌ c s) = is_stamp_char (code c) && is_stamp s

stamp_char :
    (c : ℕ)
    → is_stamp_char c ≡ true
    → (is_space c ≡ false) × ((c == b'Z') ≡ false) × ((b'+' == c) ≡ false)
unfolding is_stamp_char is_space
stamp_char c h = (ground arith, ground arith, ground arith)

replace_step :
    (c : Char) (s : String)
    → is_stamp_char (code c) ≡ true
    → replace_from 0 (String.◌∷◌ c s) ≡ String.◌∷◌ c (replace_from 0 s)
unfolding replace_from after_prefix
replace_step c s h = rw ((stamp_char (code c) h).2, replace_from) refl

rstrip_step :
    (c : Char) (s : String)
    → is_stamp_char (code c) ≡ true
    → rstrip (String.◌∷◌ c s) ≡ String.◌∷◌ c (rstrip s)
unfolding rstrip
rstrip_step c s h = rw ((stamp_char (code c) h).0) refl

zulu_step :
    (c : Char) (s : String)
    → is_stamp_char (code c) ≡ true
    → zulu_offset (String.◌∷◌ c s) ≡ String.◌∷◌ c (zulu_offset s)
unfolding zulu_offset
zulu_step c s h = rw ((stamp_char (code c) h).1) refl

head_stamp :
    (c : Char) (s : String) → is_stamp (String.◌∷◌ c s) ≡ true → is_stamp_char (code c) ≡ true
unfolding is_stamp
head_stamp c s h = ground arith

rest_stamp : (c : Char) (s : String) → is_stamp (String.◌∷◌ c s) ≡ true → is_stamp s ≡ true
unfolding is_stamp
rest_stamp c s h = ground arith

-- A function that passes over the characters of a stamp changes only what follows the stamp.
passes_stamp :
    (f : String → String) (before after : String)
    → ((c : Char) (s : String)
        → is_stamp_char (code c) ≡ true
        → f (String.◌∷◌ c s) ≡ String.◌∷◌ c (f s))
    → f before ≡ after
    → (head : String) → is_stamp head ≡ true
    → f (head ++ before) ≡ head ++ after
passes_stamp f before after step e String.[] h =
    ap f (nil-append before) ∙ e ∙ sym (nil-append after)
passes_stamp f before after step e (String.◌∷◌ c s) h =
    ap f (cons-append c s before)
    ∙ step c (s ++ before) (head_stamp c s h)
    ∙ ap (λ t. String.◌∷◌ c t) (passes_stamp f before after step e s (rest_stamp c s h))
    ∙ sym (cons-append c s after)

pub replace_utc_offset-stamp :
    (head : String) → is_stamp head ≡ true → replace_utc_offset (head ++ "+00:00") ≡ head ++ "Z"
unfolding replace_utc_offset
replace_utc_offset-stamp = passes_stamp (replace_from 0) "+00:00" "Z" replace_step replaced
  where
    replaced : replace_from 0 "+00:00" ≡ "Z"
    replaced = refl

lstrip-stamp : (head : String) → is_stamp head ≡ true → lstrip (head ++ "Z") ≡ head ++ "Z"
unfolding lstrip is_space
lstrip-stamp String.[] h = refl
lstrip-stamp (String.◌∷◌ c s) h =
    rw (cons-append c s "Z") (rw ((stamp_char (code c) (head_stamp c s h)).0) refl)

pub strip-stamp : (head : String) → is_stamp head ≡ true → strip (head ++ "Z") ≡ head ++ "Z"
unfolding strip
strip-stamp head h =
    ap rstrip (lstrip-stamp head h) ∙ passes_stamp rstrip "Z" "Z" rstrip_step refl head h

pub zulu_offset-stamp :
    (head : String) → is_stamp head ≡ true → zulu_offset (head ++ "Z") ≡ head ++ "+00:00"
unfolding zulu_offset
zulu_offset-stamp = passes_stamp zulu_offset "Z" "+00:00" zulu_step refl

pub truthy-stamp : (head : String) → truthy (head ++ "Z") ≡ true
truthy-stamp String.[] = refl
truthy-stamp (String.◌∷◌ c s) = rw (cons-append c s "Z") refl

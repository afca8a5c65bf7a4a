-- ===== src/Text.antt =====
-- The text methods that the services call, and what the program takes from outside its source: the
-- Unicode case tables behind `str.upper` and `str.casefold`, `datetime.fromisoformat` and SHA-256,
-- which stand in the record `Runtime` as an argument.
pub mod Offset
use Prim.Native.Char.{code}
use Prim.Native.String.{char_at}
use rider_crawl_baemin.Prelude.{
  ℕ, ◌-◌, ◌≡◌, refl, String, Bool, ◌&&◌, ◌||◌, Option, leb, ◌==◌, if◌then◌else◌, truthy, not, zero,
  suc, none, some,
}
use rider_crawl_baemin.Domain.{Time}

-- What `datetime.fromisoformat` gives: an instant with its time zone, or one without, read as the
-- instant that its fields name in UTC.
pub data Stamp : Type 0 where
  naive aware : Time → Stamp

pub record Runtime : Type 0 where
  pub upper : String → String
  pub casefold : String → String
  pub fromisoformat : String → Option Stamp
  -- `isoformat` of the instant in UTC
  pub isoformat : Time → String
  -- the first eight bytes of the SHA-256 digest of a text's UTF-8, as a big-endian number
  pub sha256_head : String → ℕ

-- `str.isspace` of one character
is_space : ℕ → Bool
is_space c =
    (leb 9 c && leb c 13)
    || (leb 28 c && leb c 32)
    || c == 0x85
    || c == 0xa0
    || c == 0x1680
    || (leb 0x2000 c && leb c 0x200a)
    || c == 0x2028
    || c == 0x2029
    || c == 0x202f
    || c == 0x205f
    || c == 0x3000

lstrip : String → String
lstrip String.[] = String.[]
lstrip (String.◌∷◌ c s) = if is_space (code c) then lstrip s else String.◌∷◌ c s

rstrip : String → String
rstrip String.[] = String.[]
rstrip (String.◌∷◌ c s) =
    let rest = rstrip s in
    if is_space (code c) && not (truthy rest) then String.[] else String.◌∷◌ c rest

unfoldable pub strip : String → String
unfolding lstrip rstrip is_space
strip s = rstrip (lstrip s)

-- A final `Z` becomes `+00:00`: `text[:-1] + "+00:00"` if `text.endswith("Z")`.
unfoldable pub zulu_offset : String → String
zulu_offset String.[] = String.[]
zulu_offset (String.◌∷◌ c s) =
    let rest = String.◌∷◌ c (zulu_offset s) in
    if code c == b'Z' && not (truthy s) then "+00:00" else rest

-- The rest of a text after the prefix, `none` where it does not start with it
after_prefix : String → String → Option String
after_prefix String.[] s = some s
after_prefix (String.◌∷◌ p ps) String.[] = none
after_prefix (String.◌∷◌ p ps) (String.◌∷◌ c s) =
    let rest = after_prefix ps s in if code p == code c then rest else none

-- `s.replace("+00:00", "Z")`, where `skip` characters of an occurrence are still to be passed.
replace_from : ℕ → String → String
unfolding after_prefix
replace_from skip String.[] = String.[]
replace_from (suc skip) (String.◌∷◌ c s) = replace_from skip s
replace_from zero (String.◌∷◌ c s) =
    let inside = replace_from 5 s in
    let rest = replace_from zero s in
    elim (after_prefix "+00:00" (String.◌∷◌ c s)) [
      | none ↦ String.◌∷◌ c rest
      | some later ↦ String.◌∷◌ (char_at "Z" 0) inside
    ]

unfoldable pub replace_utc_offset : String → String
unfolding replace_from
replace_utc_offset s = replace_from 0 s

-- The case mapping on ASCII letters, for concrete runs.
unfoldable pub upper_ascii : String → String
upper_ascii String.[] = String.[]
upper_ascii (String.◌∷◌ c s) =
    let up = char_at "ABCDEFGHIJKLMNOPQRSTUVWXYZ" (code c - b'a') in
    String.◌∷◌ (if leb b'a' (code c) && leb (code c) b'z' then up else c) (upper_ascii s)

unfoldable pub lower_ascii : String → String
lower_ascii String.[] = String.[]
lower_ascii (String.◌∷◌ c s) =
    let low = char_at "abcdefghijklmnopqrstuvwxyz" (code c - b'A') in
    String.◌∷◌ (if leb b'A' (code c) && leb (code c) b'Z' then low else c) (lower_ascii s)

strip_test : strip "  crawl timeout  " ≡ "crawl timeout"
unfolding strip
strip_test = refl

upper_ascii_test : upper_ascii "Crawl_timeout" ≡ "CRAWL_TIMEOUT"
unfolding upper_ascii
upper_ascii_test = refl

replace_test : replace_utc_offset "2026-07-02T00:00:00+00:00" ≡ "2026-07-02T00:00:00Z"
unfolding replace_utc_offset
replace_test = refl

zulu_test : zulu_offset "2026-07-02T00:00:00Z" ≡ "2026-07-02T00:00:00+00:00"
unfolding zulu_offset
zulu_test = refl

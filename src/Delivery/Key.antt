-- ===== src/Delivery/Key.antt =====
-- The dedup key tells its five fields apart.
use Prim.Native.Char.{Char, code}
use Prim.Native.String.{◌++◌}
use text.Mathlib.TextLemmas.{nil-append, cons-append}
use rider_crawl_baemin.Prelude.{◌≡◌, refl, sym, ap, ◌∙◌, Bool, false, ◌||◌, String, arith, ◌==◌}
use rider_crawl_baemin.Delivery.{build_dedup_key}

-- The separator stands in the text.
unfoldable pub has_separator : String → Bool
has_separator String.[] = false
has_separator (String.◌∷◌ c s) = code c == b'|' || has_separator s

abbrev bar : Char
bar = "|"

-- The separator in front of a text.
abbrev barred : String → String
barred x = String.◌∷◌ bar x

after_separator : (x : String) → "|" ++ x ≡ barred x
after_separator x = cons-append bar String.[] x ∙ ap (λ t. String.◌∷◌ bar t) (nil-append x)

cons_inj : (c d : Char) (s t : String) → String.◌∷◌ c s ≡ String.◌∷◌ d t → (c ≡ d) × (s ≡ t)
cons_inj c d s t h = (cc, cc)

rest_free :
    (c : Char) (s : String) → has_separator (String.◌∷◌ c s) ≡ false → has_separator s ≡ false
unfolding has_separator
rest_free c s h = ground arith

separates : (c : Char) (s : String) → has_separator (String.◌∷◌ c s) ≡ false → bar ≡ c → ⊥
unfolding has_separator
separates c s h e = let same : code c ≡ 124 = ap code (sym e) in ground arith

-- What stands in front of the first separator, and what follows it, are determined.
split_inj :
    (a c x y : String)
    → has_separator a ≡ false
    → has_separator c ≡ false
    → a ++ barred x ≡ c ++ barred y
    → (a ≡ c) × (x ≡ y)
split_inj String.[] String.[] x y fa fc h =
    (refl, (cons_inj bar bar x y (sym (nil-append (barred x)) ∙ (h ∙ nil-append (barred y)))).1)
split_inj String.[] (String.◌∷◌ d c) x y fa fc h = absurd (
    separates d c fc
      (cons_inj bar d x (c ++ barred y)
        (sym (nil-append (barred x)) ∙ (h ∙ cons-append d c (barred y)))).0)
split_inj (String.◌∷◌ d a) String.[] x y fa fc h = absurd (
    separates d a fa
      (cons_inj bar d y (a ++ barred x)
        (sym (nil-append (barred y)) ∙ (sym h ∙ cons-append d a (barred x)))).0)
split_inj (String.◌∷◌ d a) (String.◌∷◌ e c) x y fa fc h =
    let (first, rest) =
      cons_inj d e (a ++ barred x) (c ++ barred y)
        (sym (cons-append d a (barred x)) ∙ (h ∙ cons-append e c (barred y))) in
    let (same, left) = split_inj a c x y (rest_free d a fa) (rest_free e c fc) rest in
    (ap (λ t. String.◌∷◌ d t) same ∙ ap (λ b. String.◌∷◌ b c) first, left)

-- The same with the separator as the source writes it.
field_inj :
    (a c x y : String)
    → has_separator a ≡ false
    → has_separator c ≡ false
    → a ++ "|" ++ x ≡ c ++ "|" ++ y
    → (a ≡ c) × (x ≡ y)
field_inj a c x y fa fc h =
    split_inj a c x y fa fc
      (ap (λ t. a ++ t) (sym (after_separator x)) ∙ (h ∙ ap (λ t. c ++ t) (after_separator y)))

-- Two deliveries whose first four fields have no separator, such as opaque ids, instants and
-- versions, have the same dedup key only if all five fields are the same: no delivery is blocked for
-- another's sake.
pub build_dedup_key-inj :
    (t t' ch ch' at at' v v' hash hash' : String)
    → has_separator t ≡ false
    → has_separator t' ≡ false
    → has_separator ch ≡ false
    → has_separator ch' ≡ false
    → has_separator at ≡ false
    → has_separator at' ≡ false
    → has_separator v ≡ false
    → has_separator v' ≡ false
    → build_dedup_key t ch at v hash ≡ build_dedup_key t' ch' at' v' hash'
    → (t ≡ t') × (ch ≡ ch') × (at ≡ at') × (v ≡ v') × (hash ≡ hash')
unfolding build_dedup_key
build_dedup_key-inj t t' ch ch' at at' v v' hash hash' ft ft' fc fc' fa fa' fv fv' h =
    let (one, rest) = field_inj t t' _ _ ft ft' h in
    let (two, rest2) = field_inj ch ch' _ _ fc fc' rest in
    let (three, rest3) = field_inj at at' _ _ fa fa' rest2 in
    let (four, five) = field_inj v v' hash hash' fv fv' rest3 in (one, two, three, four, five)

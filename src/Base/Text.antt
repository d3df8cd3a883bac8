-- ===== src/Base/Text.antt =====
-- What the code uses of package `strings`: prefixes, splitting and joining, trimming, and the order
-- that `sort.Strings` goes by. The order of the bytes of UTF-8 is that of the code points.
use Prim.Native.Nat.{ℕ}
use Prim.Native.Char.{Char, code}
use Prim.Native.String.{String, ◌++◌ as ◌<>◌}
use mathlib.Core.Path.{◌≡◌, refl}
use mathlib.Core.Logic.{◌⊎◌}
use mathlib.Core.Bool.{Bool, true, false, not, ◌&&◌, ◌||◌}
use mathlib.Core.Option.{Option, none, some}
use mathlib.Core.List.{List, [], ◌∷◌}
use native.Mathlib.Omega.{arith}
use text.Mathlib.Text.{◌==◌}
use autok3s.Base.Tests.{ltb, leb, if◌then◌else◌}

-- Equality of two code points.
abbrev pub same_code : ℕ → ℕ → Bool
same_code a b = leb a b && leb b a

unfoldable pub text_leb : String → String → Bool
text_leb String.[] t = true
text_leb (String.◌∷◌ c s) String.[] = false
text_leb (String.◌∷◌ c s) (String.◌∷◌ d t) =
    if ltb (code c) (code d) then true else if ltb (code d) (code c) then false else text_leb s t

pub text_leb_total : (s t : String) → (text_leb s t ≡ true) ⊎ (text_leb t s ≡ true)
unfolding text_leb
text_leb_total String.[] t = ground arith
text_leb_total (String.◌∷◌ c s) String.[] = ground arith
text_leb_total (String.◌∷◌ c s) (String.◌∷◌ d t) = ground (arith, text_leb_total s t)

pub text_leb_trans :
    (s t u : String) → text_leb s t ≡ true → text_leb t u ≡ true → text_leb s u ≡ true
unfolding text_leb
text_leb_trans String.[] t u h k = refl
text_leb_trans (String.◌∷◌ c s) String.[] u h k = ground arith
text_leb_trans (String.◌∷◌ c s) (String.◌∷◌ d t) String.[] h k = ground arith
text_leb_trans (String.◌∷◌ c s) (String.◌∷◌ d t) (String.◌∷◌ e u) h k =
    ground (arith, text_leb_trans s t u)

-- `s != ""`.
abbrev pub is_set : String → Bool
is_set s = not (s == "")

-- `strings.HasPrefix` together with the rest: `cut_prefix s p` is `some r` when `s` is `p <> r`.
unfoldable pub cut_prefix : String → String → Option String
cut_prefix s String.[] = some s
cut_prefix String.[] (String.◌∷◌ d p) = none
cut_prefix (String.◌∷◌ c s) (String.◌∷◌ d p) =
    if same_code (code c) (code d) then cut_prefix s p else none

unfoldable pub has_prefix : String → String → Bool
unfolding cut_prefix
has_prefix s p = elim (cut_prefix s p) [ none ↦ false | some r ↦ true ]

-- `strings.Contains`.
unfoldable pub has_infix : String → String → Bool
unfolding has_prefix
has_infix String.[] p = has_prefix String.[] p
has_infix (String.◌∷◌ c s) p = has_prefix (String.◌∷◌ c s) p || has_infix s p

-- The current part grows at its front.
abbrev push : Char → List String → List String
push c [] = String.◌∷◌ c String.[] ∷ []
push c (p ∷ ps) = String.◌∷◌ c p ∷ ps

-- `strings.Split` at a separator of one character, given by its code.
unfoldable pub split : String → ℕ → List String
split String.[] sep = String.[] ∷ []
split (String.◌∷◌ c s) sep =
    let rest = split s sep in if same_code (code c) sep then String.[] ∷ rest else push c rest

-- `strings.Join`.
unfoldable pub join : List String → String → String
join [] sep = ""
join (x ∷ []) sep = x
join (x ∷ y ∷ xs) sep = x <> (sep <> join (y ∷ xs) sep)

-- `strings.SplitN(s, sep, 2)` as a pair; the second part is empty if there is no separator.
unfoldable pub split_once : String → ℕ → String × String
split_once String.[] sep = (String.[], String.[])
split_once (String.◌∷◌ c s) sep =
    let (before, after) = split_once s sep in
    if same_code (code c) sep then (String.[], s) else (String.◌∷◌ c before, after)

-- `unicode.IsSpace`.
unfoldable pub is_space : ℕ → Bool
is_space c =
    (leb 9 c && leb c 13)
    || same_code c 32
    || same_code c 0x85
    || same_code c 0xa0
    || same_code c 0x1680
    || (leb 0x2000 c && leb c 0x200a)
    || (leb 0x2028 c && leb c 0x2029)
    || same_code c 0x202f
    || same_code c 0x205f
    || same_code c 0x3000

unfoldable pub trim_left : String → String
trim_left String.[] = String.[]
trim_left (String.◌∷◌ c s) =
    let rest = trim_left s in if is_space (code c) then rest else String.◌∷◌ c s

abbrev keep : Char → String → String
keep c String.[] = if is_space (code c) then String.[] else String.◌∷◌ c String.[]
keep c (String.◌∷◌ d s) = String.◌∷◌ c (String.◌∷◌ d s)

unfoldable pub trim_right : String → String
trim_right String.[] = String.[]
trim_right (String.◌∷◌ c s) = keep c (trim_right s)

-- `strings.TrimSpace`.
unfoldable pub trim_space : String → String
unfolding trim_left trim_right is_space
trim_space s = trim_right (trim_left s)

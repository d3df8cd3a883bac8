-- ===== src/Types/Array.antt =====
-- `StringArray` of pkg/types/autok3s.go: how a list of strings is kept in one column.
use text.Mathlib.TextLemmas.{append-eq-nil_iff}
use mathlib.Core.Bool.{false≢true}
use mathlib.Core.List.{cons-ne-nil}
use autok3s.Base.{
  split-join, AllLack, String, Bool, true, false, List, [], ◌∷◌, ◌≡◌, ◌≢◌, refl, sym, ap, arith,
  ◌==◌, eq_iff, if◌then◌else◌, Result, ok, err, panic, split, join,
}

-- The driver's value: `nil` or a string.
pub data DriverValue : Type 0 where
  nil : DriverValue
  str : String → DriverValue

-- `Value`.
pub value : List String → DriverValue
value [] = nil
value (x ∷ a) = str (join (x ∷ a) ",")

-- `Scan`, into a receiver that holds `a`: an empty text leaves it as it was.
pub scan : List String → DriverValue → Result (List String)
scan a nil = err "failed to scan array value"
scan a (str v) = ok (if v == "" then a else split v b',')

-- What a receiver that was empty holds once the column has been read. Of NULL gorm makes the zero value
-- without a call of `Scan`.
unfoldable pub read_back : List String → List String
unfolding scan value
read_back a = elim (value a) [
  | nil ↦ []
  | str v ↦ elim (scan [] (str v)) [ ok b ↦ b | err e ↦ [] | panic ↦ [] ]
]

abbrev is_cons : String → Bool
is_cons String.[] = false
is_cons (String.◌∷◌ c s) = true

join-ne-nil : (x : String) (xs : List String) → x ∷ xs ≢ "" ∷ [] → join (x ∷ xs) "," ≢ ""
unfolding join
join-ne-nil x [] h e = h (ap (λ s. s ∷ []) e)
join-ne-nil x (y ∷ xs) h e =
    let tail_empty = (append-eq-nil_iff.0 e).1 in
    false≢true (sym (ap is_cons (append-eq-nil_iff.0 tail_empty).0))

-- What is written to a column is read back: for every list but the empty one and that of one empty
-- text, if no member holds a comma, and whatever the receiver held before.
pub scan-value :
    (a held : List String) → a ≢ [] → a ≢ "" ∷ [] → AllLack "," a → scan held (value a) ≡ ok a
unfolding scan value
scan-value [] held n m h = absurd (n refl)
scan-value (x ∷ a) held n m h =
    ground (arith, split-join "," (x ∷ a) n h, join-ne-nil x a m, eq_iff (join (x ∷ a) ",") "")

-- No list of one empty text, and no comma in a member.
abbrev pub IsKept : List String → Type 0
IsKept a = (a ≢ "" ∷ []) × AllLack "," a

pub read_back-IsKept : (a : List String) → IsKept a → read_back a ≡ a
unfolding read_back
read_back-IsKept [] h = unfold value in refl
read_back-IsKept (x ∷ a) (m, h) = ground (
  arith,
  split-join "," (x ∷ a) (cons-ne-nil x a) h,
  join-ne-nil x a m,
  eq_iff (join (x ∷ a) ",") "",
)

-- ===== src/Types/Tests.antt =====
-- Columns of string arrays at concrete lists.
use autok3s.Base.{[], ◌∷◌, ◌≡◌, arith, ok}
use autok3s.Types.Array.{scan, value, scan-value}

scan-value_example : scan ("old" ∷ []) (value ("a" ∷ "" ∷ "b" ∷ [])) ≡ ok ("a" ∷ "" ∷ "b" ∷ [])
scan-value_example = scan-value ("a" ∷ "" ∷ "b" ∷ []) ("old" ∷ []) (cc) (cc) (ground arith)

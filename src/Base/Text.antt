-- ===== src/Base/Text.antt =====
-- Text as the code points of a literal.
use Prim.Native.Char.{code}
use Prim.Native.String.{String}
use sqlx.Base.{ℕ, zero, suc, ◌+◌, ◌/◌, ◌%◌, List, [], ◌∷◌, ltb, if◌then◌else◌}

abbrev pub codes : String → List ℕ
codes String.[] = []
codes (String.◌∷◌ c s) = code c ∷ codes s

-- `to_string` of a number of at most so many digits, before the digits that are there.
unfoldable pub decimal : ℕ → ℕ → List ℕ → List ℕ
decimal zero n digits = digits
decimal (suc k) n digits =
    let more = decimal k (n / 10) ((48 + n % 10) ∷ digits) in
    if ltb n 10 then (48 + n % 10) ∷ digits else more

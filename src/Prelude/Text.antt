-- ===== src/Prelude/Text.antt =====
-- Python's `x or default` and `text[-1000:]`, and JSON objects of texts.
use Prim.Native.Nat.{ℕ, zero, suc, ◌-◌, ◌/◌, ◌%◌}
use Prim.Native.Char.{Char}
use Prim.Native.String.{String, slice}
pub use Prim.Native.String.{◌++◌ as text_append}
use mathlib.Core.Option.{Option, none, some}
use mathlib.Core.List.{List, [], ◌∷◌}
use eastwatch.Prelude.Tests.{str_eq, if◌then◌else◌, ◌==◌}
use mathlib.Core.Bool.{Bool, true, ◌&&◌}

-- A JSON object whose values the controller copies or reads as texts.
abbrev pub Dict : Type 0
Dict = List (String × String)

-- `d.get(key)`
abbrev pub get : Dict → String → Option String
get [] key = none
get ((k, v) ∷ d) key = if str_eq k key then some v else get d key

-- `value or default`: an empty text is false too.
abbrev pub or_default : Option String → String → String
or_default none default = default
or_default (some s) default = if str_eq s "" then default else s

abbrev pub text_length : String → ℕ
text_length String.[] = 0
text_length (String.◌∷◌ c s) = suc (text_length s)

abbrev pub all_chars : (Char → Bool) → String → Bool
all_chars p String.[] = true
all_chars p (String.◌∷◌ c s) = p c && all_chars p s

abbrev pub text_drop : ℕ → String → String
text_drop zero s = s
text_drop (suc n) String.[] = String.[]
text_drop (suc n) (String.◌∷◌ c s) = text_drop n s

-- `text[-1000:]`
pub last_1000 : String → String
last_1000 s = text_drop (text_length s - 1000) s

-- The digit of a number below 10, and `str(n)`. A number has at most as many digits as `n + 1`
-- counts, so the fuel is enough.
abbrev digit : ℕ → String
digit n = slice "0123456789" n (suc n)

abbrev digits : ℕ → ℕ → String
digits zero n = digit (n % 10)
digits (suc fuel) n =
    let rest = digits fuel (n / 10) in
    if n / 10 == 0 then digit (n % 10) else text_append rest (digit (n % 10))

abbrev pub decimal : ℕ → String
decimal n = digits n n

-- `text[:n]`
pub text_take : ℕ → String → String
text_take zero s = String.[]
text_take (suc n) String.[] = String.[]
text_take (suc n) (String.◌∷◌ c s) = String.◌∷◌ c (text_take n s)

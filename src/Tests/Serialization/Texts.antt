-- ===== src/Tests/Serialization/Texts.antt =====
-- A text for each number, of that many characters, and its parser.
use Prim.Native.String.{count, ◌++◌}
use text.Mathlib.TextLemmas.{length-append}
use boat_backend.Prelude.{ℕ, zero, suc, ◌≡◌, refl, ap, arith, String, Option, some}

abbrev pub str : ℕ → String
str zero = ""
str (suc n) = "1" ++ str n

abbrev pub parse : String → Option ℕ
parse s = some (count s)

count-str : (n : ℕ) → count (str n) ≡ n
count-str zero = refl
count-str (suc n) =
    (let more = count-str n in let one = length-append "1" (str n) in omega (arith, more, one))

pub parse-str : (n : ℕ) → parse (str n) ≡ some n
parse-str n = ap some (count-str n)

-- ===== src/Prelude/Text.antt =====
-- Python's `str.strip` on native strings.
use Prim.Native.Nat.{ℕ}
use Prim.Native.Char.{Char, code}
use Prim.Native.String.{String, [], ◌∷◌}
use mathlib.Core.Bool.{Bool, true, false, ◌&&◌, ◌||◌}
use boat_backend.Prelude.Tests.{leb, ◌==◌, if◌then◌else◌}

-- `str.isspace` of one character
unfoldable pub is_space : Char → Bool
is_space c =
    let n = code c in
    leb 9 n && leb n 13
    || (leb 28 n && leb n 32
        || (n == 133
            || (n == 160
                || (n == 5760
                    || (leb 8192 n && leb n 8202
                        || (n == 8232
                            || (n == 8233 || (n == 8239 || (n == 8287 || n == 12288)))))))))

-- `not value`
abbrev pub is_empty : String → Bool
is_empty [] = true
is_empty (c ∷ s) = false

abbrev pub lstrip : String → String
lstrip [] = []
lstrip (c ∷ s) = let rest = lstrip s in if is_space c then rest else c ∷ s

abbrev pub rstrip : String → String
rstrip [] = []
rstrip (c ∷ s) = let rest = rstrip s in if is_space c && is_empty rest then [] else c ∷ rest

unfoldable pub strip : String → String
strip s = lstrip (rstrip s)

-- Whether a text has the character of the code.
abbrev pub has_code : ℕ → String → Bool
has_code n [] = false
has_code n (c ∷ s) = code c == n || has_code n s

-- ===== src/Base/Utf8.antt =====
-- `std::str::from_utf8` as a test of bytes, and the lines that `BufRead::read_line` reads.
use Prim.Native.Nat.{ℕ, zero, suc}
use mathlib.Core.Bool.{Bool, true, false, ◌&&◌}
use mathlib.Core.List.{List, [], ◌∷◌}
use mandala.Base.Tests.{leb, ◌==◌, if◌then◌else◌}

-- The byte that comes next: any that starts a character, or one between two bounds, with the
-- number of continuation bytes that follow it.
pub data Expect : Type 0 where
  start : Expect
  between : (low high : ℕ) → (more : ℕ) → Expect
  never : Expect

abbrev after_start : ℕ → Expect
after_start b =
    if leb b 127
    then start
    else if leb 194 b && leb b 223
    then between 128 191 0
    else if b == 224
    then between 160 191 1
    else if b == 237
    then between 128 159 1
    else if leb 225 b && leb b 239
    then between 128 191 1
    else if b == 240
    then between 144 191 2
    else if leb 241 b && leb b 243
    then between 128 191 2
    else if b == 244
    then between 128 143 2
    else never

abbrev after_more : ℕ → Expect
after_more zero = start
after_more (suc n) = between 128 191 n

abbrev next : Expect → ℕ → Expect
next start b = after_start b
next (between low high more) b = if leb low b && leb b high then after_more more else never
next never b = never

unfoldable pub accepts : Expect → List ℕ → Bool
accepts start [] = true
accepts _ [] = false
accepts e (b ∷ bs) = accepts (next e b) bs

abbrev pub is_utf8 : List ℕ → Bool
is_utf8 bytes = accepts start bytes

abbrev pub cons_line : ℕ → List (List ℕ) → List (List ℕ)
cons_line b [] = []
cons_line b (line ∷ lines) = (b ∷ line) ∷ lines

-- The lines of the bytes, each with the newline that ends it; an unfinished one is left out.
unfoldable pub complete_lines : List ℕ → List (List ℕ)
complete_lines [] = []
complete_lines (b ∷ bs) =
    let rest = complete_lines bs in if b == 10 then (10 ∷ []) ∷ rest else cons_line b rest

-- What is behind the last newline.
unfoldable pub unfinished : List ℕ → List ℕ
unfinished [] = []
unfinished (b ∷ bs) =
    let rest = unfinished bs in
    let found = complete_lines bs in
    if b == 10 then rest else elim found [ [] ↦ b ∷ bs | l ∷ ls ↦ rest ]

-- ===== src/Lines.antt =====
-- Reading a file line by line, as `BufRead::lines` and `str::lines` do, and `str::trim`. White
-- space is the ASCII white space.
use respawn.Base.{
  ℕ, Bytes, ◌≡◌, ◌≢◌, refl, Bool, true, false, ◌&&◌, ◌||◌, List, [], ◌∷◌, ◌++◌, arith, leb, ◌==◌,
  nat_eq, list_eq, all, contains, if◌then◌else◌,
}

abbrev pub newline : ℕ
newline = 10

abbrev pub push_head : ℕ → List Bytes → List Bytes
push_head x [] = (x ∷ []) ∷ []
push_head x (p ∷ ps) = (x ∷ p) ∷ ps

abbrev starts_newline : Bytes → Bool
starts_newline [] = false
starts_newline (x ∷ xs) = x == newline

-- A line ends in "\n" or "\r\n"; what follows the last line end is a line if it is not empty.
unfoldable pub lines : Bytes → List Bytes
lines [] = []
lines (x ∷ xs) =
    let rest = lines xs in
    if x == newline
    then [] ∷ rest
    else if x == 13 && starts_newline xs
    then rest
    else push_head x rest

abbrev pub is_space : ℕ → Bool
is_space b = b == 32 || leb 9 b && leb b 13

abbrev pub trim_start : Bytes → Bytes
trim_start [] = []
trim_start (b ∷ s) = let rest = trim_start s in if is_space b then rest else b ∷ s

abbrev keep_end : ℕ → Bytes → Bytes
keep_end b rest = if is_space b && rest == [] then [] else b ∷ rest

abbrev pub trim_end : Bytes → Bytes
trim_end [] = []
trim_end (b ∷ s) = keep_end b (trim_end s)

unfoldable pub trim : Bytes → Bytes
trim s = trim_end (trim_start s)

-- `line.trim().is_empty()`
abbrev pub is_blank : Bytes → Bool
is_blank = all is_space

-- Whether the text ends in a line end, `b` if it is empty.
abbrev pub ends_line : Bool → Bytes → Bool
ends_line b [] = b
ends_line b (x ∷ xs) = ends_line (x == newline) xs

-- The file ends in a line end, or is empty.
abbrev pub is_terminated : Bytes → Bool
is_terminated = ends_line true

lines-cons-ne-nil : (x : ℕ) (xs : Bytes) → lines (x ∷ xs) ≢ []
unfolding lines
lines-cons-ne-nil x [] = ground arith
lines-cons-ne-nil x (y ∷ ys) = ground (arith, lines-cons-ne-nil y ys)

lines-ne-nil : (xs : Bytes) → ends_line false xs ≡ true → lines xs ≢ []
lines-ne-nil [] h = cc
lines-ne-nil (x ∷ xs) h = lines-cons-ne-nil x xs

lines_line :
    (l : Bytes)
    → contains l newline ≡ false
    → contains l 13 ≡ false
    → lines (l ++ newline ∷ []) ≡ l ∷ []
unfolding lines
lines_line [] h k = ground arith
lines_line (x ∷ l) h k = ground (arith, lines_line l)

starts_newline-append :
    (xs ys : Bytes) → ends_line false xs ≡ true → starts_newline (xs ++ ys) ≡ starts_newline xs
starts_newline-append [] ys h = cc
starts_newline-append (x ∷ xs) ys h = refl

lines-append_onto :
    (b : Bool) (file l : Bytes)
    → ends_line b file ≡ true
    → contains l newline ≡ false
    → contains l 13 ≡ false
    → lines (file ++ l ++ newline ∷ []) ≡ lines file ++ l ∷ []
unfolding lines
lines-append_onto b [] l t h k = lines_line l h k
lines-append_onto b (x ∷ file) l t h k = ground (
  arith,
  lines-append_onto (x == newline) file l t h k,
  starts_newline-append file (l ++ newline ∷ []),
  lines-ne-nil file,
)

-- A terminated file with one more line reads as its lines and that line.
pub lines-append :
    (file l : Bytes)
    → is_terminated file ≡ true
    → contains l newline ≡ false
    → contains l 13 ≡ false
    → lines (file ++ l ++ newline ∷ []) ≡ lines file ++ l ∷ []
lines-append = lines-append_onto true

ends_line-append : (b : Bool) (l : Bytes) → ends_line b (l ++ newline ∷ []) ≡ true
ends_line-append b [] = ground arith
ends_line-append b (x ∷ l) = ends_line-append (x == newline) l

ends_line-append_onto : (b : Bool) (file l : Bytes) → ends_line b (file ++ l ++ newline ∷ []) ≡ true
ends_line-append_onto b [] l = ends_line-append b l
ends_line-append_onto b (x ∷ file) l = ends_line-append_onto (x == newline) file l

pub terminated_append : (file l : Bytes) → is_terminated (file ++ l ++ newline ∷ []) ≡ true
terminated_append = ends_line-append_onto true

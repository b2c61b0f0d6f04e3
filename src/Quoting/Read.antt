-- ===== src/Quoting/Read.antt =====
-- What a shell, AppleScript and an XML reader make of the quoted texts.
use respawn.Base.{
  ℕ, Bytes, text, Bool, true, false, Option, none, some, [], ◌∷◌, ◌++◌, ◌==◌, nat_eq, list_eq,
  if◌then◌else◌, contains, drop, ◌≡◌, refl, arith, ap, sym,
}
use mathlib.Core.Path.{subst}
use respawn.Quoting.{replace, sh_quote, as_escape, xml_escape, shell_command, admin_script}

abbrev push : ℕ → Option (Bytes × Bytes) → Option (Bytes × Bytes)
push x none = none
push x (some (word, rest)) = some (x ∷ word, rest)

-- Where a shell is in a word: outside quotes, after a backslash, or in single quotes.
pub data Quotes : Type 0 where
  bare : Quotes
  escaped : Quotes
  single : Quotes

-- One word of a POSIX shell, and what follows it. In single quotes every character stands for
-- itself; outside them a character that could expand makes the reading fail.
unfoldable pub sh_word : Quotes → Bytes → Option (Bytes × Bytes)
sh_word bare [] = some ([], [])
sh_word escaped [] = none
sh_word single [] = none
sh_word bare (x ∷ xs) =
    let quoted = sh_word single xs in
    let literal = sh_word escaped xs in
    let rest = sh_word bare xs in
    if x == b'\''
    then quoted
    else if x == b'\\'
    then literal
    else if x == b' '
    then some ([], x ∷ xs)
    else if contains (text "$`\"*?[#~=%|&;<>()\n\t") x
    then none
    else push x rest
sh_word escaped (x ∷ xs) = push x (sh_word bare xs)
sh_word single (x ∷ xs) =
    let rest = sh_word single xs in
    let after = sh_word bare xs in if x == b'\'' then after else push x rest

-- The rest of an AppleScript string after its opening quote, and what follows the closing one; the
-- flag says that a backslash came before.
unfoldable pub as_literal : Bool → Bytes → Option (Bytes × Bytes)
as_literal b [] = none
as_literal true (x ∷ xs) =
    let rest = as_literal false xs in
    if x == b'"' then push x rest else if x == b'\\' then push x rest else none
as_literal false (x ∷ xs) =
    let rest = as_literal false xs in
    let special = as_literal true xs in
    if x == b'"' then some ([], xs) else if x == b'\\' then special else push x rest

abbrev entity : Bytes → Option ℕ
entity name =
    if name == text "amp"
    then some b'&'
    else if name == text "lt"
    then some b'<'
    else if name == text "gt"
    then some b'>'
    else if name == text "quot"
    then some b'"'
    else if name == text "apos"
    then some b'\''
    else none

abbrev push_entity : Option ℕ → Option (Bytes × Bytes) → Option (Bytes × Bytes)
push_entity none o = none
push_entity (some x) o = push x o

-- The text of an XML element up to the next tag, and what follows; the option holds the name of an
-- entity as far as it was read.
unfoldable pub xml_text : Option Bytes → Bytes → Option (Bytes × Bytes)
xml_text o [] = none
xml_text none (x ∷ xs) =
    let rest = xml_text none xs in
    let named = xml_text (some []) xs in
    if x == b'<' then some ([], x ∷ xs) else if x == b'&' then named else push x rest
xml_text (some name) (x ∷ xs) =
    let rest = xml_text none xs in
    let more = xml_text (some (name ++ x ∷ [])) xs in
    if x == b';' then push_entity (entity name) rest else more

quoted_body :
    (s rest : Bytes)
    → sh_word single (replace b'\'' (text "'\\''") s ++ text "'" ++ b' ' ∷ rest)
      ≡ some (s, b' ' ∷ rest)
unfolding sh_word replace nat_eq
quoted_body [] rest = refl
quoted_body (x ∷ xs) rest = elim (nat_eq.dec x b'\'') [
  | yes quote ↦
      subst
        (λ y.
          sh_word single (replace b'\'' (text "'\\''") (y ∷ xs) ++ text "'" ++ b' ' ∷ rest)
          ≡ some (y ∷ xs, b' ' ∷ rest))
        (sym quote) (ap (push b'\'') (quoted_body xs rest))
  | no other ↦
      let is_other : (x == b'\'') ≡ false = ground arith in
      rw (is_other, is_other) (ap (push x) (quoted_body xs rest))
]

-- A shell reads what sh_quote makes of any text as one word, which is that text, and goes on after
-- it.
pub sh_word-sh_quote :
    (s rest : Bytes) → sh_word bare (sh_quote s ++ b' ' ∷ rest) ≡ some (s, b' ' ∷ rest)
unfolding sh_word sh_quote nat_eq
sh_word-sh_quote s rest = quoted_body s rest

-- AppleScript reads what as_escape makes of any text, up to the closing quote, as that text.
pub as_literal-as_escape :
    (s rest : Bytes) → as_literal false (as_escape s ++ b'"' ∷ rest) ≡ some (s, rest)
unfolding as_literal as_escape replace nat_eq
as_literal-as_escape [] rest = refl
as_literal-as_escape (x ∷ xs) rest = elim (nat_eq.dec x b'"') [
  | yes quote ↦
      subst (λ y. as_literal false (as_escape (y ∷ xs) ++ b'"' ∷ rest) ≡ some (y ∷ xs, rest))
        (sym quote) (ap (push b'"') (as_literal-as_escape xs rest))
  | no plain ↦ elim (nat_eq.dec x b'\\') [
    | yes back ↦
        subst (λ y. as_literal false (as_escape (y ∷ xs) ++ b'"' ∷ rest) ≡ some (y ∷ xs, rest))
          (sym back) (ap (push b'\\') (as_literal-as_escape xs rest))
    | no other ↦
        let not_quote : (x == b'"') ≡ false = ground arith in
        let not_back : (x == b'\\') ≡ false = ground arith in
        rw (not_back, not_quote, not_quote, not_back) (ap (push x) (as_literal-as_escape xs rest))
  ]
]

abbrev Reads : Bytes → Bytes → Type 0
Reads rest s = xml_text none (xml_escape s ++ b'<' ∷ rest) ≡ some (s, b'<' ∷ rest)

-- An XML reader takes what xml_escape makes of any text, in front of a tag, as that text.
pub xml_text-xml_escape :
    (s rest : Bytes) → xml_text none (xml_escape s ++ b'<' ∷ rest) ≡ some (s, b'<' ∷ rest)
unfolding xml_text xml_escape replace nat_eq list_eq
xml_text-xml_escape [] rest = refl
xml_text-xml_escape (x ∷ xs) rest =
    let ih = xml_text-xml_escape xs rest in
    elim (nat_eq.dec x b'&') [
      | yes amp ↦ subst (λ y. Reads rest (y ∷ xs)) (sym amp) (ap (push b'&') ih)
      | no other_amp ↦ elim (nat_eq.dec x b'<') [
        | yes lt ↦ subst (λ y. Reads rest (y ∷ xs)) (sym lt) (ap (push b'<') ih)
        | no other_lt ↦ elim (nat_eq.dec x b'>') [
          | yes gt ↦ subst (λ y. Reads rest (y ∷ xs)) (sym gt) (ap (push b'>') ih)
          | no other_gt ↦ elim (nat_eq.dec x b'"') [
            | yes quote ↦ subst (λ y. Reads rest (y ∷ xs)) (sym quote) (ap (push b'"') ih)
            | no other_quote ↦ elim (nat_eq.dec x b'\'') [
              | yes apos ↦ subst (λ y. Reads rest (y ∷ xs)) (sym apos) (ap (push b'\'') ih)
              | no other_apos ↦
                  let not_amp : (x == b'&') ≡ false = ground arith in
                  let not_lt : (x == b'<') ≡ false = ground arith in
                  let not_gt : (x == b'>') ≡ false = ground arith in
                  let not_quote : (x == b'"') ≡ false = ground arith in
                  let not_apos : (x == b'\'') ≡ false = ground arith in
                  rw (not_amp, not_lt, not_gt, not_quote, not_apos, not_lt, not_amp)
                    (ap (push x) ih)
            ]
          ]
        ]
      ]
    ]

-- AppleScript takes the shell command out of admin_script as it was built, whatever the message and
-- the paths are, and the shell reads the worktree as one word of it.
pub admin_script-shell_command :
    (uid gid exe worktree fabric message : Bytes)
    → (as_literal false (drop 17 (admin_script uid gid exe worktree fabric message))
        ≡ some (
          shell_command uid gid exe worktree fabric message,
          text " with administrator privileges",
        ))
      × (rest : Bytes) × (sh_word bare (drop 3 (shell_command uid gid exe worktree fabric message))
          ≡ some (worktree, b' ' ∷ rest))
unfolding admin_script shell_command
admin_script-shell_command uid gid exe worktree fabric message =
    (as_literal-as_escape _ _, _, sh_word-sh_quote worktree _)

-- ===== src/Paths.antt =====
-- src/lib.rs: `sanitize_rel`, and the part of `std::path` that it, `resolve_dest` and
-- `normalize` use, for Unix paths. A path is its bytes.
pub mod Laws
pub mod Contained
use respawn.Base.{
  any, map, ℕ, Bytes, Bool, true, false, ◌||◌, List, [], ◌∷◌, ◌++◌, text, contains, all, length,
  ltb, ◌==◌, nat_eq, list_eq, if◌then◌else◌,
}
use respawn.Errors.{Result, ok, err, unsafe_path}

abbrev pub slash : ℕ
slash = b'/'

abbrev pub dot : Bytes
dot = text "."

abbrev pub dot_dot : Bytes
dot_dot = text ".."

-- `std::path::Component`
pub data Component : Type 0 where
  root_dir cur_dir parent_dir : Component
  normal : Bytes → Component

abbrev pub push_head : ℕ → List Bytes → List Bytes
push_head x [] = (x ∷ []) ∷ []
push_head x (p ∷ ps) = (x ∷ p) ∷ ps

-- The pieces of a text between the separators; there is always one.
unfoldable pub split : ℕ → Bytes → List Bytes
split c [] = [] ∷ []
split c (x ∷ xs) = let rest = split c xs in if x == c then [] ∷ rest else push_head x rest

-- Empty pieces and `.` are dropped by `Path::components`, except for a `.` at the front.
unfoldable pub body : List Bytes → List Component
body [] = []
body (p ∷ ps) =
    let rest = body ps in
    if p == [] || p == dot then rest else (if p == dot_dot then parent_dir else normal p) ∷ rest

abbrev pub front : List Bytes → List Component
front [] = []
front (p ∷ ps) = if p == dot then cur_dir ∷ body ps else body (p ∷ ps)

abbrev pub is_absolute : Bytes → Bool
is_absolute [] = false
is_absolute (x ∷ xs) = x == slash

-- `Path::components`
unfoldable pub components : Bytes → List Component
components p = if is_absolute p then root_dir ∷ body (split slash p) else front (split slash p)

abbrev pub is_normal : Component → Bool
is_normal (normal name) = true
is_normal _ = false

-- `sanitize_rel`. A `PathBuf` holds the text that it was made from.
unfoldable pub sanitize_rel : Bytes → Result Bytes
sanitize_rel p =
    if p == [] || ltb 1024 (length p) || contains p 0 || contains p b'\\'
    then err (unsafe_path p)
    else if is_absolute p
    then err (unsafe_path p)
    else if all is_normal (components p)
    then ok p
    else err (unsafe_path p)

-- `Path::join` with a relative path, below a root that does not end in a separator.
unfoldable pub join : Bytes → Bytes → Bytes
join root p = root ++ slash ∷ p

abbrev pub pop : List Component → List Component
pop [] = []
pop (root_dir ∷ []) = root_dir ∷ []
pop (c ∷ []) = []
pop (c ∷ d ∷ cs) = c ∷ pop (d ∷ cs)

-- The loop of `normalize` of src/anchor.rs; `out` is the path built so far.
unfoldable pub normalize : List Component → List Component → List Component
normalize out [] = out
normalize out (cur_dir ∷ cs) = normalize out cs
normalize out (parent_dir ∷ cs) = normalize (pop out) cs
normalize out (root_dir ∷ cs) = normalize (root_dir ∷ []) cs
normalize out (normal name ∷ cs) = normalize (out ++ normal name ∷ []) cs

-- The text of a path with these names.
abbrev pub path_of : List Bytes → Bytes
path_of [] = []
path_of (n ∷ []) = n
path_of (n ∷ m ∷ ns) = n ++ slash ∷ path_of (m ∷ ns)

abbrev pub names_in : List Component → List Bytes
names_in [] = []
names_in (normal name ∷ cs) = name ∷ names_in cs
names_in (_ ∷ cs) = names_in cs

-- Where a relative path leads, by its plain names.
unfoldable pub names_of : Bytes → List Bytes
unfolding components
names_of p = names_in (components p)

-- `excluded` of src/snapshot.rs, src/drift.rs and src/revert.rs, by the names of a path.
unfoldable pub excluded : List Bytes → Bool
excluded = any (λ s. s == text ".respawn" || s == text ".git" || s == text ".DS_Store")

-- `.to_string_lossy().replace('\\', "/")` of a relative path with these names.
unfoldable pub rel_str : List Bytes → Bytes
rel_str names = map (λ b. if b == b'\\' then slash else b) (path_of names)

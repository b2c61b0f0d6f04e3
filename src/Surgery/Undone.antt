-- ===== src/Surgery/Undone.antt =====
-- What a chain of manifests says of one path, apart from the loop over all paths: which entry was
-- there before the actor first changed it, and what is the newest work of another.
use respawn.Base.{
  Bytes, Bool, true, false, not, ◌&&◌, Option, none, some, List, [], ◌∷◌, contains, ◌==◌, list_eq,
  nat_eq, option_eq, if◌then◌else◌,
}
use respawn.Base.Dict.{lookup}
use respawn.Drift.{by_path}
use respawn.Manifest.{FileEntry, Manifest}
use respawn.Surgery.{content_of, flatten_entry}

-- The first, or else the second.
abbrev pub first_of {ℓ} : {A : Type ℓ} → Option A → Option A → Option A
first_of (some a) o = some a
first_of none o = o

abbrev pub is_some {ℓ} : {A : Type ℓ} → Option A → Bool
is_some none = false
is_some (some a) = true

abbrev pub is_by : Bytes → Manifest → Bool
is_by actor m = m.actor == some actor

-- The entry before the first snapshot of the actor that has another content at the path than the
-- snapshot before it, `prev` being the entry in the latter.
abbrev pub first_touch :
    Bytes → Bytes → Option FileEntry → List Manifest → Option (Option FileEntry)
first_touch actor p prev [] = none
first_touch actor p prev (m ∷ ms) =
    let later = first_touch actor p (lookup p (by_path m.files)) ms in
    if is_by actor m && not (content_of prev == content_of (lookup p (by_path m.files)))
    then some prev
    else later

-- The last entry of the path whose content the actor never had there.
abbrev pub other_entry : Bytes → List Bytes → List FileEntry → Option FileEntry
other_entry p own [] = none
other_entry p own (fe ∷ fes) =
    first_of (other_entry p own fes)
      (if p == fe.path && not (contains own fe.content) then some fe else none)

abbrev pub add_content : Option Bytes → List Bytes → List Bytes
add_content none own = own
add_content (some h) own = h ∷ own

-- The newest such entry in a snapshot of another; `own` is the contents that the snapshots of the
-- actor before had at the path.
abbrev pub others_work : Bytes → Bytes → List Bytes → List Manifest → Option FileEntry
others_work actor p own [] = none
others_work actor p own (m ∷ ms) =
    let after_own =
      others_work actor p (add_content (content_of (lookup p (by_path m.files))) own) ms in
    let after_other = others_work actor p own ms in
    if is_by actor m then after_own else first_of after_other (other_entry p own m.files)

-- What an undo puts at a path that the actor changed.
abbrev pub undone : Bytes → List Manifest → Bytes → Option FileEntry
undone actor chain p =
    first_of (others_work actor p [] chain) (flatten_entry (first_touch actor p none chain))

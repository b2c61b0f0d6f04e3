-- ===== src/Anchor/Next.antt =====
-- src/anchor.rs: `next`; src/schedule.rs: `default_anchor_dir`, on a system other than macOS.
use respawn.Base.{
  ℕ, zero, suc, Bytes, text, Option, none, some, List, [], ◌∷◌, ◌++◌, contains, take, ◌==◌, nat_eq,
  list_eq, if◌then◌else◌,
}
use respawn.Errors
use respawn.Errors.{Result, ok, err, corrupt}
use respawn.Exec.{Exec, pure, raise, ◌>>=◌}
use respawn.Paths.{Component, normal}
use respawn.Crates.{Crates}
use respawn.Store.{Fabric}
use respawn.Audit.{Json, decimal}
use respawn.Signing.{Ed25519}
use respawn.Anchor.{AnchorJson, create}

-- `home_dir` as a path, by the variable HOME.
abbrev home_dir : Option (List Component) → Result (List Component)
home_dir none = err (corrupt "HOME is not set")
home_dir (some home) = ok home

unfoldable pub default_anchor_dir : Option (List Component) → Bytes → Result (List Component)
default_anchor_dir home id =
    Errors.◌>>=◌ (home_dir home)
      λ base. ok (base ++ normal (text ".respawn-anchors") ∷ normal (take 12 id) ∷ [])

unfoldable pub anchor_name : ℕ → ℕ → Bytes
anchor_name millis n =
    if n == 0
    then text "anchor-" ++ decimal millis ++ text ".json"
    else text "anchor-" ++ decimal millis ++ text "-" ++ decimal n ++ text ".json"

-- The first of so many names from `n` on that is not taken.
unfoldable pub free_name : ℕ → ℕ → ℕ → List Bytes → Option Bytes
unfolding anchor_name
free_name zero millis n taken = none
free_name (suc more) millis n taken =
    let later = free_name more millis (suc n) taken in
    if contains taken (anchor_name millis n) then later else some (anchor_name millis n)

-- `taken` is the names in the directory `dir`, which is resolved.
unfoldable pub next :
    Crates
    → Ed25519
    → Json
    → AnchorJson
    → ℕ
    → List Bytes
    → List Component
    → List Component
    → ℕ
    → Bytes
    → Exec Fabric (Bytes × (Bytes × ℕ))
unfolding free_name
next c d j a millis taken dir fabric now fresh = elim (free_name 1000 millis 0 taken) [
  | none ↦ raise (corrupt "could not allocate a timestamped anchor name")
  | some name ↦ (do
    out ← create c d j a (dir ++ normal name ∷ []) fabric now fresh
    pure (name, out))
]

-- ===== src/Surgery.antt =====
-- src/revert.rs: `surgical_manifest`. A hash map is a dictionary; the touched paths are sorted when
-- they are used.
pub mod Undone
pub mod View
pub mod Trace
pub mod Files
pub mod Kept
use respawn.Base.{
  ℕ, zero, suc, ◌+◌, Bytes, text, Bool, true, false, not, ◌&&◌, ◌||◌, Option, none, some, List, [],
  ◌∷◌, ◌++◌, map, contains, ltb, ◌==◌, list_eq, nat_eq, option_eq, if◌then◌else◌,
}
use respawn.Base.Dict.{Dict, keys, lookup, insert, has}
use respawn.Base.Sort.{sort, sort_with, at_most}
use respawn.Errors.{Result, ok, err, corrupt, refuse_if, ◌>>=◌, ◌>>◌}
use respawn.Crates.{Crates}
use respawn.Store.{Fabric, head}
use respawn.Manifest.{FileEntry, Manifest, ManifestJson, load}
use respawn.Drift.{by_path}

-- What the loop over the chain keeps.
pub record Traced : Type 0 where
  pub touched : List Bytes
  pub pre : Dict Bytes (Option FileEntry)
  pub actor_content : Dict Bytes (List Bytes)
  pub effective : Dict Bytes FileEntry
  pub prev : Dict Bytes FileEntry

abbrev pub nothing_traced : Traced
nothing_traced = record { touched = []; pre = []; actor_content = []; effective = []; prev = [] }

-- `touched.insert` and `pre.entry(p).or_insert_with`.
unfoldable pub touch : Bytes → Traced → Traced
touch p t = record t {
  touched = if contains t.touched p then t.touched else p ∷ t.touched;
  pre = if has p t.pre then t.pre else insert p (lookup p t.prev) t.pre;
}

abbrev pub contents : Option (List Bytes) → List Bytes
contents none = []
contents (some hs) = hs

-- `actor_content.entry(p).or_default().insert`
unfoldable pub note_content : Bytes → Bytes → Traced → Traced
note_content p content t = record t {
  actor_content = insert p (content ∷ contents (lookup p t.actor_content)) t.actor_content;
}

abbrev pub content_of : Option FileEntry → Option Bytes
content_of none = none
content_of (some fe) = some fe.content

-- The loop over the files of a snapshot that the actor made.
unfoldable pub trace_written : Dict Bytes FileEntry → Traced → Traced
unfolding touch note_content
trace_written [] t = t
trace_written ((p, fe) ∷ cur) t = trace_written cur (
    note_content p fe.content
      (if content_of (lookup p t.prev) == some fe.content then t else touch p t))

-- The loop over the paths before it, for those that it removed.
unfoldable pub trace_removed : Dict Bytes FileEntry → List Bytes → Traced → Traced
unfolding touch
trace_removed cur [] t = t
trace_removed cur (p ∷ ps) t = trace_removed cur ps (if has p cur then t else touch p t)

-- The loop over the files of a snapshot that another made.
unfoldable pub trace_other : List FileEntry → Traced → Traced
trace_other [] t = t
trace_other (fe ∷ fes) t = trace_other fes (
    if contains (contents (lookup fe.path t.actor_content)) fe.content
    then t
    else record t { effective = insert fe.path fe t.effective })

unfoldable pub trace_manifest : Bytes → Manifest → Traced → Traced
unfolding trace_written trace_removed trace_other
trace_manifest actor m t =
    let cur = by_path m.files in
    let seen =
      if m.actor == some actor
      then trace_removed cur (keys t.prev) (trace_written cur t)
      else trace_other m.files t in
    record seen { prev = cur }

-- The loop over the chain, oldest first.
unfoldable pub trace : Bytes → List Manifest → Traced → Traced
unfolding trace_manifest
trace actor [] t = t
trace actor (m ∷ ms) t = trace actor ms (trace_manifest actor m t)

abbrev pub flatten_entry : Option (Option FileEntry) → Option FileEntry
flatten_entry none = none
flatten_entry (some o) = o

-- The newest entry that another made, or the one before the first touch.
unfoldable pub resolve_path : Traced → Bytes → Option FileEntry
resolve_path t p = elim (lookup p t.effective) [
  | some fe ↦ some fe
  | none ↦ flatten_entry (lookup p t.pre)
]

abbrev pub push_some : Option FileEntry → List FileEntry → List FileEntry
push_some none fes = fes
push_some (some fe) fes = fe ∷ fes

-- The files of HEAD, the touched ones as they resolve.
unfoldable pub keep_head : Traced → List FileEntry → List FileEntry
unfolding resolve_path
keep_head t [] = []
keep_head t (fe ∷ fes) =
    let rest = keep_head t fes in
    if contains t.touched fe.path then push_some (resolve_path t fe.path) rest else fe ∷ rest

-- The touched paths that HEAD lacks.
unfoldable pub bring_back : Traced → List Bytes → List Bytes → List FileEntry
unfolding resolve_path
bring_back t head_paths [] = []
bring_back t head_paths (p ∷ ps) =
    let rest = bring_back t head_paths ps in
    if contains head_paths p then rest else push_some (resolve_path t p) rest

abbrev pub path_at_most : FileEntry → FileEntry → Bool
path_at_most a b = at_most a.path b.path

unfoldable pub undone_files : Traced → Manifest → List FileEntry
unfolding keep_head bring_back sort
undone_files t m =
    sort_with path_at_most
      (keep_head t m.files ++ bring_back t (map (λ f. f.path) m.files) (sort t.touched))

-- The newest of a chain.
abbrev pub last : List Manifest → Option Manifest
last [] = none
last (m ∷ []) = some m
last (m ∷ n ∷ ms) = last (n ∷ ms)

-- The guard of the source lets so many manifests through.
abbrev pub max_chain : ℕ
max_chain = 2_000_001

-- The result for a chain.
unfoldable pub undo_actor : Bytes → List Manifest → Result (Manifest × List Bytes)
unfolding trace undone_files
undo_actor actor chain =
    let t = trace actor chain nothing_traced in
    elim (last chain) [
      | none ↦ err (corrupt "no HEAD snapshot")
      | some m ↦
          if t.touched == []
          then err (corrupt "no changes by actor in the HEAD chain")
          else ok (
            record m {
              files = undone_files t m;
              message = text "surgical undo of actor '" ++ actor ++ text "'";
            },
            sort t.touched,
          )
    ]

module _ (c : Crates) (j : ManifestJson) where
  -- The walk from HEAD; `newer` is the chain so far, oldest first, and `cap` what the guard leaves.
  unfoldable pub read_chain : ℕ → Option Bytes → List Manifest → Fabric → Result (List Manifest)
  read_chain cap none newer s = ok newer
  read_chain zero (some id) newer s = err (corrupt "manifest chain too long")
  read_chain (suc cap) (some id) newer s = elim (load c j id s) [
    | err e ↦ err e
    | ok m ↦ read_chain cap m.parent (m ∷ newer) s
  ]

  unfoldable pub surgical_within : ℕ → Bytes → Fabric → Result (Manifest × List Bytes)
  unfolding read_chain undo_actor
  surgical_within cap actor s = do
    cur ← head c s
    chain ← read_chain cap cur [] s
    undo_actor actor chain

  unfoldable pub surgical_manifest : Bytes → Fabric → Result (Manifest × List Bytes)
  unfolding surgical_within
  surgical_manifest = surgical_within max_chain

-- ===== src/Revert/Restore.antt =====
-- What the loop over the files does to the worktree, file by file.
use respawn.Base.{
  ℕ, Bytes, Bool, true, false, Option, none, some, [], ◌∷◌, ◌++◌, ◌≡◌, ◌≢◌, refl, ap, sym, ◌∙◌, ◌⊎◌,
  inl, inr, list_eq, nat_eq, arith, Bool-cases, Option-cases,
}
use respawn.Base.Dict.{
  lookup, insert, has, lookup-insert, lookup-insert_self, lookup-insert_ne, has-eq_false,
}
use respawn.Errors
use respawn.Errors.{Result, ok, err, Error, Result-cases}
use respawn.Paths.Contained.{sanitize_rel-eq_ok}
use respawn.Paths.{names_of, sanitize_rel}
use respawn.Crates.{Crates}
use respawn.Store.{Fabric, Zstd}
use respawn.Manifest.{FileEntry}
use respawn.Tree.{Stat, Node, file, symlink, dir, Names, Tree, World}
use respawn.Revert.{
  resolve_dest, restored_stat, create_parents, needs_write, materialize, place, rewrite_file,
  restore_file,
}

keeps_insert :
    (k : Names) (v : Node) (tree : Tree) (names : Names) {node : Node}
    → has k tree ≡ false
    → lookup names tree ≡ some node
    → lookup names (insert k v tree) ≡ some node
keeps_insert k v tree names new h =
    lookup-insert_ne names k v tree
      (λ same. cc (has-eq_false k tree new, ap (λ n. lookup n tree) same))
    ∙ h

inserted_node :
    (k : Names) (tree : Tree) (names : Names) (node : Node)
    → lookup names (insert k dir tree) ≡ some node
    → (lookup names tree ≡ some node) ⊎ (node ≡ dir)
inserted_node k tree names node h = elim (list_eq.dec names k) [
  | yes same ↦ inr (ground (arith, lookup-insert names k dir tree))
  | no other ↦ inl (sym (lookup-insert_ne names k dir tree other) ∙ h)
]

-- Making the parents changes no path that is there.
pub create_parents_keeps :
    (cur rest : Names) (tree : Tree) (names : Names) {node : Node}
    → lookup names tree ≡ some node
    → lookup names (create_parents cur rest tree) ≡ some node
unfolding create_parents
create_parents_keeps cur [] tree names h = h
create_parents_keeps cur (n ∷ []) tree names h = h
create_parents_keeps cur (n ∷ m ∷ ns) tree names {node} h =
    create_parents_keeps (cur ++ n ∷ []) (m ∷ ns) _ names
      (elim (Bool-cases (has (cur ++ n ∷ []) tree)) [
        | inl old ↦ rw old h
        | inr new ↦ rw new (keeps_insert (cur ++ n ∷ []) dir tree names new h)
      ])

-- What it adds are directories.
pub create_parents_adds :
    (cur rest : Names) (tree : Tree) (names : Names) (node : Node)
    → lookup names (create_parents cur rest tree) ≡ some node
    → (lookup names tree ≡ some node) ⊎ (node ≡ dir)
unfolding create_parents
create_parents_adds cur [] tree names node h = inl h
create_parents_adds cur (n ∷ []) tree names node h = inl h
create_parents_adds cur (n ∷ m ∷ ns) tree names node h =
    elim (create_parents_adds (cur ++ n ∷ []) (m ∷ ns) _ names node h) [
      | inr d ↦ inr d
      | inl old ↦ elim (Bool-cases (has (cur ++ n ∷ []) tree)) [
        | inl there ↦ inl (rw there at old)
        | inr new ↦ inserted_node (cur ++ n ∷ []) tree names node (rw new at old)
      ]
    ]

pub resolve_dest-eq_ok :
    (tree : Tree) (rel : Bytes) (dest : Names)
    → resolve_dest tree rel ≡ ok dest
    → dest ≡ names_of rel
unfolding resolve_dest
resolve_dest-eq_ok tree rel dest h = elim (Result-cases (sanitize_rel rel)) [
  | inr (e, p) ↦ absurd (ground arith)
  | inl (q, p) ↦ ground (arith, sanitize_rel-eq_ok rel q p)
]

module _ (c : Crates) (z : Zstd) where
  pub materialize-eq_ok :
      (fe : FileEntry) (s : Fabric) (content : Bytes)
      → materialize c z fe s ≡ ok content
      → c.blake3 content ≡ fe.content
  unfolding materialize
  materialize-eq_ok fe s content h = ground arith

  -- A rename replaces whatever is there, except a directory.
  place-cases :
      (now : ℕ) (dest : Names) (mode : ℕ) (content : Bytes) (w : World)
      → ((e : Error) × (place c z now dest mode content w ≡ (err e, w)))
        ⊎ (place c z now dest mode content w ≡ (
          ok tt,
          record w { tree = insert dest (file content (restored_stat now mode)) w.tree },
        ))
  unfolding place
  place-cases now dest mode content w = elim (Option-cases (lookup dest w.tree)) [
    | inl free ↦ inr (rw (free, place) refl)
    | inr (dir, there) ↦ inl (Errors.io "Is a directory", rw (there, place) refl)
    | inr (file old st, there) ↦ inr (rw (there, place) refl)
    | inr (symlink target, there) ↦ inr (rw (there, place) refl)
  ]

  -- What writing one file comes to: an error and nothing changed, or the whole file in place.
  rewrite_file-cases :
      (now : ℕ) (fe : FileEntry) (dest : Names) (w : World)
      → ((e : Error) × (rewrite_file c z now fe dest w ≡ (err e, w)))
        ⊎ ((content : Bytes) × (stat : Stat) × (rewrite_file c z now fe dest w
              ≡ (ok true, record w { tree = insert dest (file content stat) w.tree }))
            × (c.blake3 content ≡ fe.content))
  unfolding rewrite_file
  rewrite_file-cases now fe dest w = elim (Result-cases (materialize c z fe w.fabric)) [
    | inr (e, p) ↦ inl (e, rw p refl)
    | inl (content, p) ↦ elim (place-cases now dest fe.mode content w) [
      | inl (e, q) ↦ inl (e, rw (p, q) refl)
      | inr q ↦ inr (
        content,
        restored_stat now fe.mode,
        rw (p, q) refl,
        materialize-eq_ok fe w.fabric content p,
      )
    ]
  ]

-- A file of the manifest, whole.
pub record IsFileOf (c : Crates) (fe : FileEntry) (names : Names) (node : Node) : Type 0 where
  pub content : Bytes
  pub stat : Stat
  pub is_file : node ≡ file content stat
  pub hash : c.blake3 content ≡ fe.content
  pub here : names ≡ names_of fe.path

-- What stands at the path of the entry is its file.
abbrev pub IsPlaced : Crates → Tree → FileEntry → Type 0
IsPlaced c tree fe =
    (content : Bytes) × (stat : Stat) × (lookup (names_of fe.path) tree ≡ some (file content stat))
    × (c.blake3 content ≡ fe.content)

-- What one round may do to the world.
pub record IsRound (c : Crates) (fe : FileEntry) (w w' : World) : Type 0 where
  pub fabric : w'.fabric ≡ w.fabric
  pub nodes :
      (names : Names) (node : Node)
      → lookup names w'.tree ≡ some node
      → (lookup names w.tree ≡ some node) ⊎ ((node ≡ dir) ⊎ IsFileOf c fe names node)
  pub keeps :
      (names : Names) (node : Node)
      → names ≢ names_of fe.path
      → lookup names w.tree ≡ some node
      → lookup names w'.tree ≡ some node

module _ (c : Crates) (z : Zstd) where
  IsRound-parents :
      (fe : FileEntry) (w : World) (dest : Names)
      → IsRound c fe w (record w { tree = create_parents [] dest w.tree })
  IsRound-parents fe w dest = record {
    fabric = refl;
    nodes = λ names node h. elim (create_parents_adds [] dest w.tree names node h) [
      | inl old ↦ inl old
      | inr d ↦ inr (inl d)
    ];
    keeps = λ names node ne h. create_parents_keeps [] dest w.tree names h;
  }

  IsRound-insert :
      (fe : FileEntry) (w u : World) (dest : Names) (content : Bytes) (stat : Stat)
      → IsRound c fe w u
      → dest ≡ names_of fe.path
      → c.blake3 content ≡ fe.content
      → IsRound c fe w (record u { tree = insert dest (file content stat) u.tree })
  IsRound-insert fe w u dest content stat r here good = record {
    fabric = r.fabric;
    nodes = λ names node h. elim (list_eq.dec names dest) [
      | yes same ↦ inr (
          inr (record {
            content = content;
            stat = stat;
            is_file = ground (arith, lookup-insert names dest (file content stat) u.tree);
            hash = good;
            here = same ∙ here;
          }))
      | no other ↦
          r.nodes names node
            (sym (lookup-insert_ne names dest (file content stat) u.tree other) ∙ h)
    ];
    keeps = λ names node ne h.
        lookup-insert_ne names dest (file content stat) u.tree (λ e. ne (e ∙ here))
        ∙ r.keeps names node ne h;
  }

  needs_write-eq_false :
      (fe : FileEntry) (o : Option Node)
      → needs_write c z fe o ≡ false
      → (content : Bytes) × (stat : Stat) × (o ≡ some (file content stat))
        × (c.blake3 content ≡ fe.content)
  unfolding needs_write
  needs_write-eq_false fe none h = absurd (cc)
  needs_write-eq_false fe (some dir) h = absurd (cc)
  needs_write-eq_false fe (some (symlink t)) h = absurd (cc)
  needs_write-eq_false fe (some (file content stat)) h = (content, stat, refl, ground arith)

  -- One round, whatever its result; and where it succeeds the file is there.
  pub restore_file-IsRound :
      (now : ℕ) (fe : FileEntry) (w : World)
      → IsRound c fe w (restore_file c z now fe w).1
        × ((b : Bool)
            → (restore_file c z now fe w).0 ≡ ok b
            → IsPlaced c (restore_file c z now fe w).1.tree fe)
  unfolding restore_file
  restore_file-IsRound now fe w = elim (Result-cases (resolve_dest w.tree fe.path)) [
    | inr (e, p) ↦ rw p (
      record { fabric = refl; nodes = λ n o h. inl h; keeps = λ n o ne h. h },
      λ b q. absurd (cc),
    )
    | inl (dest, p) ↦
        let here = resolve_dest-eq_ok w.tree fe.path dest p in
        let u : World = record w { tree = create_parents [] dest w.tree } in
        elim (Bool-cases (needs_write c z fe (lookup dest u.tree))) [
          | inr same ↦
              let (content, stat, there, good) = needs_write-eq_false fe _ same in
              rw (p, same)
                (IsRound-parents fe w dest, λ b q. (content, stat, rw (← here) there, good))
          | inl write ↦ elim (rewrite_file-cases c z now fe dest u) [
            | inl (e, q) ↦ rw (p, write, q) (IsRound-parents fe w dest, λ b r. absurd (cc))
            | inr (content, stat, q, good) ↦
                rw (p, write, q)
                  (
                    IsRound-insert fe w u dest content stat (IsRound-parents fe w dest) here good,
                    λ b r. (
                      content,
                      stat,
                      rw (← here) (lookup-insert_self dest (file content stat) u.tree),
                      good,
                    ),
                  )
          ]
        ]
  ]

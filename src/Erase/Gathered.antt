-- ===== src/Erase/Gathered.antt =====
-- What the loops of a purge over files and chunks collect and remove.
use respawn.Base.{
  suc, Bytes, Bool, true, false, not, ◌&&◌, ◌||◌, List, [], ◌∷◌, ◌++◌, contains, any, ◌==◌, ==_iff,
  list_eq, nat_eq, ◌≡◌, refl, ap, ◌∙◌, ◌⊎◌, inl, inr, arith, Bool-cases,
}
use respawn.Base.Dict.{lookup, has, lookup-erase}
use respawn.Crates.{Crates, hash_hex}
use respawn.Manifest.{FileEntry}
use respawn.Listing.{Entry}
use respawn.Erase.{Found, or_first, add_all, gather_files, gather, Removed, remove_chunks}

contains-append_one :
    (xs : List Bytes) (x y : Bytes) → contains (xs ++ x ∷ []) y ≡ (contains xs y || y == x)
contains-append_one [] x y = ground arith
contains-append_one (z ∷ xs) x y = ground (arith, contains-append_one xs x y)

contains-add_all :
    (xs set : List Bytes) (y : Bytes)
    → contains (add_all xs set) y ≡ (contains set y || contains xs y)
unfolding add_all
contains-add_all [] set y = ground arith
contains-add_all (x ∷ xs) set y = elim (Bool-cases (contains set x)) [
  | inl old ↦ rw old (elim (Bool-cases (y == x)) [
    | inl same ↦
        let one : contains set y ≡ true = ap (contains set) ((==_iff _ _).0 same) ∙ old in
        ground (arith, contains-add_all xs set y)
    | inr other ↦ ground (arith, contains-add_all xs set y)
  ])
  | inr new ↦
      rw new (ground (arith, contains-add_all xs (set ++ x ∷ []) y, contains-append_one set x y))
]

-- A chunk of a file with another path, in one manifest and in all that are listed.
abbrev pub is_in_other_file : Bytes → Bytes → List FileEntry → Bool
is_in_other_file rel ch = any (λ fe. not (fe.path == rel) && contains fe.chunks ch)

abbrev pub is_shared : Bytes → Bytes → List Entry → Bool
is_shared rel ch = any (λ e. is_in_other_file rel ch e.1.files)

gather_files-elsewhere :
    (rel ch : Bytes) (fes : List FileEntry) (found : Found)
    → contains (gather_files rel fes found).referenced_elsewhere ch
      ≡ (contains found.referenced_elsewhere ch || is_in_other_file rel ch fes)
unfolding gather_files
gather_files-elsewhere rel ch [] found = ground arith
gather_files-elsewhere rel ch (fe ∷ fes) found = elim (Bool-cases (fe.path == rel)) [
  | inl same ↦
      rw (gather_files, same)
        (gather_files-elsewhere rel ch fes (record found {
          content = or_first found.content fe.content;
          purge_chunks = add_all fe.chunks found.purge_chunks;
        }))
  | inr other ↦
      rw (gather_files, other)
        (ground (
          arith,
          gather_files-elsewhere rel ch fes (record found {
            referenced_elsewhere = add_all fe.chunks found.referenced_elsewhere;
          }),
          contains-add_all fe.chunks found.referenced_elsewhere ch,
        ))
]

pub gather-elsewhere :
    (rel ch : Bytes) (es : List Entry) (found : Found)
    → contains (gather rel es found).referenced_elsewhere ch
      ≡ (contains found.referenced_elsewhere ch || is_shared rel ch es)
unfolding gather
gather-elsewhere rel ch [] found = ground arith
gather-elsewhere rel ch ((id, m) ∷ es) found =
    let here = gather_files-elsewhere rel ch m.files found in
    elim (Bool-cases (any (λ fe. fe.path == rel) m.files)) [
      | inl hit ↦
          rw (gather, hit)
            (ground (
              arith,
              gather-elsewhere rel ch es (record (gather_files rel m.files found) {
                manifests_touched = suc (gather_files rel m.files found).manifests_touched;
              }),
              here,
            ))
      | inr miss ↦
          rw (gather, miss)
            (ground (arith, gather-elsewhere rel ch es (gather_files rel m.files found), here))
    ]

-- Only objects of chunks that are not needed elsewhere go.
pub remove_chunks-kept :
    (c : Crates) (elsewhere chs : List Bytes) (r : Removed) (k : Bytes)
    → (lookup k (remove_chunks c elsewhere chs r).objects ≡ lookup k r.objects)
      ⊎ ((ch : Bytes) × (k ≡ hash_hex c ch) × (contains elsewhere ch ≡ false))
unfolding remove_chunks
remove_chunks-kept c elsewhere [] r k = inl refl
remove_chunks-kept c elsewhere (ch ∷ chs) r k = elim (Bool-cases (contains elsewhere ch)) [
  | inl shared ↦ rw (remove_chunks, shared) (remove_chunks-kept c elsewhere chs _ k)
  | inr alone ↦ elim (Bool-cases (has (hash_hex c ch) r.objects)) [
    | inr absent ↦ rw (remove_chunks, alone, absent) (remove_chunks-kept c elsewhere chs _ k)
    | inl there ↦ elim (list_eq.dec k (hash_hex c ch)) [
      | yes same ↦ inr (ch, same, alone)
      | no other ↦
          rw (remove_chunks, alone, there)
            (elim (remove_chunks-kept c elsewhere chs _ k) [
              | inl kept ↦ inl (kept ∙ ground (arith, lookup-erase k (hash_hex c ch) r.objects))
              | inr gone ↦ inr gone
            ])
    ]
  ]
]

-- ===== src/Sync.antt =====
-- src/sync.rs: the frames of the wire, the answers of a server, and `pull`. The peer is a
-- parameter: what it answers to a request may depend on every request before. The transport
-- (plain or Noise) delivers the frames as they were sent.
pub mod Frames
pub mod Pulled
use respawn.Base.{
  ℕ, zero, suc, ◌+◌, ◌-◌, ◌*◌, ◌/◌, ◌%◌, Bytes, text, Bool, true, false, not, ◌&&◌, ◌||◌, Option,
  none, some, List, [], ◌∷◌, ◌++◌, map, length, take, drop, contains, ltb, leb, ◌==◌, list_eq,
  nat_eq, if◌then◌else◌, ◌≡◌,
}
use respawn.Base.Dict.{insert, has}
use respawn.Base.Sort.{sort}
use respawn.Errors
use respawn.Errors.{Result, ok, err, sync, refuse_if}
use respawn.Exec.{Exec, pure, raise, reads, lift, modify, ◌>>=◌, ◌>>◌}
use respawn.Crates.{Crates, hash_hex, short}
use respawn.Store.{
  Fabric, Zstd, head, get_object, has_object, put_object_as, get_manifest_bytes, has_manifest,
  put_manifest_as,
}
use respawn.Manifest.{FileEntry, Manifest, ManifestJson, deserialize, validate}

abbrev pub op_get_head : ℕ
op_get_head = 1

abbrev pub op_get_manifest : ℕ
op_get_manifest = 2

abbrev pub op_have : ℕ
op_have = 3

abbrev pub op_get_object : ℕ
op_get_object = 4

abbrev pub max_manifests_per_pull : ℕ
max_manifests_per_pull = 100_000

abbrev pub max_objects_per_pull : ℕ
max_objects_per_pull = 8_000_000

abbrev pub have_batch : ℕ
have_batch = 500_000

-- `to_le_bytes` of a number of `n` bytes, and back.
unfoldable pub to_le_bytes : ℕ → ℕ → Bytes
to_le_bytes zero x = []
to_le_bytes (suc n) x = x % 256 ∷ to_le_bytes n (x / 256)

unfoldable pub from_le_bytes : Bytes → ℕ
from_le_bytes [] = 0
from_le_bytes (b ∷ bs) = b + 256 * from_le_bytes bs

unfoldable pub read_u64 : Bytes → Result ℕ
read_u64 frame =
    if ltb (length frame) 8 then err (sync "short frame") else ok (from_le_bytes (take 8 frame))

unfoldable pub frame_payload : Bytes → Result Bytes
unfolding read_u64
frame_payload frame = Errors.◌>>=◌ (read_u64 frame) λ len.
    if len == 0
    then ok []
    else if ltb (length frame - 8) len
    then err (sync "truncated frame payload")
    else ok (take len (drop 8 frame))

-- The answer with a length in front.
abbrev pub framed : Bytes → Bytes
framed content = to_le_bytes 8 (length content) ++ content

module _ (c : Crates) (z : Zstd) where
  abbrev pub head_frame : Option Bytes → Bytes
  head_frame none = 0 ∷ []
  head_frame (some h) = 1 ∷ h

  -- The loop of `HAVE` over `n` hashes.
  unfoldable pub have_flags : ℕ → Bytes → Fabric → Bytes
  have_flags zero hashes s = []
  have_flags (suc n) hashes s =
      (if has_object c (take 32 hashes) s then 1 else 0) ∷ have_flags n (drop 32 hashes) s

  abbrev pub or_empty : Result Bytes → Bytes
  or_empty (ok b) = b
  or_empty (err e) = []

  unfoldable pub respond_frame : Bytes → Fabric → Result Bytes
  unfolding have_flags
  respond_frame [] s = err (sync "unknown opcode")
  respond_frame (op ∷ body) s =
      if op == op_get_head
      then (Errors.◌>>=◌ (head c s) λ h. ok (head_frame h))
      else if op == op_get_manifest && length body == 32
      then (if has_manifest c body s
          then (Errors.◌>>=◌ (get_manifest_bytes c body s) λ content. ok (framed content))
          else ok (framed []))
      else if op == op_have && leb 4 (length body)
      then (let n = from_le_bytes (take 4 body) in
          if length body == 4 + n * 32
          then ok (have_flags n (drop 4 body) s)
          else err (sync "malformed HAVE"))
      else if op == op_get_object && length body == 32
      then ok (framed (or_empty (get_object c z body s)))
      else err (sync "unknown opcode")

-- A session: the local fabric, and the requests sent so far, the latest first.
pub record Session : Type 0 where
  pub fabric : Fabric
  pub sent : List Bytes

-- What the peer answers: the requests before, the request, and a frame or a failed connection.
abbrev pub Peer : Type 0
Peer = List Bytes → Bytes → Result Bytes

-- `write_frame` of the request and `read_frame` of the answer.
unfoldable pub ask : Peer → Bytes → Exec Session Bytes
ask peer request s = (peer s.sent request, record s { sent = request ∷ s.sent })

-- An operation of the local store.
abbrev pub on_fabric : Exec Fabric (Unit {0}) → Exec Session (Unit {0})
on_fabric m s = let (r, t) = m s.fabric in (r, record s { fabric = t })

pub record PullReport : Type 0 where
  pub remote_head : Option Bytes
  pub manifests_fetched : ℕ
  pub objects_fetched : ℕ
  pub objects_skipped : ℕ

abbrev pub chunks_of : List FileEntry → List Bytes
chunks_of [] = []
chunks_of (fe ∷ fes) = fe.chunks ++ chunks_of fes

-- `dedup` of a sorted vector.
unfoldable pub dedup : List Bytes → List Bytes
dedup [] = []
dedup (x ∷ []) = x ∷ []
dedup (x ∷ y ∷ ys) = let rest = dedup (y ∷ ys) in if x == y then rest else x ∷ rest

-- `chunks(n)` of a slice, of at most `fuel` batches; the length of the slice is fuel enough.
unfoldable pub batches {ℓ} : {A : Type ℓ} → ℕ → ℕ → List A → List (List A)
batches zero n xs = []
batches (suc fuel) n [] = []
batches (suc fuel) n (x ∷ xs) = take n (x ∷ xs) ∷ batches fuel n (drop n (x ∷ xs))

abbrev pub concat_all : List Bytes → Bytes
concat_all [] = []
concat_all (b ∷ bs) = b ++ concat_all bs

module _ (c : Crates) (z : Zstd) (j : ManifestJson) (peer : Peer) where
  -- One manifest, fetched, stored and validated.
  unfoldable pub fetch_manifest : Bytes → Exec Session Manifest
  unfolding ask frame_payload
  fetch_manifest cur = do
    resp ← ask peer (op_get_manifest ∷ cur)
    content ← lift (frame_payload resp)
    lift (refuse_if (content == []) (sync "remote missing manifest"))
    on_fabric (put_manifest_as c cur content)
    m ← lift (deserialize j content)
    lift (validate m)
    pure m

  -- The walk of the remote chain; the count of manifests and the objects that they need. `fuel` is
  -- what the cap leaves: the source's own bound on the loop.
  unfoldable pub walk_chain :
      ℕ → Bytes → List Bytes → ℕ → List Bytes → Exec Session (ℕ × List Bytes)
  unfolding fetch_manifest
  walk_chain zero cur visited fetched needed s =
      if has_manifest c cur s.fabric
      then (ok (fetched, needed), s)
      else if contains visited cur
      then (err (sync "manifest chain cycle"), s)
      else (err (sync "manifest chain too long"), s)
  walk_chain (suc fuel) cur visited fetched needed s =
      if has_manifest c cur s.fabric
      then (ok (fetched, needed), s)
      else if contains visited cur
      then (err (sync "manifest chain cycle"), s)
      else (let (r, t) = fetch_manifest cur s in
          elim r [
            | err e ↦ (err e, t)
            | ok m ↦
                let more = needed ++ chunks_of m.files in
                if ltb max_objects_per_pull (length more)
                then (err (sync "pull exceeds object cap"), t)
                else elim m.parent [
                  | none ↦ (ok (suc fetched, more), t)
                  | some p ↦ walk_chain fuel p (cur ∷ visited) (suc fetched) more t
                ]
          ])

  -- One object of a batch, by the peer's flag for it; whether it was fetched.
  unfoldable pub fetch_object : ℕ → Bytes → Exec Session Bool
  unfolding ask frame_payload
  fetch_object flag h = do
    wanted ← reads (λ s. ok (flag == 1 && not (has_object c h s.fabric)))
    if not wanted then pure false else do
      resp ← ask peer (op_get_object ∷ h)
      content ← lift (frame_payload resp)
      lift (refuse_if (content == []) (sync "remote missing object"))
      on_fabric (put_object_as c z h content)
      pure true

  abbrev pub count_object : Bool → ℕ × ℕ → ℕ × ℕ
  count_object true (fetched, skipped) = (suc fetched, skipped)
  count_object false (fetched, skipped) = (fetched, suc skipped)

  -- The loop over a batch and the flags for it.
  unfoldable pub fetch_batch : List Bytes → Bytes → ℕ × ℕ → Exec Session (ℕ × ℕ)
  unfolding fetch_object
  fetch_batch [] flags counts = pure counts
  fetch_batch (h ∷ hs) [] counts = pure counts
  fetch_batch (h ∷ hs) (flag ∷ flags) counts = do
    got ← fetch_object flag h
    fetch_batch hs flags (count_object got counts)

  unfoldable pub fetch_batches : List (List Bytes) → ℕ × ℕ → Exec Session (ℕ × ℕ)
  unfolding fetch_batch ask
  fetch_batches [] counts = pure counts
  fetch_batches (batch ∷ rest) counts = do
    have ← ask peer (op_have ∷ to_le_bytes 4 (length batch) ++ concat_all batch)
    lift (refuse_if (not (length have == length batch)) (sync "HAVE response truncated"))
    counted ← fetch_batch batch have counts
    fetch_batches rest counted

  abbrev sanitize_char : ℕ → ℕ
  sanitize_char b =
      if (leb b'0' b && leb b b'9')
        || (leb b'a' b && leb b b'z')
        || (leb b'A' b && leb b b'Z')
        || b == b'.'
        || b == b'-'
      then b
      else b'_'

  -- `sanitize`, the name of the file for a peer; of an address in ASCII.
  unfoldable pub sanitize : Bytes → Bytes
  sanitize = map sanitize_char

  abbrev pub nothing_pulled : PullReport
  nothing_pulled = record {
    remote_head = none;
    manifests_fetched = 0;
    objects_fetched = 0;
    objects_skipped = 0;
  }

  -- The file of the peer under `remotes`.
  abbrev pub note_remote : Bytes → Bytes → Session → Session
  note_remote addr remote s = record s {
    fabric = record s.fabric {
      remotes = insert (sanitize addr) (hash_hex c remote) s.fabric.remotes;
    };
  }

  -- What `pull` does once the remote head is known; `cap` bounds the chain, `size` a request.
  unfoldable pub pull_head : ℕ → ℕ → Bytes → Bytes → Exec Session PullReport
  unfolding walk_chain fetch_batches sanitize dedup batches
  pull_head cap size addr remote = do
    walked ← walk_chain cap remote [] 0 []
    counts ←
        let needed = dedup (sort walked.1) in
        fetch_batches (batches (length needed) size needed) (0, 0)
    modify (note_remote addr remote)
    pure (record {
      remote_head = some remote;
      manifests_fetched = walked.0;
      objects_fetched = counts.0;
      objects_skipped = counts.1;
    })

  -- By the answer about the remote head.
  unfoldable pub pull_answered : ℕ → ℕ → Bytes → Bytes → Exec Session PullReport
  unfolding pull_head
  pull_answered cap size addr [] = raise (sync "malformed HEAD response")
  pull_answered cap size addr (flag ∷ remote) =
      if length remote == 32 && flag == 1
      then pull_head cap size addr remote
      else if flag == 0
      then pure nothing_pulled
      else raise (sync "malformed HEAD response")

  unfoldable pub pull_within : ℕ → ℕ → Bytes → Exec Session PullReport
  unfolding pull_answered ask
  pull_within cap size addr = do
    resp ← ask peer (op_get_head ∷ [])
    pull_answered cap size addr resp

  unfoldable pub pull : Bytes → Exec Session PullReport
  unfolding pull_within
  pull = pull_within max_manifests_per_pull have_batch

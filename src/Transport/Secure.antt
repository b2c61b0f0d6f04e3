-- ===== src/Transport/Secure.antt =====
-- src/secure.rs: the handshake and `SecureStream`. The Noise implementation is a parameter: its
-- handshake, and a transport state that seals and opens one message after the other.
pub mod Sealed
use respawn.Base.{
  ℕ, zero, suc, ◌+◌, ◌-◌, ◌*◌, ◌≤◌, ◌<◌, Bytes, not, ◌||◌, Option, none, some, List, [], ◌∷◌, ◌++◌,
  length, take, drop, ltb, leb, ◌==◌, nat_eq, if◌then◌else◌, ◌≡◌,
}
use respawn.Errors.{Result, ok, err, sync, refuse_if}
use respawn.Exec.{Exec, pure, raise, lift, ◌>>=◌, ◌>>◌}
use respawn.Sync.{to_le_bytes, from_le_bytes, batches}
use respawn.Transport.{
  Wire, read_exact, write_all, write_msg, read_msg, max_frame, plaintext_msg, max_hs_msg,
  proto_magic, proto_version, mode_noise,
}

-- `snow`: the two sides of the handshake over a key, and a transport state `T`. `I` is the state of
-- the initiator between its message and the answer.
pub record Noise (I T : Type 0) : Type 0 where
  pub initiate : Bytes → Option (Bytes × I)
  pub finish : I → Bytes → Option T
  pub answer : Bytes → Bytes → Option (Bytes × T)
  pub seal : Bytes → T → Option (Bytes × T)
  pub unseal : Bytes → T → Option (Bytes × T)

pub record SecureStream (T : Type 0) : Type 0 where
  pub stream : Wire
  pub transport : T

module _ {I T : Type 0} (noise : Noise I T) where
  abbrev pub or_sync {ℓ} : {A : Type ℓ} → Option A → Result A
  or_sync none = err (sync "noise")
  or_sync (some a) = ok a

  unfoldable pub hs_initiator : Bytes → Exec Wire T
  hs_initiator psk = do
    first ← lift (or_sync (noise.initiate psk))
    write_msg first.0
    reply ← read_msg max_hs_msg
    lift (or_sync (noise.finish first.1 reply))

  unfoldable pub hs_responder : Bytes → Exec Wire T
  hs_responder psk = do
    first ← read_msg max_hs_msg
    reply ← lift (or_sync (noise.answer psk first))
    write_msg reply.0
    pure reply.1

  unfoldable pub connect : Bytes → Exec Wire T
  connect psk = do
    write_all proto_magic
    write_all (proto_version ∷ mode_noise ∷ [])
    hs_initiator psk

  -- An action on the connection below.
  abbrev pub on_stream : {A : Type 0} → Exec Wire A → Exec (SecureStream T) A
  on_stream m s = let (r, w) = m s.stream in (r, record s { stream = w })

  -- A message sealed, and one that is received and opened.
  unfoldable pub write_sealed : Bytes → Exec (SecureStream T) (Unit {0})
  write_sealed content s = elim (noise.seal content s.transport) [
    | none ↦ (err (sync "noise encrypt"), s)
    | some (packed, t) ↦ on_stream (write_msg packed) (record s { transport = t })
  ]

  abbrev pub opened : Bytes → Exec (SecureStream T) Bytes
  opened packed s = elim (noise.unseal packed s.transport) [
    | none ↦ (err (sync "noise decrypt"), s)
    | some (content, t) ↦ (ok content, record s { transport = t })
  ]

  unfoldable pub read_sealed : Exec (SecureStream T) Bytes
  read_sealed = do packed ← on_stream (read_msg (plaintext_msg + 64)); opened packed

  -- The loop of `read_frame`, which appends to `out`; `app_len` is fuel enough.
  unfoldable pub read_rest : ℕ → ℕ → Bytes → Exec (SecureStream T) Bytes
  read_rest zero app_len out = pure out
  read_rest (suc fuel) app_len out =
      let more = read_rest fuel app_len in
      if not (ltb (length out) app_len) then pure out else do
        content ← read_sealed
        lift (refuse_if (ltb app_len (length out + length content)) (sync "noise frame overflow"))
        lift (refuse_if (length content == 0) (sync "noise frame stalled"))
        more (out ++ content)

  unfoldable pub read_frame : Exec (SecureStream T) Bytes
  read_frame = do
    header ← read_sealed
    lift (refuse_if (not (length header == 4)) (sync "noise frame header malformed"))
    lift (refuse_if (ltb max_frame (from_le_bytes header)) (sync "frame too large"))
    read_rest (from_le_bytes header) (from_le_bytes header) []

  unfoldable pub write_chunks : List Bytes → Exec (SecureStream T) (Unit {0})
  write_chunks [] = pure tt
  write_chunks (chunk ∷ chunks) = do write_sealed chunk; write_chunks chunks

  unfoldable pub write_frame : Bytes → Exec (SecureStream T) (Unit {0})
  write_frame payload = do
    lift (refuse_if (ltb max_frame (length payload)) (sync "frame too large"))
    write_sealed (to_le_bytes 4 (length payload))
    write_chunks (batches (length payload) plaintext_msg payload)

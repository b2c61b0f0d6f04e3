-- ===== src/Serve.antt =====
-- src/sync.rs: `serve_conn`, one connection to a server.
pub mod Floor
pub mod Answered
use respawn.Base.{
  ℕ, zero, suc, ◌+◌, ◌*◌, Bytes, Bool, not, ◌||◌, Option, none, some, [], ◌∷◌, length, ltb, ◌==◌,
  nat_eq, list_eq, if◌then◌else◌,
}
use respawn.Errors.{Result, ok, err, sync, refuse_if}
use respawn.Exec.{Exec, pure, raise, lift, ◌>>=◌, ◌>>◌}
use respawn.Crates.{Crates}
use respawn.Store.{Fabric, Zstd}
use respawn.Sync.{from_le_bytes, respond_frame}
use respawn.Transport.{Wire, read_exact, proto_magic, proto_version, mode_noise, max_frame}
use respawn.Transport.Plain
use respawn.Transport.Secure
use respawn.Transport.Secure.{Noise, SecureStream, hs_responder}

-- `FrameIo`: how frames are read and written over a connection of state `S`.
pub record FrameIo (S : Type 0) : Type 0 where
  pub read_frame : Exec S Bytes
  pub write_frame : Bytes → Exec S (Unit {0})

abbrev pub plain : FrameIo Wire
plain = record { read_frame = Plain.read_frame; write_frame = Plain.write_frame }

abbrev pub secure : {I T : Type 0} → Noise I T → FrameIo (SecureStream T)
secure noise = record {
  read_frame = Secure.read_frame noise;
  write_frame = Secure.write_frame noise;
}

module _ (c : Crates) (z : Zstd) (fabric : Fabric) where
  unfoldable pub respond : {S : Type 0} → FrameIo S → Bytes → Exec S (Unit {0})
  respond frames request s = elim (respond_frame c z request fabric) [
    | err e ↦ (err e, s)
    | ok answer ↦ frames.write_frame answer s
  ]

  -- The loop over requests, of at most `fuel` rounds; the number of bytes that the peer sends is
  -- fuel enough.
  unfoldable pub serve_frames : {S : Type 0} → FrameIo S → ℕ → Exec S (Unit {0})
  serve_frames frames zero s = (ok tt, s)
  serve_frames frames (suc fuel) s =
      let more = serve_frames frames fuel in
      let (r, t) = frames.read_frame s in
      elim r [
        | err e ↦ (ok tt, t)
        | ok request ↦
            if request == []
            then (ok tt, t)
            else (let (answered, u) = respond frames request t in
                elim answered [ err e ↦ (ok tt, u) | ok done ↦ more u ])
      ]

  module _ {I T : Type 0} (noise : Noise I T) where
    -- The requests of a client that finished the handshake.
    unfoldable pub serve_secure : Bytes → Exec Wire (Unit {0})
    serve_secure key s =
        let (accepted, w) = hs_responder noise key s in
        elim accepted [
          | err e ↦ (err e, w)
          | ok t ↦
              let (r, left) =
                serve_frames (secure noise) (length w.incoming)
                  (record { stream = w; transport = t }) in
              (r, left.stream)
        ]

    -- The requests of a client without a selector: `magic` is the length of the first.
    unfoldable pub serve_plain : Bytes → Exec Wire (Unit {0})
    serve_plain magic = do
      lift (
          refuse_if (from_le_bytes magic == 0 || ltb max_frame (from_le_bytes magic))
            (sync "first frame length invalid"))
      first ← read_exact (from_le_bytes magic)
      respond plain first
      λ s. serve_frames plain (length s.incoming) s

    -- A client that sent the selector, by the key of the listener.
    abbrev pub with_key : Option Bytes → Exec Wire (Unit {0})
    with_key none = raise (sync "secured connection to an unsecured listener")
    with_key (some key) = serve_secure key

    abbrev pub selected : Option Bytes → Exec Wire (Unit {0})
    selected psk = do
      vm ← read_exact 2
      lift (
          refuse_if (not (vm == proto_version ∷ mode_noise ∷ []))
            (sync "unsupported protocol selector"))
      with_key psk

    abbrev pub unselected : Bytes → Option Bytes → Exec Wire (Unit {0})
    unselected magic none = serve_plain magic
    unselected magic (some key) = raise (sync "plaintext connection to a --psk listener")

    unfoldable pub serve_conn : Option Bytes → Exec Wire (Unit {0})
    serve_conn psk = do
      magic ← read_exact 4
      if magic == proto_magic then selected psk else unselected magic psk

-- ===== src/Transport.antt =====
-- src/secure.rs: the frames on a connection, plain or over Noise. A connection is the bytes still to
-- be received and the bytes sent so far; when the first run out, the peer has closed it. The Noise
-- implementation (the crate snow) is a parameter.
pub mod Reading
pub mod Plain
pub mod Secure
use respawn.Base.{
  ℕ, zero, suc, ◌+◌, ◌-◌, ◌*◌, ◌≤◌, ◌<◌, Bytes, text, Bool, not, ◌||◌, Option, none, some, List, [],
  ◌∷◌, ◌++◌, length, take, drop, ltb, leb, ◌==◌, nat_eq, if◌then◌else◌, ◌≡◌,
}
use respawn.Errors.{Result, ok, err, sync, io, refuse_if}
use respawn.Exec.{Exec, pure, raise, lift, ◌>>=◌, ◌>>◌}
use respawn.Sync.{to_le_bytes, from_le_bytes}

pub record Wire : Type 0 where
  pub incoming : Bytes
  pub outgoing : Bytes

unfoldable pub read_exact : ℕ → Exec Wire Bytes
read_exact n s =
    if ltb (length s.incoming) n
    then (err (io "failed to fill whole buffer"), record s { incoming = [] })
    else (ok (take n s.incoming), record s { incoming = drop n s.incoming })

unfoldable pub write_all : Bytes → Exec Wire (Unit {0})
write_all content s = (ok tt, record s { outgoing = s.outgoing ++ content })

abbrev pub proto_magic : Bytes
proto_magic = text "SFAB"

abbrev pub proto_version : ℕ
proto_version = 2

abbrev pub mode_noise : ℕ
mode_noise = 1

abbrev pub plaintext_msg : ℕ
plaintext_msg = 48 * 1024

abbrev pub max_hs_msg : ℕ
max_hs_msg = 1024

abbrev pub max_frame : ℕ
max_frame = 64 * 1024 * 1024

unfoldable pub write_msg : Bytes → Exec Wire (Unit {0})
write_msg content = do
  lift (refuse_if (ltb (plaintext_msg + 64) (length content)) (sync "noise message oversized"))
  write_all (to_le_bytes 4 (length content))
  write_all content

unfoldable pub read_msg : ℕ → Exec Wire Bytes
read_msg cap = do
  len_buf ← read_exact 4
  lift (
      refuse_if (from_le_bytes len_buf == 0 || ltb cap (from_le_bytes len_buf))
        (sync "noise message length invalid"))
  read_exact (from_le_bytes len_buf)

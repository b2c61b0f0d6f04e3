-- ===== src/Transport/Reading.antt =====
-- What was written is what is read, byte for byte.
use mathlib.Core.List.{append_assoc}
use respawn.Base.{
  ℕ, ◌+◌, ◌^◌, ◌≤◌, ◌<◌, Bytes, false, ◌++◌, length, ltb, ◌==◌, nat_eq, ◌≡◌, refl, ap, arith,
  le→ltb_false, take-append, drop-append, length-append,
}
use respawn.Errors.{ok}
use respawn.Sync.{to_le_bytes, from_le_bytes}
use respawn.Sync.Frames.{from_le_bytes-to_le_bytes, length-to_le_bytes}
use respawn.Transport.{Wire, read_exact, write_all, write_msg, read_msg, plaintext_msg}

-- The connection with these bytes still to be received.
abbrev pub receiving : Bytes → Wire → Wire
receiving b s = record s { incoming = b }

abbrev pub sending : Bytes → Wire → Wire
sending b s = record s { outgoing = s.outgoing ++ b }

pub read_exact-append :
    (front rest : Bytes) (n : ℕ) (s : Wire)
    → length front ≡ n
    → read_exact n (receiving (front ++ rest) s) ≡ (ok front, receiving rest s)
unfolding read_exact
read_exact-append front rest n s e =
    let long : ltb (length (front ++ rest)) n ≡ false =
      le→ltb_false _ _ (omega (arith, length-append front rest)) in
    rw (← e) (rw ((rw (← e) at long), take-append front rest, drop-append front rest) refl)

-- A message with its length in front.
abbrev pub message : Bytes → Bytes
message content = to_le_bytes 4 (length content) ++ content

pub write_msg-eq :
    (content : Bytes) (s : Wire)
    → length content ≤ plaintext_msg + 64
    → write_msg content s ≡ (ok tt, sending (message content) s)
unfolding write_msg write_all
write_msg-eq content s h = rw (le→ltb_false (plaintext_msg + 64) (length content) h) (
    ap (λ o. (ok tt, record s { outgoing = o }))
      (append_assoc s.outgoing (to_le_bytes 4 (length content)) content))

pub read_msg-eq :
    (cap : ℕ) (content rest : Bytes) (s : Wire)
    → 0 < length content
    → length content ≤ cap
    → length content < 256 ^ 4
    → read_msg cap (receiving (message content ++ rest) s) ≡ (ok content, receiving rest s)
unfolding read_msg
read_msg-eq cap content rest s some_bytes small fits =
    let front = to_le_bytes 4 (length content) in
    let is_count : from_le_bytes front ≡ length content =
      from_le_bytes-to_le_bytes 4 (length content) fits in
    let is_some : (length content == 0) ≡ false = ground arith in
    let is_small : ltb cap (length content) ≡ false = le→ltb_false cap (length content) small in
    rw
      (
        append_assoc front content rest,
        read_exact-append front (content ++ rest) 4 s (length-to_le_bytes 4 (length content)),
        is_count,
        is_some,
        is_small,
      )
      (read_exact-append content rest (length content) s refl)

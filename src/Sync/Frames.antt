-- ===== src/Sync/Frames.antt =====
-- Frames with a length in front read back.
use respawn.Base.{
  ℕ, zero, suc, ◌+◌, ◌-◌, ◌/◌, ◌^◌, ◌<◌, Bytes, false, [], ◌∷◌, ◌++◌, length, length-append, take,
  drop, take-append, drop-append, take_of_le, ltb, ◌==◌, nat_eq, ◌≡◌, refl, ap, ◌∙◌, arith,
  le→ltb_false,
}
use mathlib.Core.Path.{subst}
use respawn.Errors.{ok}
use respawn.Sync.{to_le_bytes, from_le_bytes, read_u64, frame_payload, framed}

pub length-to_le_bytes : (n x : ℕ) → length (to_le_bytes n x) ≡ n
unfolding to_le_bytes
length-to_le_bytes zero x = refl
length-to_le_bytes (suc n) x = ap suc (length-to_le_bytes n (x / 256))

-- A number that fits in `n` bytes is read as it was written.
pub from_le_bytes-to_le_bytes : (n x : ℕ) → x < 256 ^ n → from_le_bytes (to_le_bytes n x) ≡ x
unfolding to_le_bytes from_le_bytes
from_le_bytes-to_le_bytes zero x h = omega arith
from_le_bytes-to_le_bytes (suc n) x h =
    let small : x / 256 < 256 ^ n = omega arith in
    let rest = from_le_bytes-to_le_bytes n (x / 256) small in rw rest (omega arith)

-- What a server sends with its length in front is the payload that the client takes out, for
-- content of fewer than 2^64 bytes.
pub frame_payload-framed :
    (content : Bytes) → length content < 256 ^ 8 → frame_payload (framed content) ≡ ok content
unfolding frame_payload read_u64
frame_payload-framed content small =
    let front = to_le_bytes 8 (length content) in
    let eight : length front ≡ 8 = length-to_le_bytes 8 (length content) in
    let all : length (front ++ content) ≡ 8 + length content =
      omega (arith, length-append front content) in
    let long : ltb (length (front ++ content)) 8 ≡ false = le→ltb_false _ _ (omega arith) in
    let head : take 8 (front ++ content) ≡ front =
      subst (λ n. take n (front ++ content) ≡ front) eight (take-append front content) in
    let tail : drop 8 (front ++ content) ≡ content =
      subst (λ n. drop n (front ++ content) ≡ content) eight (drop-append front content) in
    let count : from_le_bytes (take 8 (front ++ content)) ≡ length content =
      ap from_le_bytes head ∙ from_le_bytes-to_le_bytes 8 (length content) small in
    payload_parts (front ++ content) content long count tail (omega arith)
  where
    payload_parts :
        (frame content : Bytes)
        → ltb (length frame) 8 ≡ false
        → from_le_bytes (take 8 frame) ≡ length content
        → drop 8 frame ≡ content
        → length frame ≡ 8 + length content
        → frame_payload frame ≡ ok content
    payload_parts frame [] long count tail size = rw (long, count) (ground arith)
    payload_parts frame (b ∷ bs) long count tail size =
        let some_bytes : (length (b ∷ bs) == 0) ≡ false = ground arith in
        rw
          (
            long,
            count,
            some_bytes,
            le→ltb_false (length frame - 8) (length (b ∷ bs)) (omega arith),
            tail,
          )
          (ap ok (take_of_le (length (b ∷ bs)) (b ∷ bs) (omega arith)))

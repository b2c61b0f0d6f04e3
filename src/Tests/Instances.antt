-- ===== src/Tests/Instances.antt =====
-- Small functions that meet what the development assumes of the third-party crates: BLAKE3 is cut
-- or filled to 32 bytes, hex is hex, zstd does not compress, and JSON is lists with lengths.
use respawn.Base.{
  ℕ, zero, suc, ◌+◌, ◌-◌, ◌*◌, ◌/◌, ◌%◌, ◌<◌, Bytes, ◌≡◌, refl, ◌∙◌, ap, sym, true, false, ◌&&◌,
  Option, none, some, [], ◌∷◌, ◌++◌, map, length, take, drop, take-append, drop-append, arith, ltb,
  leb, ◌==◌, nat_eq, if◌then◌else◌, all, contains,
}
use mathlib.Core.Option.{some-injective}
use respawn.Lines.{newline, is_blank}
use respawn.Crates
use respawn.Crates.{Crates, IsHash, IsBytes, is_lower_hex}
use respawn.Store
use respawn.Store.{Zstd}
use respawn.Audit
use respawn.Audit.{AuditEntry, Body, Json, IsWritten}

digit : ℕ → ℕ
digit n = if ltb n 10 then 48 + n else 87 + n

undigit : ℕ → Option ℕ
undigit d =
    if leb 48 d && leb d 57
    then some (d - 48)
    else if leb 97 d && leb d 102
    then some (d - 87)
    else none

hex_encode : Bytes → Bytes
hex_encode [] = []
hex_encode (b ∷ bs) = digit (b / 16 % 16) ∷ digit (b % 16) ∷ hex_encode bs

pair_up : Option ℕ → Option ℕ → Option Bytes → Option Bytes
pair_up (some h) (some l) (some bs) = some ((h * 16 + l) ∷ bs)
pair_up _ _ _ = none

hex_decode : Bytes → Option Bytes
hex_decode [] = some []
hex_decode (x ∷ []) = none
hex_decode (x ∷ y ∷ r) = pair_up (undigit x) (undigit y) (hex_decode r)

undigit-digit : (n : ℕ) → n < 16 → undigit (digit n) ≡ some n
unfolding undigit digit
undigit-digit n h = ground arith

digit_is_hex : (n : ℕ) → n < 16 → is_lower_hex (digit n) ≡ true
unfolding digit
digit_is_hex n h = ground arith

hex_decode-hex_encode : (b : Bytes) → IsBytes b → hex_decode (hex_encode b) ≡ some b
unfolding hex_decode hex_encode pair_up
hex_decode-hex_encode [] h = refl
hex_decode-hex_encode (b ∷ bs) h =
    rw
      (
        undigit-digit (b / 16 % 16) (omega arith),
        undigit-digit (b % 16) (omega arith),
        hex_decode-hex_encode bs h.1,
      )
      (ap (λ n. some (n ∷ bs)) (omega arith))

length-hex_encode : (b : Bytes) → length (hex_encode b) ≡ 2 * length b
unfolding hex_encode
length-hex_encode [] = refl
length-hex_encode (b ∷ bs) = omega (arith, length-hex_encode bs)

hex_encode_digits : (b : Bytes) → IsBytes b → all is_lower_hex (hex_encode b) ≡ true
unfolding hex_encode
hex_encode_digits [] h = refl
hex_encode_digits (b ∷ bs) h =
    rw (digit_is_hex (b / 16 % 16) (omega arith), digit_is_hex (b % 16) (omega arith))
      (hex_encode_digits bs h.1)

unfoldable pub fill : ℕ → Bytes → Bytes
fill zero b = []
fill (suc n) [] = 0 ∷ fill n []
fill (suc n) (x ∷ b) = x % 256 ∷ fill n b

pub fill-IsBytes : (n : ℕ) (b : Bytes) → IsBytes (fill n b)
unfolding fill
fill-IsBytes zero b = tt
fill-IsBytes (suc n) [] = (omega arith, fill-IsBytes n [])
fill-IsBytes (suc n) (x ∷ b) = (omega arith, fill-IsBytes n b)

pub length-fill : (n : ℕ) (b : Bytes) → length (fill n b) ≡ n
unfolding fill
length-fill zero b = refl
length-fill (suc n) [] = omega (arith, length-fill n [])
length-fill (suc n) (x ∷ b) = omega (arith, length-fill n b)

unfoldable pub crates : Crates
unfolding fill hex_encode hex_decode digit undigit pair_up
crates = record { blake3 = fill 32; hex_encode = hex_encode; hex_decode = hex_decode }

pub crates-IsLawful : Crates.IsLawful crates
unfolding crates
crates-IsLawful = record {
  blake3-IsHash = λ b. record { bytes = fill-IsBytes 32 b; size = length-fill 32 b };
  decode-encode = hex_decode-hex_encode;
  length-encode = length-hex_encode;
  encode_digits = hex_encode_digits;
}

unfoldable pub zstd : Zstd
zstd = record { encode_all = some; read_decoded = λ n b. some (take n b) }

pub zstd-IsLawful : Store.IsLawful zstd
unfolding zstd
zstd-IsLawful = record { read-encode = λ b p n e. ground arith }

unfoldable pub pack : Bytes → Bytes → Bytes
pack xs rest = length xs ∷ xs ++ rest

unfoldable pub first : Bytes → Bytes
first [] = []
first (n ∷ l) = take n l

unfoldable pub rest : Bytes → Bytes
rest [] = []
rest (n ∷ l) = drop n l

pub first-pack : (xs ys : Bytes) → first (pack xs ys) ≡ xs
unfolding first pack
first-pack xs ys = take-append xs ys

pub rest-pack : (xs ys : Bytes) → rest (pack xs ys) ≡ ys
unfolding rest pack
rest-pack xs ys = drop-append xs ys

flat_body : Body → Bytes
flat_body b = b.seq ∷ b.ts ∷ pack b.event (pack b.detail (pack b.prev []))

flat : AuditEntry → Bytes
flat e = pack e.event (pack e.detail (pack e.prev (pack e.hash [])))

unflat : ℕ → ℕ → Bytes → AuditEntry
unflat s t l = record {
  seq = s;
  ts = t;
  event = first l;
  detail = first (rest l);
  prev = first (rest (rest l));
  hash = first (rest (rest (rest l)));
}

-- Numbers are written from 100 on, so that none is white space.
unfoldable pub up : Bytes → Bytes
up = map (λ n. n + 100)

unfoldable pub down : Bytes → Bytes
down = map (λ n. n - 100)

x_back : (x : ℕ) → x + 100 - 100 ≡ x
x_back x = omega arith

not_small : (x : ℕ) → ltb (x + 100) 100 ≡ false
not_small x = ground arith

pub down-up : (l : Bytes) → down (up l) ≡ l
unfolding down up
down-up [] = refl
down-up (x ∷ l) = rw (x_back x) (ap (λ r. x ∷ r) (down-up l))

print : AuditEntry → Bytes
print e = (e.seq + 100) ∷ (e.ts + 100) ∷ up (flat e)

parse : Bytes → Option AuditEntry
parse (s ∷ t ∷ l) = if ltb s 100 then none else some (unflat (s - 100) (t - 100) (down l))
parse _ = none

unflat-flat : (e : AuditEntry) → unflat e.seq e.ts (flat e) ≡ e
unfolding unflat flat
unflat-flat e = simp (first-pack, rest-pack)

parse-print : (e : AuditEntry) → parse (print e) ≡ some e
unfolding parse print
parse-print e =
    rw (not_small e.seq, x_back e.seq, x_back e.ts, down-up (flat e)) (ap some (unflat-flat e))

unbody : Bytes → Body
unbody (s ∷ t ∷ l) = record {
  seq = s;
  ts = t;
  event = first l;
  detail = first (rest l);
  prev = first (rest (rest l));
}
unbody _ = record { seq = 0; ts = 0; event = []; detail = []; prev = [] }

unbody-flat_body : (b : Body) → unbody (flat_body b) ≡ b
unfolding unbody flat_body
unbody-flat_body b = simp (first-pack, rest-pack)

flat_body-injective : (a b : Body) → flat_body a ≡ flat_body b → a ≡ b
flat_body-injective a b e = cc (unbody-flat_body a, unbody-flat_body b)

pub no_small : (l : Bytes) (a : ℕ) → a < 100 → contains (up l) a ≡ false
unfolding up
no_small [] a h = refl
no_small (x ∷ l) a h = ground (arith, no_small l a h)

unfoldable pub json : Json
unfolding print parse flat unflat up down first rest pack flat_body
json = record {
  tuple_to_string = λ b. some (flat_body b);
  to_string = λ e. some (print e);
  from_str = parse;
  is_utf8 = λ b. true;
}

small_blank : (l : Bytes) → is_blank l ≡ true → parse l ≡ none
unfolding parse
small_blank [] h = refl
small_blank (x ∷ []) h = refl
small_blank (x ∷ y ∷ l) h = ground arith

no_small_head : (x a : ℕ) → a < 100 → (a == x + 100) ≡ false
no_small_head x a h = ground arith

print-IsWritten : (e : AuditEntry) → IsWritten json e (print e)
unfolding json
print-IsWritten e = record {
  printed = refl;
  parsed = parse-print e;
  one_line = ground (arith, no_small (flat e) newline);
  no_return = ground (arith, no_small (flat e) 13);
  not_blank = ground arith;
  utf8 = refl;
}

pub json-IsLawful : Audit.IsLawful json
unfolding json
json-IsLawful = record {
  tuple_total = λ b. (flat_body b, refl);
  tuple_injective = λ a b line p q. flat_body-injective a b (some-injective _ _ (p ∙ sym q));
  writes = λ e h k. (print e, print-IsWritten e);
  blank = small_blank;
}

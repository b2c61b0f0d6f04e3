-- ===== src/Erase/Lines.antt =====
-- Tombstones after the others.
use respawn.Base.{
  Bytes, true, false, some, List, [], ◌∷◌, ◌++◌, ◌==◌, list_eq, nat_eq, ◌≡◌, ap, inl, inr, arith,
  Bool-cases, Option-cases,
}
use respawn.Errors.{ok, Result-cases, ◌>>=◌}
use respawn.Lines.{trim}
use respawn.Purge.{Tombstone, TombstoneJson, parse_tombstones}
use respawn.Certificate.{PurgePayload, is_recorded}

pub parse_tombstones-append :
    (t : TombstoneJson) (ls : List Bytes) (l : Bytes) (x : Tombstone) (ts : List Tombstone)
    → t.from_str (trim l) ≡ some x
    → (trim l == []) ≡ false
    → parse_tombstones t ls ≡ ok ts
    → parse_tombstones t (ls ++ l ∷ []) ≡ ok (ts ++ x ∷ [])
unfolding parse_tombstones
parse_tombstones-append t [] l x ts read some_text e =
    rw (parse_tombstones, some_text, read) (ap (λ r. r >>= λ us. ok (us ++ x ∷ [])) e)
parse_tombstones-append t (k ∷ ls) l x ts read some_text e = elim (Bool-cases (trim k == [])) [
  | inl blank ↦
      rw (parse_tombstones, blank)
        (parse_tombstones-append t ls l x ts read some_text (rw (parse_tombstones, blank) at e))
  | inr full ↦ elim (Option-cases (t.from_str (trim k))) [
    | inl bad ↦ absurd (cc (rw (parse_tombstones, full, bad) at e))
    | inr (y, good) ↦ elim (Result-cases (parse_tombstones t ls)) [
      | inr (f, p) ↦ absurd (cc (rw (parse_tombstones, full, good, p) at e))
      | inl (us, p) ↦
          let more = parse_tombstones-append t ls l x us read some_text p in
          let whole : y ∷ us ≡ ts = ground (arith, (rw (parse_tombstones, full, good, p) at e)) in
          rw (parse_tombstones, full, good, more) (ap (λ vs. ok (vs ++ x ∷ [])) whole)
    ]
  ]
]

pub is_recorded-append :
    (ts : List Tombstone) (x : Tombstone) (p : PurgePayload)
    → x.path ≡ p.path
    → x.content ≡ p.content
    → is_recorded (ts ++ x ∷ []) p ≡ true
is_recorded-append [] x p path content = ground arith
is_recorded-append (y ∷ ts) x p path content =
    ground (arith, is_recorded-append ts x p path content)

-- ===== src/Tests/Records.antt =====
-- Stand-ins for serde_json at tombstones, certificates and orders: lists with lengths. The line of
-- a tombstone has no byte below 100, and so no white space.
use respawn.Base.{
  ℕ, Bytes, ◌≡◌, refl, true, false, Option, none, some, [], ◌∷◌, arith, ◌==◌, list_eq, nat_eq,
}
use mathlib.Core.Option.{some-injective}
use respawn.Lines.{newline, trim, trim_start, trim_end}
use respawn.Purge.{Tombstone, TombstoneJson}
use respawn.Certificate.{PurgePayload, CertJson}
use respawn.Erase.{CertWriter}
use respawn.Erase.Recorded
use respawn.Fleet.{OrderPayload, OrderJson}
use respawn.Fleet.Mint
use respawn.Fleet.Mint.{OrderWriter}
use respawn.Tests.Instances.{pack, first, rest, first-pack, rest-pack, up, down, down-up, no_small}

flat_tombstone : Tombstone → Bytes
flat_tombstone t = pack t.path (pack t.content (t.ts ∷ t.purge_id))

unflat_tombstone : Bytes → Bytes → Bytes → Option Tombstone
unflat_tombstone path content (ts ∷ id) =
    some (record { path = path; content = content; purge_id = id; ts = ts })
unflat_tombstone path content [] = none

read_line : Bytes → Option Tombstone
read_line l = let b = down l in unflat_tombstone (first b) (first (rest b)) (rest (rest b))

unfoldable pub line_json : TombstoneJson
unfolding up down flat_tombstone unflat_tombstone read_line first rest pack
line_json = record {
  to_string = λ t. some (up (flat_tombstone t));
  from_str = read_line;
  is_utf8 = λ b. true;
}

trim_start-up : (l : Bytes) → trim_start (up l) ≡ up l
unfolding up
trim_start-up [] = refl
trim_start-up (x ∷ l) = ground arith

trim_end-up : (l : Bytes) → trim_end (up l) ≡ up l
unfolding up
trim_end-up [] = refl
trim_end-up (x ∷ l) = ground (arith, trim_end-up l)

trim-up : (l : Bytes) → trim (up l) ≡ up l
unfolding trim
trim-up l = rw (trim_start-up l) (trim_end-up l)

not_blank : (x : ℕ) (l : Bytes) → (trim (up (x ∷ l)) == []) ≡ false
unfolding up
not_blank x l = rw (trim-up (x ∷ l)) (ground arith)

read_line-up : (t : Tombstone) → read_line (up (flat_tombstone t)) ≡ some t
unfolding read_line flat_tombstone unflat_tombstone
read_line-up t =
    rw (down-up (pack t.path (pack t.content (t.ts ∷ t.purge_id)))) (simp (first-pack, rest-pack))

pub line_json-IsLawful : Recorded.IsLawful line_json
unfolding line_json flat_tombstone pack
line_json-IsLawful = record {
  line = λ t l e. rw (← some-injective _ _ e) (
    rw (trim-up (flat_tombstone t)) (read_line-up t),
    not_blank _ _,
    no_small (flat_tombstone t) newline (omega arith),
    no_small (flat_tombstone t) 13 (omega arith),
  );
  utf8 = λ t file l e h. refl;
}

flat_purge : PurgePayload → Bytes
flat_purge p =
    p.version
    ∷ p.chunks_removed
    ∷ p.chunks_retained_shared
    ∷ p.manifests_touched
    ∷ p.audit_len
    ∷ p.ts
    ∷ pack p.kind (pack p.fabric_id (pack p.path (pack p.content p.audit_tip)))

unflat_purge : Bytes → Option PurgePayload
unflat_purge (v ∷ r ∷ s ∷ m ∷ n ∷ t ∷ b) = some (record {
  kind = first b;
  version = v;
  fabric_id = first (rest b);
  path = first (rest (rest b));
  content = first (rest (rest (rest b)));
  chunks_removed = r;
  chunks_retained_shared = s;
  manifests_touched = m;
  audit_len = n;
  audit_tip = rest (rest (rest (rest b)));
  ts = t;
})
unflat_purge _ = none

unfoldable pub cert_writer : CertWriter
unfolding flat_purge pack
cert_writer = record {
  payload_to_string = λ p. some (flat_purge p);
  cert_to_vec = λ f. some (pack f.format (pack f.pubkey (pack f.payload f.sig)));
}

unfoldable pub cert_reader : CertJson
unfolding unflat_purge first rest
cert_reader = record {
  cert_from_slice = λ b. some (record {
    format = first b;
    pubkey = first (rest b);
    payload = first (rest (rest b));
    sig = rest (rest (rest b));
  });
  payload_from_str = unflat_purge;
}

unflat_purge-flat_purge : (p : PurgePayload) → unflat_purge (flat_purge p) ≡ some p
unfolding unflat_purge flat_purge
unflat_purge-flat_purge p = simp (first-pack, rest-pack)

pub cert_reader-IsReadBack : Recorded.IsReadBack cert_writer cert_reader
unfolding cert_writer cert_reader
cert_reader-IsReadBack = record {
  payload = λ p b e. rw (← some-injective _ _ e) (unflat_purge-flat_purge p);
  cert = λ f b e. rw (← some-injective _ _ e) (simp (first-pack, rest-pack));
}

unflat_order : Bytes → Option OrderPayload
unflat_order (ts ∷ b) = some (record {
  kind = first b;
  fabric_id = first (rest b);
  target = first (rest (rest b));
  ts = ts;
  nonce = rest (rest (rest b));
})
unflat_order [] = none

unfoldable pub order_writer : OrderWriter
unfolding pack
order_writer = record {
  payload_to_string = λ p. some (p.ts ∷ pack p.kind (pack p.fabric_id (pack p.target p.nonce)));
  order_to_vec = λ f. some (pack f.format (pack f.pubkey (pack f.payload f.sig)));
}

unfoldable pub order_reader : OrderJson
unfolding unflat_order first rest
order_reader = record {
  order_from_slice = λ b. some (record {
    format = first b;
    pubkey = first (rest b);
    payload = first (rest (rest b));
    sig = rest (rest (rest b));
  });
  payload_from_str = unflat_order;
  parse_u64 = λ b. none;
}

pub order_reader-IsReadBack : Mint.IsReadBack order_writer order_reader
unfolding order_writer order_reader unflat_order
order_reader-IsReadBack = record {
  payload = λ p b e. rw (← some-injective _ _ e) (simp (first-pack, rest-pack));
  order = λ f b e. rw (← some-injective _ _ e) (simp (first-pack, rest-pack));
}

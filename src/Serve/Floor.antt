-- ===== src/Serve/Floor.antt =====
-- What a listener with a key sends.
use respawn.Base.{
  ℕ, Bytes, some, [], ◌∷◌, take, ◌==◌, ==_iff, nat_eq, list_eq, ◌≡◌, refl, ap, ◌∙◌, ◌⊎◌, inl, inr,
  Bool-cases, Option-cases, ltb, length, drop, ◌||◌,
}
use respawn.Errors.{Error, ok, err, sync, Result-cases}
use respawn.Sync.{from_le_bytes}
use respawn.Crates.{Crates}
use respawn.Store.{Fabric, Zstd}
use respawn.Transport.{
  Wire, read_exact, read_msg, proto_magic, proto_version, mode_noise, max_hs_msg,
}
use respawn.Transport.Secure.{Noise, hs_responder}
use respawn.Serve.{serve_conn, serve_secure}

-- A handshake over this key answers the first message that arrives at `s`.
pub record IsAnswered {I T : Type 0} (noise : Noise I T) (key : Bytes) (s : Wire) : Type 0 where
  pub first : Bytes
  pub reply : Bytes
  pub transport : T
  pub arrived : (read_msg max_hs_msg s).0 ≡ ok first
  pub answered : noise.answer key first ≡ some (reply, transport)

-- What is left to receive after the selector.
abbrev pub after_selector : Wire → Wire
after_selector s = record s { incoming = drop 2 (drop 4 s.incoming) }

read_exact-outgoing : (n : ℕ) (s : Wire) → (read_exact n s).1.outgoing ≡ s.outgoing
unfolding read_exact
read_exact-outgoing n s = elim (Bool-cases (ltb (length s.incoming) n)) [
  | inl short ↦ rw short refl
  | inr long ↦ rw long refl
]

read_msg-outgoing : (cap : ℕ) (s : Wire) → (read_msg cap s).1.outgoing ≡ s.outgoing
unfolding read_msg
read_msg-outgoing cap s =
    let four = read_exact-outgoing 4 s in
    elim (Result-cases (read_exact 4 s).0) [
      | inr (e, p) ↦ rw p four
      | inl (len_buf, p) ↦
          elim (Bool-cases (from_le_bytes len_buf == 0 || ltb cap (from_le_bytes len_buf))) [
            | inl bad ↦ rw (p, bad) four
            | inr good ↦
                rw (p, good) (read_exact-outgoing (from_le_bytes len_buf) (read_exact 4 s).1 ∙ four)
          ]
    ]

module _ (c : Crates) (z : Zstd) (fabric : Fabric) {I T : Type 0} (noise : Noise I T) where
  serve_secure_refused :
      (key : Bytes) (s w : Wire) (e : Error)
      → hs_responder noise key s ≡ (err e, w)
      → w.outgoing ≡ s.outgoing
      → (serve_secure c z fabric noise key s).1.outgoing ≡ s.outgoing
  unfolding serve_secure
  serve_secure_refused key s w e p quiet = rw (serve_secure, p, ap (λ q. q.1) p) quiet

  serve_secure-IsAnswered :
      (key : Bytes) (s : Wire)
      → ((serve_secure c z fabric noise key s).1.outgoing ≡ s.outgoing) ⊎ IsAnswered noise key s
  unfolding hs_responder
  serve_secure-IsAnswered key s =
      let quiet = read_msg-outgoing max_hs_msg s in
      let left = (read_msg max_hs_msg s).1 in
      elim (Result-cases (read_msg max_hs_msg s).0) [
        | inr (e, p) ↦
            let failed : hs_responder noise key s ≡ (err e, left) = rw p refl in
            inl (serve_secure_refused key s left _ failed quiet)
        | inl (first, p) ↦ elim (Option-cases (noise.answer key first)) [
          | inl bad ↦
              let failed : hs_responder noise key s ≡ (err (sync "noise"), left) =
                rw (p, bad) refl in
              inl (serve_secure_refused key s left _ failed quiet)
          | inr ((reply, t), good) ↦
              inr (record {
                first = first;
                reply = reply;
                transport = t;
                arrived = p;
                answered = good;
              })
        ]
      ]

  -- A listener with a key sends nothing at all, unless the connection began with the selector of
  -- Noise and the handshake over this very key answered the message after it.
  pub serve_conn-IsAnswered :
      (key : Bytes) (s : Wire)
      → ((serve_conn c z fabric noise (some key) s).1.outgoing ≡ s.outgoing)
        ⊎ ((take 4 s.incoming ≡ proto_magic) × IsAnswered noise key (after_selector s))
  unfolding serve_conn read_exact
  serve_conn-IsAnswered key s = elim (Bool-cases (ltb (length s.incoming) 4)) [
    | inl short ↦ inl (rw short refl)
    | inr long ↦ elim (Bool-cases (take 4 s.incoming == proto_magic)) [
      | inr other ↦ inl (rw (long, other) refl)
      | inl magic ↦ elim (Bool-cases (ltb (length (drop 4 s.incoming)) 2)) [
        | inl short ↦ inl (rw (long, magic, short) refl)
        | inr more ↦
            elim (Bool-cases (take 2 (drop 4 s.incoming) == proto_version ∷ mode_noise ∷ [])) [
              | inr other ↦ inl (rw (long, magic, more, other) refl)
              | inl same ↦
                  rw (long, magic, more, same)
                    (elim (serve_secure-IsAnswered key (after_selector s)) [
                      | inl quiet ↦ inl quiet
                      | inr shaken ↦ inr ((==_iff _ _).0 magic, shaken)
                    ])
            ]
      ]
    ]
  ]

-- ===== src/Serve/Answered.antt =====
-- A client without a key at a listener without a key.
use mathlib.Core.List.{append_assoc, append-nil}
use respawn.Base.{
  ℕ, zero, suc, ◌≤◌, ◌<◌, Bytes, false, none, List, [], ◌∷◌, ◌++◌, ◌==◌, nat_eq, list_eq, ◌≡◌, refl,
  ap, ◌∙◌, inl, inr, Bool-cases, length, All, arith, ==_iff, length-append, le→ltb_false,
}
use respawn.Errors.{Error, ok, err, io}
use respawn.Sync.{from_le_bytes, to_le_bytes, respond_frame}
use respawn.Sync.Frames.{from_le_bytes-to_le_bytes, length-to_le_bytes}
use respawn.Crates.{Crates}
use respawn.Store.{Fabric, Zstd}
use respawn.Transport.{Wire, read_exact, proto_magic, max_frame}
use respawn.Transport.Reading.{message, receiving, sending, read_exact-append}
use respawn.Transport.Plain.{read_frame-message, write_frame-eq}
use respawn.Transport.Plain
use respawn.Transport.Secure.{Noise}
use respawn.Serve.{FrameIo, plain, respond, serve_frames, serve_plain, serve_conn}

-- The frames of requests, and of their answers, one after the other.
abbrev pub requests : List (Bytes × Bytes) → Bytes
requests [] = []
requests ((request, answer) ∷ more) = message request ++ requests more

abbrev pub answers : List (Bytes × Bytes) → Bytes
answers [] = []
answers ((request, answer) ∷ more) = message answer ++ answers more

not_empty : (b : Bytes) → 0 < length b → (b == []) ≡ false
not_empty [] h = absurd (omega arith)
not_empty (x ∷ xs) h = ground arith

module _ (c : Crates) (z : Zstd) (fabric : Fabric) where
  -- A request that fits into a frame, beside what `respond_frame` answers to it.
  abbrev pub IsAnswer : Bytes × Bytes → Type 0
  IsAnswer (request, answer) =
      (0 < length request)
      × (length request ≤ max_frame)
      × (respond_frame c z request fabric ≡ ok answer)

  respond-eq :
      (request answer : Bytes) (s : Wire)
      → respond_frame c z request fabric ≡ ok answer
      → respond c z fabric plain request s ≡ (ok tt, sending (message answer) s)
  unfolding respond
  respond-eq request answer s e = rw (respond, e) (write_frame-eq answer s)

  read_nothing :
      (s : Wire)
      → Plain.read_frame (receiving [] s) ≡ (err (io "failed to fill whole buffer"), receiving [] s)
  unfolding Plain.read_frame read_exact
  read_nothing s = refl

  module _ {S : Type 0} (frames : FrameIo S) (fuel : ℕ) (s t u : S) where
    -- A round that ends the loop, and one that answers.
    serve_frames_end :
        (e : Error)
        → frames.read_frame s ≡ (err e, t)
        → serve_frames c z fabric frames (suc fuel) s ≡ (ok tt, t)
    unfolding serve_frames
    serve_frames_end e p = rw (serve_frames, p, ap (λ q. q.1) p) refl

    serve_frames_answer :
        (request : Bytes)
        → frames.read_frame s ≡ (ok request, t)
        → (request == []) ≡ false
        → respond c z fabric frames request t ≡ (ok tt, u)
        → serve_frames c z fabric frames (suc fuel) s ≡ serve_frames c z fabric frames fuel u
    unfolding serve_frames
    serve_frames_answer request p some_bytes q =
        rw (serve_frames, p, ap (λ a. a.1) p, some_bytes, q, ap (λ a. a.1) p, ap (λ a. a.1) q) refl

  serve_frames_none :
      {S : Type 0} (frames : FrameIo S) (s : S) → serve_frames c z fabric frames 0 s ≡ (ok tt, s)
  unfolding serve_frames
  serve_frames_none frames s = refl

  serve_frames-answers :
      (exchanges : List (Bytes × Bytes)) (fuel : ℕ) (s : Wire)
      → All IsAnswer exchanges
      → length exchanges ≤ fuel
      → serve_frames c z fabric plain fuel (receiving (requests exchanges) s)
        ≡ (ok tt, receiving [] (sending (answers exchanges) s))
  serve_frames-answers [] zero s right enough =
      rw (append-nil s.outgoing) (serve_frames_none plain (receiving [] s))
  serve_frames-answers [] (suc fuel) s right enough =
      rw (append-nil s.outgoing) (serve_frames_end plain fuel _ _ s _ (read_nothing s))
  serve_frames-answers ((request, answer) ∷ more) zero s right enough = absurd (omega arith)
  serve_frames-answers ((request, answer) ∷ more) (suc fuel) s ((some_bytes, fits, e), right)
        enough =
      let later = serve_frames-answers more fuel (sending (message answer) s) right (omega arith) in
      serve_frames_answer plain fuel _ _ _ request
        (read_frame-message request (requests more) s fits) (not_empty request some_bytes)
        (respond-eq request answer (receiving (requests more) s) e)
      ∙ (rw (← append_assoc s.outgoing (message answer) (answers more)) later)

  length-requests :
      (exchanges : List (Bytes × Bytes)) → length exchanges ≤ length (requests exchanges)
  length-requests [] = omega arith
  length-requests ((request, answer) ∷ more) = omega (
    arith,
    length-requests more,
    length-append (message request) (requests more),
    length-append (to_le_bytes 4 (length request)) request,
    length-to_le_bytes 4 (length request),
  )

  -- The length of a frame is not the selector of Noise.
  length_ne_magic : (n : ℕ) → n ≤ max_frame → (to_le_bytes 4 n == proto_magic) ≡ false
  unfolding from_le_bytes
  length_ne_magic n small = elim (Bool-cases (to_le_bytes 4 n == proto_magic)) [
    | inr other ↦ other
    | inl same ↦
        let is_count = from_le_bytes-to_le_bytes 4 n (omega arith) in
        let is_magic : from_le_bytes (to_le_bytes 4 n) ≡ 1_111_574_099 =
          ap from_le_bytes ((==_iff _ _).0 same) ∙ magic_count in
        absurd (omega arith)
  ]
    where
      magic_count : from_le_bytes proto_magic ≡ 1_111_574_099
      magic_count = refl

  -- A client without a key that sends requests in frames of 1 byte to 64 MiB each, all of which
  -- respond_frame answers, gets from a listener without a key exactly the frames of these answers,
  -- in the order of the requests, until it closes the connection.
  pub serve_conn-answers :
      {I T : Type 0} (noise : Noise I T) (request answer : Bytes) (more : List (Bytes × Bytes))
      (s : Wire)
      → All IsAnswer ((request, answer) ∷ more)
      → serve_conn c z fabric noise none (receiving (requests ((request, answer) ∷ more)) s)
        ≡ (ok tt, receiving [] (sending (answers ((request, answer) ∷ more)) s))
  unfolding serve_conn serve_plain
  serve_conn-answers noise request answer more s ((some_bytes, fits, e), right) =
      let n = length request in
      let front = to_le_bytes 4 n in
      let later =
        serve_frames-answers more (length (requests more)) (sending (message answer) s) right
          (length-requests more) in
      rw
        (
          append_assoc front request (requests more),
          read_exact-append front (request ++ requests more) 4 s (length-to_le_bytes 4 n),
          length_ne_magic n fits,
          from_le_bytes-to_le_bytes 4 n (omega arith),
          some_length n some_bytes,
          le→ltb_false max_frame n fits,
          read_exact-append request (requests more) n s refl,
          respond-eq request answer (receiving (requests more) s) e,
          ← append_assoc s.outgoing (message answer) (answers more),
        )
        later
    where
      some_length : (n : ℕ) → 0 < n → (n == 0) ≡ false
      some_length n h = ground arith

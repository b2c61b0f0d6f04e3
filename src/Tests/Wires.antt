-- ===== src/Tests/Wires.antt =====
-- Frames and connections at concrete inputs, over a stand-in for Noise that appends a tag of
-- zeros.
use respawn.Base.{
  ℕ, suc, ◌-◌, Bytes, text, none, some, [], ◌∷◌, ◌++◌, length, take, take-append, length-append,
  ◌==◌, nat_eq, list_eq, if◌then◌else◌, ◌≡◌, refl, sym, ap, ◌∙◌, ◌⊎◌, arith,
}
use mathlib.Core.Option.{some-injective}
use respawn.Errors.{ok}
use respawn.Lines.{trim}
use respawn.Store.{init, head}
use respawn.Sync.{respond_frame, to_le_bytes, batches}
use respawn.Transport.{Wire, proto_magic, write_msg, write_all}
use respawn.Transport.Reading.{receiving, sending}
use respawn.Transport.Plain.{read_pieces-read_exact, read_pieces}
use respawn.Transport
use respawn.Transport.Secure
use respawn.Transport.Secure.{Noise, SecureStream}
use respawn.Transport.Secure.Sealed.{IsLawful, read_frame-write_frame_sealed, hears, left_with}
use respawn.Serve.{serve_conn}
use respawn.Serve.Floor.{IsAnswered, after_selector, serve_conn-IsAnswered}
use respawn.Serve.Answered.{requests, answers, serve_conn-answers}
use respawn.Tests.Instances.{crates, zstd}

abbrev quiet : Wire
quiet = record { incoming = []; outgoing = [] }

read_pieces-read_exact_example :
    read_pieces 2 5 5 (receiving (text "abcdefg") quiet)
    ≡ Transport.read_exact 5 (receiving (text "abcdefg") quiet)
read_pieces-read_exact_example =
    read_pieces-read_exact 2 5 5 (receiving (text "abcdefg") quiet) (omega arith) (omega arith)

abbrev tag : Bytes
tag = 0 ∷ 0 ∷ 0 ∷ 0 ∷ 0 ∷ 0 ∷ 0 ∷ 0 ∷ 0 ∷ 0 ∷ 0 ∷ 0 ∷ 0 ∷ 0 ∷ 0 ∷ 0 ∷ []

abbrev noise : Noise ℕ ℕ
noise = record {
  initiate = λ key. some (key, 0);
  finish = λ i reply. some 0;
  answer = λ key first. if first == key then some (key, 0) else none;
  seal = λ content a. some (content ++ tag, suc a);
  unseal = λ packed b. some (take (length packed - 16) packed, suc b);
}

abbrev IsPaired : ℕ → ℕ → Type 0
IsPaired a b = a ≡ b

untagged : (content : Bytes) → length (content ++ tag) - 16 ≡ length content
untagged content = omega (arith, length-append content tag)

noise-IsLawful : IsLawful noise IsPaired
noise-IsLawful = record {
  unseal-seal = λ content packed a a' b p e.
      let q = some-injective _ _ e in
      (
        suc b,
        ap (λ l. some (l, suc b))
            (sym (ap (λ x. take (length x - 16) x) (ap (λ r. r.0) q))
              ∙ ap (λ n. take n (content ++ tag)) (untagged content)
              ∙ take-append content tag),
        sym (ap (λ r. r.1) q) ∙ ap suc p,
      );
  length-seal = λ content packed a a' e.
      ap length (sym (ap (λ r. r.0) (some-injective _ _ e))) ∙ length-append content tag;
}

abbrev secured : SecureStream ℕ
secured = record { stream = quiet; transport = 0 }

abbrev after_frame : SecureStream ℕ
after_frame = (Secure.write_frame noise (text "hi") secured).1

read_frame-write_frame_sealed_example :
    (t : ℕ) × (Secure.read_frame noise
        (hears noise noise-IsLawful (after_frame.stream.outgoing ++ text "more") secured)
      ≡ (ok (text "hi"), left_with noise noise-IsLawful (text "more") t secured))
    × IsPaired after_frame.transport t
unfolding Secure.write_frame Secure.write_sealed write_msg to_le_bytes write_all Secure.write_chunks
    batches
read_frame-write_frame_sealed_example =
    read_frame-write_frame_sealed noise noise-IsLawful (text "hi") (text "more") secured after_frame
      secured refl refl refl

-- A client without a key asks for HEAD.
abbrev probe : Wire
probe = receiving (1 ∷ 0 ∷ 0 ∷ 0 ∷ 1 ∷ []) quiet

serve_conn-IsAnswered_example :
    ((serve_conn crates zstd init noise (some (text "key")) probe).1.outgoing ≡ [])
    ⊎ ((take 4 probe.incoming ≡ proto_magic) × IsAnswered noise (text "key") (after_selector probe))
serve_conn-IsAnswered_example = serve_conn-IsAnswered crates zstd init noise (text "key") probe

serve_conn-answers_example :
    serve_conn crates zstd init noise none
      (receiving (requests ((1 ∷ [], 0 ∷ []) ∷ (1 ∷ [], 0 ∷ []) ∷ [])) quiet)
    ≡ (ok tt, receiving [] (sending (answers ((1 ∷ [], 0 ∷ []) ∷ (1 ∷ [], 0 ∷ []) ∷ [])) quiet))
unfolding respond_frame nat_eq head list_eq trim
serve_conn-answers_example =
    serve_conn-answers crates zstd init noise (1 ∷ []) (0 ∷ []) ((1 ∷ [], 0 ∷ []) ∷ []) quiet
      ((omega arith, omega arith, refl), ((omega arith, omega arith, refl), tt))

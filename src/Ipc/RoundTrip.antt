-- ===== src/Ipc/RoundTrip.antt =====
-- What is written by internal/ipc/proto.go is what is read.
use xray_runner.Prelude.{
  ℕ, ◌+◌, ◌*◌, ◌/◌, ◌%◌, ◌≤◌, ◌≡◌, ◌≢◌, inl, inr, subst, false, ◌||◌, Option, some, List, [], ◌∷◌,
  ◌++◌, length, ltb, ◌==◌, arith, refl, take-append, drop-append, Bool-cases,
}
use xray_runner.Prelude.Outcome.{Outcome, ok}
use xray_runner.Ipc.Frames.{
  Message, version, max_message, put_uint32, write_message, read_body, read_frame, read_message,
}

uint32_back :
    (n : ℕ)
    → n ≤ max_message
    → n / 16_777_216 % 256 * 16_777_216 + n / 65536 % 256 * 65536 + n / 256 % 256 * 256 + n % 256
      ≡ n
uint32_back n h = omega arith

empty_length : (bytes : List ℕ) → length bytes ≡ 0 → bytes ≡ []
empty_length [] h = refl
empty_length (b ∷ bytes) h = absurd (omega arith)

size_fits :
    (limit : ℕ) (bytes : List ℕ)
    → bytes ≢ []
    → length bytes ≤ limit
    → ((length bytes == 0) || ltb limit (length bytes)) ≡ false
size_fits limit [] full l = absurd (full refl)
size_fits limit (b ∷ bytes) full l = ground arith

not_below : (n : ℕ) → ltb n n ≡ false
not_below n = ground arith

ok_bytes {ℓ} : {E : Type ℓ} {a b : List ℕ} → ◌≡◌ {A = Outcome E (List ℕ)} (ok a) (ok b) → a ≡ b
ok_bytes e = cc e

module _ {ℓ} {E : Type ℓ} (marshal : Message → Option (List ℕ))
    (unmarshal : List ℕ → Outcome E Message) where
  read_frame-append :
      (limit : ℕ) (m : Message) (bytes rest : List ℕ)
      → bytes ≢ []
      → unmarshal bytes ≡ ok m
      → m.v ≡ version
      → length bytes ≤ limit
      → read_frame marshal unmarshal limit (length bytes) (bytes ++ rest) ≡ (ok m, rest)
  unfolding read_frame read_body
  read_frame-append limit m bytes rest full back v l =
      rw
        (
          take-append bytes rest,
          drop-append bytes rest,
          size_fits limit bytes full l,
          not_below (length bytes),
          read_body,
          back,
          v,
        )
        refl

  -- A message that was written is read back, with the version set, and what follows it on the wire is
  -- left for the next: where the encoder gives some text for this message, and the decoder reads that
  -- text back as it.
  pub read-write_message :
      (m : Message) (bytes frame rest : List ℕ)
      → marshal (record m { v = version }) ≡ some bytes
      → bytes ≢ []
      → unmarshal bytes ≡ ok (record m { v = version })
      → write_message marshal unmarshal m ≡ ok frame
      → read_message marshal unmarshal max_message (frame ++ rest)
        ≡ (ok (record m { v = version }), rest)
  unfolding write_message read_message put_uint32
  read-write_message m bytes frame rest q full back w =
      elim (Bool-cases (ltb max_message (length bytes))) [
        | inl big ↦ absurd (ground (arith, big, rw (write_message, q) at w))
        | inr fits ↦
            let written = ok_bytes (rw (write_message, q, fits) at w) in
            subst
              (λ f.
                read_message marshal unmarshal max_message (f ++ rest)
                ≡ (ok (record m { v = version }), rest))
              written
              (rw (uint32_back (length bytes) (ground arith)) (
                read_frame-append max_message (record m { v = version }) bytes rest full back refl
                  (ground arith)))
      ]

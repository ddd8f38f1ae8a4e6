-- ===== src/Ipc/Frames.antt =====
-- internal/ipc/proto.go: one message on the wire. Bytes are natural numbers; encoding/json is an
-- argument, with the errors of its decoder.
use xray_runner.Prelude.{
  ℕ, ◌+◌, ◌*◌, ◌/◌, ◌%◌, Bool, ◌||◌, not, Option, none, some, String, List, [], ◌∷◌, ◌++◌, length,
  take, drop, ltb, ◌==◌, if◌then◌else◌,
}
use xray_runner.Prelude.Outcome.{Outcome, fail, ok}

pub record Message : Type 0 where
  pub v : ℕ
  pub id : ℕ
  pub kind : String
  -- the raw JSON of the body
  pub body : List ℕ
  pub error : String

abbrev pub version : ℕ
version = 1

-- 4 << 20
abbrev pub max_message : ℕ
max_message = 4_194_304

-- 4 << 10
abbrev pub max_hello : ℕ
max_hello = 4096

pub data FrameError {ℓ} (E : Type ℓ) : Type ℓ where
  not_encoded : FrameError E
  too_large : FrameError E
  -- io.EOF and io.ErrUnexpectedEOF
  end_of_input cut_short : FrameError E
  not_decoded : E → FrameError E
  -- VersionError, with what came
  other_version : Message → FrameError E

-- binary.BigEndian.PutUint32
unfoldable pub put_uint32 : ℕ → List ℕ
put_uint32 n = n / 16_777_216 % 256 ∷ n / 65536 % 256 ∷ n / 256 % 256 ∷ n % 256 ∷ []

module _ {ℓ} {E : Type ℓ} (marshal : Message → Option (List ℕ))
    (unmarshal : List ℕ → Outcome E Message) where
  -- WriteMessage: the bytes that it hands to the writer
  unfoldable pub write_message : Message → Outcome (FrameError E) (List ℕ)
  unfolding put_uint32
  write_message m = elim (marshal (record m { v = version })) [
    | none ↦ fail not_encoded
    | some bytes ↦
        if ltb max_message (length bytes)
        then fail too_large
        else ok (put_uint32 (length bytes) ++ bytes)
  ]

  -- what is done with the bytes of a frame
  unfoldable pub read_body : List ℕ → Outcome (FrameError E) Message
  read_body bytes = elim (unmarshal bytes) [
    | fail e ↦ fail (not_decoded e)
    | ok m ↦ if not (m.v == version) then fail (other_version m) else ok m
  ]

  -- a frame of `n` bytes, from the input behind its header
  unfoldable pub read_frame : ℕ → ℕ → List ℕ → Outcome (FrameError E) Message × List ℕ
  unfolding read_body
  read_frame limit n input =
      if (n == 0) || ltb limit n
      then (fail too_large, input)
      else if ltb (length (take n input)) n
      then (fail cut_short, [])
      else (read_body (take n input), drop n input)

  -- readMessage on all that the reader is going to give; with the input that it leaves
  unfoldable pub read_message : ℕ → List ℕ → Outcome (FrameError E) Message × List ℕ
  unfolding read_frame
  read_message limit [] = (fail end_of_input, [])
  read_message limit (a ∷ b ∷ c ∷ d ∷ input) =
      read_frame limit (a * 16_777_216 + b * 65536 + c * 256 + d) input
  read_message limit (_ ∷ _) = (fail cut_short, [])

  -- Conn.Read: the first message is held to max_hello; `greeted` is whether it was read
  unfoldable pub read_request : Bool → List ℕ → Outcome (FrameError E) Message × List ℕ
  unfolding read_message
  read_request greeted input =
      if greeted then read_message max_message input else read_message max_hello input

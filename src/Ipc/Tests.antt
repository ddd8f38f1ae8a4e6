-- ===== src/Ipc/Tests.antt =====
-- One hello on the wire, in a codec that knows nothing else.
use xray_runner.Prelude.{
  ℕ, ◌≡◌, Bool, true, false, ◌&&◌, Option, none, some, List, [], ◌∷◌, ◌==◌, str_eq, if◌then◌else◌,
  refl,
}
use xray_runner.Prelude.Outcome.{Outcome, fail, ok}
use xray_runner.Ipc.Frames.{Message, max_message, read_message, write_message}
use xray_runner.Ipc.RoundTrip.{read-write_message}

abbrev hello : Message
hello = record { v = 1; id = 7; kind = "hello"; body = []; error = "" }

abbrev no_body : List ℕ → Bool
no_body [] = true
no_body (_ ∷ _) = false

abbrev marshal : Message → Option (List ℕ)
marshal m =
    if (m.v == 1) && (m.id == 7) && str_eq m.kind "hello" && no_body m.body && str_eq m.error ""
    then some (b'{' ∷ b'}' ∷ [])
    else none

abbrev unmarshal : List ℕ → Outcome ℕ Message
unmarshal (_ ∷ _) = ok hello
unmarshal [] = fail 0

read-write_message_example :
    read_message marshal unmarshal max_message (0 ∷ 0 ∷ 0 ∷ 2 ∷ b'{' ∷ b'}' ∷ 9 ∷ [])
    ≡ (ok hello, 9 ∷ [])
unfolding write_message
read-write_message_example =
    read-write_message marshal unmarshal hello (b'{' ∷ b'}' ∷ []) (0 ∷ 0 ∷ 0 ∷ 2 ∷ b'{' ∷ b'}' ∷ [])
      (9 ∷ []) refl (λ e. absurd (cc)) refl refl

-- ===== src/Transport/Frame/Tests.antt =====
-- A frame with a concrete codec, and its header.
use hiway.Prelude.{ℕ, ◌≡◌, refl, List, [], ◌∷◌, ◌++◌, length, Result, ok, arith}
use hiway.Prelude.Bytes.{to_le, overwrite}
use hiway.Event.{Delivery}
use hiway.Wire.{WireError}
use hiway.Transport.Contract.{Contract}
use hiway.Transport.Protocol.Progress.{magic}
use hiway.Transport.Frame.{encode_frame, finish_frame, write_frame_header}
use hiway.Transport.Frame.Header.{Announces, encode_frame-Announces}

-- A codec that writes a payload's bytes as they are.
abbrev plain_len : List ℕ → ℕ
plain_len payload = length payload

abbrev plain : List ℕ → List ℕ → Result ℕ WireError × List ℕ
plain payload place = (ok (length payload), overwrite place payload)

abbrev contract : Contract
contract = record { event = 300; major = 2; revision = 3; delivery = Delivery.latest }

abbrev payload : List ℕ
payload = 9 ∷ 8 ∷ []

abbrev room : List ℕ
room = to_le 41 0

abbrev framed : List ℕ
framed =
    magic
    ++ (to_le 16 300
        ++ (to_le 2 2 ++ (to_le 4 3 ++ (to_le 8 7 ++ (to_le 4 2 ++ (9 ∷ 8 ∷ 0 ∷ []))))))

encode_frame-framed : encode_frame plain_len plain contract 7 payload room ≡ (ok 40, framed)
unfolding encode_frame finish_frame write_frame_header
encode_frame-framed = refl

encode_frame-Announces_example : Announces contract 7 40 framed
encode_frame-Announces_example =
    encode_frame-Announces plain_len plain contract 7 40 payload room framed (omega arith)
      (omega arith) encode_frame-framed

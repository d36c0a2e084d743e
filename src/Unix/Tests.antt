-- ===== src/Unix/Tests.antt =====
-- A header and the rounds of a concrete link.
use hiway.Prelude.{
  ℕ, ◌+◌, ◌≤◌, ◌≡◌, refl, true, false, none, take, Result, err, List, [], ◌∷◌, length, replicate,
  ok, arith,
}
use hiway.Event.{Delivery, follows}
use hiway.Wire.{WireError}
use hiway.Static.{StreamItem}
use hiway.Transport.Contract.{Contract, header_bytes}
use hiway.Transport.Frame.{write_frame_header}
use hiway.Unix.{IpcError, encode_header, decode_header, is_for, has_magic, field}
use hiway.Unix.Header.{decode_header-encode_header}
use hiway.Unix.Credit.{
  credit_frame, receive_credit, export_encoded, export_item, written, import_header, import_payload,
}
use hiway.Unix.Credit.Rounds.{
  Round, Link, exported, answered, headed, credited_by, write_ends, step, run, opened, Fits,
}
use hiway.Unix.Credit.Bounded.{answer, run-bounded}

abbrev contract : Contract
contract = record { event = 77; major = 2; revision = 5; delivery = Delivery.ordered }

abbrev header : List ℕ
header = write_frame_header contract 1000 300 (replicate header_bytes 0)

encoded-header : encode_header contract 1000 300 ≡ ok header
unfolding encode_header
encoded-header = refl

decode_header-encode_header_example :
    decode_header contract header 512 ≡ ok (record { sequence = 1000; revision = 5; length = 300 })
decode_header-encode_header_example =
    decode_header-encode_header contract 1000 300 512 header (omega arith, omega arith, omega arith)
      (omega arith) (omega arith) encoded-header

-- A codec of one byte.
abbrev encoded_len : ℕ → ℕ
encoded_len value = 1

abbrev encode : ℕ → List ℕ → Result ℕ WireError × List ℕ
encode value buffer = (ok 1, value ∷ [])

-- A frame goes out and is answered; the next one is refused by the local stream of the importing end.
abbrev rounds : List (Round ℕ)
rounds =
    Round.exports (0 ∷ 0 ∷ []) (StreamItem.item 4 9)
    ∷ Round.writes
    ∷ Round.imports (ok tt) true
    ∷ Round.exports (9 ∷ 0 ∷ []) (StreamItem.item 5 8)
    ∷ Round.reads
    ∷ Round.exports (9 ∷ 0 ∷ []) (StreamItem.item 5 8)
    ∷ Round.imports (err IpcError.revoked) true
    ∷ []

abbrev link : List (Round ℕ) → Link
link rest = run encoded_len encode contract contract 2 (opened none none) rest

-- After the third round the credit is on its way; after the last, only the importing end is over.
link_credited : (link (take 3 rounds)).1 ≡ ([], credit_frame 4 ∷ [])
unfolding run step exported headed answered credited_by write_ends export_item export_encoded
    encode_header import_header decode_header is_for has_magic field import_payload credit_frame
    write_frame_header
link_credited = refl

link_over : ((link rounds).0.importer_over ≡ true) × ((link rounds).0.exporter_over ≡ false)
unfolding run step exported headed answered credited_by write_ends export_item export_encoded
    encode_header import_header decode_header is_for has_magic field import_payload credit_frame
    write_frame_header receive_credit written follows
link_over = (refl, refl)

run-bounded_example :
    (length (link rounds).1.0 + length (link rounds).1.1 ≤ 1) × (answer (link rounds) ≡ ok tt)
unfolding Fits
run-bounded_example =
    run-bounded encoded_len encode contract contract 2 none none rounds
      (omega arith, (tt, (tt, (omega arith, (tt, (omega arith, (tt, tt)))))))

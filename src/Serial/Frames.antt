-- ===== src/Serial/Frames.antt =====
-- Frames (core/MutoLibCore.py, core/servo.py): how a command and a request are built, and how the
-- payload of a reply is found in what has been read.
use muto_rs_deployment_test.Prelude.{
  ℕ, ◌+◌, ◌-◌, ◌%◌, Bool, true, false, ◌&&◌, Option, none, some, List, [], ◌∷◌, ◌++◌, map, ltb, leb,
  eqb, length, get_elem?, take, drop, codes_eq, if◌then◌else◌,
}
use muto_rs_deployment_test.Result.{Result, ok, value_error, guard, ◌>>◌}
use muto_rs_deployment_test.Serial.Bytes.{ℤ, low_byte, sum}

abbrev pub write_command : ℕ
write_command = 0x01

abbrev pub read_command : ℕ
read_command = 0x02

abbrev pub data_return_command : ℕ
data_return_command = 0x12

-- `255 - (...) % 256`
abbrev pub checksum_of : ℕ → ℕ
checksum_of n = 255 - n % 256

-- a frame around a body of bytes
abbrev pub frame : ℕ → ℕ → List ℕ → List ℕ
frame instruction address body =
    0x55
    ∷ 0x00
    ∷ (length body + 8)
    ∷ instruction
    ∷ address
    ∷ (body ++ checksum_of (length body + 8 + instruction + address + sum body) ∷ 0x00 ∷ 0xAA ∷ [])

-- `bytes(...)`, which raises for a number that is no byte: here the length or the address
abbrev pub as_bytes : ℕ → ℕ → List ℕ → Result (List ℕ)
as_bytes size address xs = do
  guard (ltb size 256 && ltb address 256) (value_error "bytes must be in range(0, 256)")
  ok xs

-- the packet of `Muto._send` and `Servo._command_packet`
unfoldable pub command_packet : ℕ → List ℤ → Result (List ℕ)
command_packet address values =
    as_bytes (length (map low_byte values) + 8) address
      (frame write_command address (map low_byte values))

-- the packet of `Muto._read`: the request for so many bytes of an address
unfoldable pub read_request : ℕ → ℕ → Result (List ℕ)
read_request address parameter = do
  guard (ltb parameter 256) (value_error "bytes must be in range(0, 256)")
  as_bytes 9 address (frame read_command address (parameter ∷ []))

abbrev pub is_byte_at : ℕ → ℕ → List ℕ → Bool
is_byte_at i b xs = elim (get_elem? xs i) [ none ↦ false | some x ↦ eqb x b ]

abbrev pub expects : Option ℕ → List ℕ → Bool
expects none payload = true
expects (some n) payload = eqb (length payload) n

-- the checks of one start, on the bytes from there, with the length that the frame claims
abbrev pub packet_payload : ℕ → ℕ → Option ℕ → List ℕ → Option (List ℕ)
packet_payload size address expected xs =
    let packet = take size xs in
    let payload = drop 5 (take (size - 3) packet) in
    if leb 8 size
      && (leb size (length xs)
          && (codes_eq (drop (size - 2) packet) (0x00 ∷ 0xAA ∷ [])
              && (is_byte_at 3 data_return_command packet
                  && (is_byte_at 4 address packet
                      && (is_byte_at (size - 3)
                            (checksum_of (sum (drop 2 (take (size - 3) packet)))) packet
                          && expects expected payload)))))
    then some payload
    else none

abbrev pub frame_at : ℕ → Option ℕ → List ℕ → Option (List ℕ)
frame_at address expected (a ∷ b ∷ size ∷ xs) =
    if eqb a 0x55 && eqb b 0x00
    then packet_payload size address expected (a ∷ b ∷ size ∷ xs)
    else none
frame_at address expected _ = none

abbrev pub first_of : Option (List ℕ) → Option (List ℕ) → Option (List ℕ)
first_of (some payload) rest = some payload
first_of none rest = rest

-- `_extract_payload`: the starts that leave room for the shortest frame, in their order
unfoldable pub extract_payload : ℕ → Option ℕ → List ℕ → Option (List ℕ)
unfolding codes_eq
extract_payload address expected [] = none
extract_payload address expected (b ∷ bs) =
    let rest = extract_payload address expected bs in
    if leb 8 (length (b ∷ bs)) then first_of (frame_at address expected (b ∷ bs)) rest else none

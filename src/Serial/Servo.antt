-- ===== src/Serial/Servo.antt =====
-- `Servo` (core/servo.py) and the torque and buzzer commands of `Muto` (core/MutoLibCore.py): the
-- checks of a command, and what is written to the port.
use muto_rs_deployment_test.Prelude.{
  ℕ, ◌+◌, ◌/◌, ◌%◌, Bool, false, ◌&&◌, List, [], ◌∷◌, ◌++◌, leb, eqb, length, all, map,
  if◌then◌else◌,
}
use muto_rs_deployment_test.Result.{Result, ok, err, value_error, guard, ◌>>=◌, ◌>>◌}
use muto_rs_deployment_test.Serial.Bytes.{ℤ, low_byte, within, clamp}
use muto_rs_deployment_test.Serial.Frames.{command_packet}

-- `lo <= value <= hi` for bounds that are not negative
abbrev pub between : ℕ → ℕ → ℤ → Bool
between lo hi (ℤ.pos n) = leb lo n && leb n hi
between lo hi (ℤ.negsuc n) = false

-- the two bytes of `struct.pack('>h', max(0, min(2000, int(runtime))))`
abbrev pub runtime_bytes : ℤ → List ℤ
runtime_bytes runtime = let r = clamp 2000 runtime in ℤ.pos (r / 256) ∷ ℤ.pos (r % 256) ∷ []

abbrev pub masked : ℤ → ℤ
masked angle = ℤ.pos (low_byte angle)

-- `_leg_packet`
unfoldable pub leg_packet : ℤ → List ℤ → ℤ → Result (List ℕ)
unfolding command_packet
leg_packet leg_id angles runtime = do
  guard (between 1 6 leg_id) (value_error "leg_id must be in [1, 6]")
  guard (eqb (length angles) 3) (value_error "angles must contain exactly three values")
  guard (all (within 90 90) angles) (value_error "leg angles must be in [-90, 90]")
  command_packet 0x41 (leg_id ∷ (map masked angles ++ runtime_bytes runtime))

-- the packet of `motor`
unfoldable pub motor_packet : ℤ → ℤ → ℤ → Result (List ℕ)
unfolding command_packet
motor_packet servo_id angle runtime = do
  guard (between 1 18 servo_id) (value_error "servo_id must be in [1, 18]")
  guard (within 90 90 angle) (value_error "servo angle must be in [-90, 90]")
  command_packet 0x40 (servo_id ∷ masked angle ∷ runtime_bytes runtime)

-- What has been written to the port. A write of the port itself does not fail here.
abbrev pub Written : Type 0
Written = List ℕ

abbrev pub write : Written → Result (List ℕ) → Result (Unit {0}) × Written
write port (ok bytes) = (ok tt, port ++ bytes)
write port (err e) = (err e, port)

-- all the packets of a batch, in their order, or what the first bad command raises
unfoldable pub leg_packets : List (ℤ × List ℤ) → ℤ → Result (List ℕ)
unfolding leg_packet
leg_packets [] runtime = ok []
leg_packets ((leg_id, angles) ∷ commands) runtime = do
  packet ← leg_packet leg_id angles runtime
  rest ← leg_packets commands runtime
  ok (packet ++ rest)

-- `leg_batch`; an empty batch writes nothing
unfoldable pub leg_batch : List (ℤ × List ℤ) → ℤ → Written → Result (Unit {0}) × Written
unfolding leg_packets
leg_batch commands runtime port = write port (leg_packets commands runtime)

-- `leg` and `motor`
unfoldable pub leg : ℤ → List ℤ → ℤ → Written → Result (Unit {0}) × Written
unfolding leg_packet
leg leg_id angles runtime port = write port (leg_packet leg_id angles runtime)

unfoldable pub motor : ℤ → ℤ → ℤ → Written → Result (Unit {0}) × Written
unfolding motor_packet
motor servo_id angle runtime port = write port (motor_packet servo_id angle runtime)

-- a zero-based index of a leg, as its one-based number
abbrev pub leg_number : ℤ → Result ℤ
leg_number (ℤ.pos n) = do
  guard (leb n 5) (value_error "leg_index must be in [0, 5]")
  ok (ℤ.pos (n + 1))
leg_number (ℤ.negsuc n) = err (value_error "leg_index must be in [0, 5]")

unfoldable pub normalized : List (ℤ × List ℤ) → Result (List (ℤ × List ℤ))
normalized [] = ok []
normalized ((leg_index, angles) ∷ commands) = do
  leg_id ← leg_number leg_index
  rest ← normalized commands
  ok ((leg_id, angles) ∷ rest)

abbrev pub batch_of : Written → Result (List (ℤ × List ℤ)) → Result (Unit {0}) × Written
batch_of port (ok commands) = leg_batch commands (ℤ.pos 0) port
batch_of port (err e) = (err e, port)

-- `set_leg_angles_batch`
unfoldable pub set_leg_angles_batch : List (ℤ × List ℤ) → Written → Result (Unit {0}) × Written
unfolding normalized leg_batch
set_leg_angles_batch commands port = batch_of port (normalized commands)

-- `_set_servo_torque`: the number 0 stands for all servos, and one that is out of range for none
unfoldable pub set_servo_torque : ℕ → ℤ → Written → Result (Unit {0}) × Written
unfolding command_packet
set_servo_torque command (ℤ.pos n) port =
    if leb n 18
    then write port (command_packet command (ℤ.pos (if eqb n 0 then 0xFE else n) ∷ []))
    else (ok tt, port)
set_servo_torque command (ℤ.negsuc n) port = (ok tt, port)

-- `buzzer`
unfoldable pub buzzer : ℤ → Written → Result (Unit {0}) × Written
unfolding command_packet
buzzer timeout port = write port (command_packet 0x18 (ℤ.pos (clamp 255 timeout) ∷ []))

-- ===== src/Serial/Tests.antt =====
-- Frames of the serial protocol (core/MutoLibCore.py, core/servo.py), and the theorems at them.
use muto_rs_deployment_test.Prelude.{ℕ, some, List, [], ◌∷◌, ◌++◌, map, ◌≡◌, refl, ◌⊎◌}
use muto_rs_deployment_test.Result.{Failure, ok, err}
use muto_rs_deployment_test.Serial.Bytes.{ℤ, low_byte}
use muto_rs_deployment_test.Serial.Frames.{read_request, extract_payload}
use muto_rs_deployment_test.Serial.Servo.{leg_batch, set_servo_torque, buzzer}
use muto_rs_deployment_test.Serial.Phase.{IsPhase, leg_batch-writes}
use muto_rs_deployment_test.Serial.RoundTrip.{reply, extract_payload-reply}
use muto_rs_deployment_test.Serial.Motors.{motor_angle_command, read_motor, read_motor-reply}
use muto_rs_deployment_test.Serial.Found.{IsThere, extract_payload-IsThere}

-- the reply of seven bytes to a request of the attitude
abbrev attitude : List ℕ
attitude = 0x00 ∷ 0x64 ∷ 0xFF ∷ 0x9C ∷ 0x23 ∷ 0x28 ∷ 0x1E ∷ []

torque_test :
    (set_servo_torque 0x26 (ℤ.pos 0) []).1 ≡ 0x55 ∷ 0 ∷ 9 ∷ 1 ∷ 0x26 ∷ 0xFE ∷ 0xD1 ∷ 0 ∷ 0xAA ∷ []
unfolding set_servo_torque
torque_test = refl

buzzer_test : (buzzer (ℤ.pos 999) []).1 ≡ 0x55 ∷ 0 ∷ 9 ∷ 1 ∷ 0x18 ∷ 0xFF ∷ 0xDE ∷ 0 ∷ 0xAA ∷ []
unfolding buzzer
buzzer_test = refl

request_test : read_request 0x60 7 ≡ ok (0x55 ∷ 0 ∷ 9 ∷ 2 ∷ 0x60 ∷ 7 ∷ 0x8D ∷ 0 ∷ 0xAA ∷ [])
unfolding read_request
request_test = refl

extract_payload-reply_example :
    extract_payload 0x60 (some 7) ((1 ∷ 2 ∷ []) ++ (reply 0x60 attitude ++ (9 ∷ [])))
    ≡ some attitude
extract_payload-reply_example =
    extract_payload-reply (1 ∷ 2 ∷ []) 0x60 attitude (9 ∷ []) (some 7) (refl, (refl, tt)) refl

abbrev stand : List (ℤ × List ℤ)
stand =
    (ℤ.pos 1, ℤ.pos 0 ∷ ℤ.pos 30 ∷ ℤ.negsuc 59 ∷ [])
    ∷ (ℤ.pos 2, ℤ.pos 0 ∷ ℤ.pos 30 ∷ ℤ.negsuc 59 ∷ [])
    ∷ []

leg_batch-writes_example :
    ((e : Failure) × (leg_batch stand (ℤ.pos 100) [] ≡ (err e, [])))
    ⊎ ((bytes : List ℕ) × (leg_batch stand (ℤ.pos 100) [] ≡ (ok tt, [] ++ bytes))
        × IsPhase stand bytes)
leg_batch-writes_example = leg_batch-writes stand (ℤ.pos 100) []

abbrev received : List ℕ
received = (1 ∷ 2 ∷ []) ++ (reply 0x60 attitude ++ (9 ∷ []))

extract_payload-IsThere_example : IsThere 0x60 (some 7) received attitude
unfolding extract_payload
extract_payload-IsThere_example = extract_payload-IsThere 0x60 (some 7) received refl

abbrev joints : List ℤ
joints =
    let leg : List ℤ = ℤ.pos 0 ∷ ℤ.pos 30 ∷ ℤ.negsuc 59 ∷ [] in
    leg ++ (leg ++ (leg ++ (leg ++ (leg ++ leg))))

read_motor-reply_example :
    read_motor ((1 ∷ []) ++ (reply motor_angle_command (map low_byte joints) ++ (9 ∷ [])))
    ≡ some joints
read_motor-reply_example = read_motor-reply (1 ∷ []) joints (9 ∷ []) (refl, tt) refl refl

-- ===== src/Serial/Motors.antt =====
-- `Muto.read_motor` (core/MutoLibCore.py): the angles of the joints in what has been read.
use muto_rs_deployment_test.Prelude.{
  ℕ, zero, suc, true, Option, none, some, List, [], ◌∷◌, ◌++◌, map, ltb, length, take, all, All,
  ◌≡◌, refl, ap, ◌∙◌, arith, if◌then◌else◌,
}
use muto_rs_deployment_test.Serial.Bytes.{ℤ, low_byte, signed_byte, within, signed_byte-low_byte}
use muto_rs_deployment_test.Serial.Frames.{extract_payload}
use muto_rs_deployment_test.Serial.RoundTrip.{reply, IsNoise, extract_payload-reply}

abbrev pub motor_angle_command : ℕ
motor_angle_command = 0x50

-- the angles of a payload, if it is long enough
abbrev pub angles_of : Option (List ℕ) → Option (List ℤ)
angles_of none = none
angles_of (some payload) =
    if ltb (length payload) 18 then none else some (map signed_byte (take 18 payload))

-- `read_motor`, of the bytes that were read
unfoldable pub read_motor : List ℕ → Option (List ℤ)
unfolding extract_payload
read_motor received = angles_of (extract_payload motor_angle_command (some 18) received)

length-low_bytes : (zs : List ℤ) → length (map low_byte zs) ≡ length zs
length-low_bytes [] = refl
length-low_bytes (z ∷ zs) = ap suc (length-low_bytes zs)

take-all {ℓ} : {A : Type ℓ} (n : ℕ) (xs : List A) → length xs ≡ n → take n xs ≡ xs
take-all zero [] h = refl
take-all (suc n) [] h = refl
take-all zero (x ∷ xs) h = absurd (omega (arith, h))
take-all (suc n) (x ∷ xs) h = ap (◌∷◌ x) (take-all n xs (omega (arith, h)))

signed-low_bytes :
    (zs : List ℤ) → all (within 128 127) zs ≡ true → map signed_byte (map low_byte zs) ≡ zs
signed-low_bytes [] h = refl
signed-low_bytes (z ∷ zs) h =
    rw (signed_byte-low_byte z (ground (arith, h)), signed-low_bytes zs (ground (arith, h))) refl

-- After bytes none of which is the header, and before any others, the controller's reply with the
-- angles of the eighteen joints, each from -128 to 127 and as a byte, is read back as those angles.
pub read_motor-reply :
    (noise : List ℕ) (angles : List ℤ) (rest : List ℕ)
    → All IsNoise noise
    → length angles ≡ 18
    → all (within 128 127) angles ≡ true
    → read_motor (noise ++ (reply motor_angle_command (map low_byte angles) ++ rest)) ≡ some angles
unfolding read_motor
read_motor-reply noise angles rest quiet eighteen inside =
    let size = length-low_bytes angles ∙ eighteen in
    rw
      (
        extract_payload-reply noise motor_angle_command (map low_byte angles) rest (some 18) quiet
            (rw size refl),
        size,
        take-all 18 (map low_byte angles) size,
        signed-low_bytes angles inside,
      )
      refl

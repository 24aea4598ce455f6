-- ===== src/Serial/Phase.antt =====
-- A gait phase is written whole or not at all (core/servo.py).
use muto_rs_deployment_test.Prelude.{
  ℕ, ◌+◌, ◌*◌, true, List, [], ◌∷◌, ◌++◌, All, length, all, map, length-append, ◌≡◌, refl, arith,
  ◌⊎◌, inl, inr,
}
use mathlib.Core.Path.{subst}
use muto_rs_deployment_test.Result.{Failure, Result, ok, err, sequence-returns}
use muto_rs_deployment_test.Serial.Bytes.{ℤ, low_byte, within, IsByte, low_byte-IsByte, sum}
use muto_rs_deployment_test.Serial.Frames.{frame, checksum_of, write_command}
use muto_rs_deployment_test.Serial.Servo.{
  Written, between, masked, runtime_bytes, leg_packet, leg_packets, leg_batch,
}

-- a command that the servos take: a leg of the six, and three angles of at most 90 degrees
abbrev pub IsCommand : ℤ × List ℤ → Type 0
IsCommand (leg_id, angles) =
    (between 1 6 leg_id ≡ true) × (length angles ≡ 3) × (all (within 90 90) angles ≡ true)

-- the frame of a leg command
pub record IsLegFrame (bytes : List ℕ) : Type 0 where
  pub size : length bytes ≡ 14
  pub bytes_only : All IsByte bytes

All-append : (xs ys : List ℕ) → All IsByte xs → All IsByte ys → All IsByte (xs ++ ys)
All-append [] ys h k = k
All-append (x ∷ xs) ys h k = (h.0, All-append xs ys h.1 k)

checksum_of-IsByte : (n : ℕ) → IsByte (checksum_of n)
checksum_of-IsByte n = omega arith

frame-bytes :
    (instruction address : ℕ) (body : List ℕ)
    → IsByte instruction
    → IsByte address
    → IsByte (length body + 8)
    → All IsByte body
    → All IsByte (frame instruction address body)
frame-bytes instruction address body hi ha hl hb =
    let tail : All IsByte
        (checksum_of (length body + 8 + instruction + address + sum body) ∷ 0x00 ∷ 0xAA ∷ []) =
      (checksum_of-IsByte _, (omega arith, (omega arith, tt))) in
    (omega arith, (omega arith, (hl, (hi, (ha, All-append body _ hb tail)))))

map-low_byte_bytes : (zs : List ℤ) → All IsByte (map low_byte zs)
map-low_byte_bytes [] = tt
map-low_byte_bytes (z ∷ zs) = (low_byte-IsByte z, map-low_byte_bytes zs)

leg_values : ℤ → ℤ → ℤ → ℤ → ℤ → List ℤ
leg_values leg_id a b c runtime = leg_id ∷ masked a ∷ masked b ∷ masked c ∷ runtime_bytes runtime

leg_packet-lem :
    (leg_id a b c runtime : ℤ) {bytes : List ℕ}
    → leg_packet leg_id (a ∷ b ∷ c ∷ []) runtime ≡ ok bytes
    → (IsCommand (leg_id, a ∷ b ∷ c ∷ []))
      × (frame write_command 0x41 (map low_byte (leg_values leg_id a b c runtime)) ≡ bytes)
unfolding leg_packet leg_values
leg_packet-lem leg_id a b c runtime e = ground arith

leg_packet-IsLegFrame :
    (leg_id a b c runtime : ℤ) {bytes : List ℕ}
    → frame write_command 0x41 (map low_byte (leg_values leg_id a b c runtime)) ≡ bytes
    → IsLegFrame bytes
unfolding leg_values
leg_packet-IsLegFrame leg_id a b c runtime e = subst IsLegFrame e (record {
  size = refl;
  bytes_only =
      frame-bytes write_command 0x41 (map low_byte (leg_values leg_id a b c runtime)) (omega arith)
        (omega arith) (omega arith) (map-low_byte_bytes (leg_values leg_id a b c runtime));
})

leg_packet-length :
    (leg_id : ℤ) (angles : List ℤ) (runtime : ℤ) {bytes : List ℕ}
    → leg_packet leg_id angles runtime ≡ ok bytes
    → length angles ≡ 3
unfolding leg_packet
leg_packet-length leg_id angles runtime e = ground arith

leg_packet-ok :
    (leg_id : ℤ) (angles : List ℤ) (runtime : ℤ) {bytes : List ℕ}
    → leg_packet leg_id angles runtime ≡ ok bytes
    → (IsCommand (leg_id, angles)) × IsLegFrame bytes
leg_packet-ok leg_id (a ∷ b ∷ c ∷ []) runtime e =
    let (good, made) = leg_packet-lem leg_id a b c runtime e in
    (good, leg_packet-IsLegFrame leg_id a b c runtime made)
leg_packet-ok leg_id angles runtime e =
    absurd (omega (arith, leg_packet-length leg_id angles runtime e))

-- what a batch of so many commands writes
pub record IsPhase (commands : List (ℤ × List ℤ)) (bytes : List ℕ) : Type 0 where
  pub valid : All IsCommand commands
  pub size : length bytes ≡ 14 * length commands
  pub bytes_only : All IsByte bytes

ok-inverse : {xs ys : List ℕ} → ◌≡◌ {A = Result (List ℕ)} (ok xs) (ok ys) → xs ≡ ys
ok-inverse e = cc

one_more-IsPhase :
    (c : ℤ × List ℤ) (commands : List (ℤ × List ℤ)) (packet more : List ℕ)
    → IsCommand c
    → IsLegFrame packet
    → IsPhase commands more
    → IsPhase (c ∷ commands) (packet ++ more)
one_more-IsPhase c commands packet more good framed phase = record {
  valid = (good, phase.valid);
  size = omega (arith, length-append {0} packet more, framed.size, phase.size);
  bytes_only = All-append packet more framed.bytes_only phase.bytes_only;
}

leg_packets-IsPhase :
    (commands : List (ℤ × List ℤ)) (runtime : ℤ) {bytes : List ℕ}
    → leg_packets commands runtime ≡ ok bytes
    → IsPhase commands bytes
unfolding leg_packets
leg_packets-IsPhase [] runtime e =
    subst (IsPhase []) (ok-inverse e) (record { valid = tt; size = refl; bytes_only = tt })
leg_packets-IsPhase ((leg_id, angles) ∷ commands) runtime e =
    let (packet, made, rest) = sequence-returns (leg_packet leg_id angles runtime) _ e in
    let (more, others, last) = sequence-returns (leg_packets commands runtime) _ rest in
    let (good, framed) = leg_packet-ok leg_id angles runtime made in
    subst (IsPhase ((leg_id, angles) ∷ commands)) (ok-inverse last) (
      one_more-IsPhase (leg_id, angles) commands packet more good framed
        (leg_packets-IsPhase commands runtime others))

-- A batch of leg commands is written whole or not at all: it raises and writes nothing, or every
-- command names one of the six legs with three angles from -90 to 90, and what is written after what
-- stood there are bytes, fourteen for each command.
pub leg_batch-writes :
    (commands : List (ℤ × List ℤ)) (runtime : ℤ) (port : Written)
    → ((e : Failure) × (leg_batch commands runtime port ≡ (err e, port)))
      ⊎ ((bytes : List ℕ) × (leg_batch commands runtime port ≡ (ok tt, port ++ bytes))
          × IsPhase commands bytes)
unfolding leg_batch
leg_batch-writes commands runtime port = written (leg_packets commands runtime) refl
  where
    written :
        (r : Result (List ℕ))
        → leg_packets commands runtime ≡ r
        → ((e : Failure) × (leg_batch commands runtime port ≡ (err e, port)))
          ⊎ ((bytes : List ℕ) × (leg_batch commands runtime port ≡ (ok tt, port ++ bytes))
              × IsPhase commands bytes)
    written (err e) made = inl (e, rw made refl)
    written (ok bytes) made = inr (bytes, rw made refl, leg_packets-IsPhase commands runtime made)

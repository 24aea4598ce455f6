-- ===== src/Serial/RoundTrip.antt =====
-- What the controller frames, the reader finds (core/MutoLibCore.py).
use muto_rs_deployment_test.Prelude.{
  ℕ, suc, ◌+◌, ◌-◌, ◌≤◌, true, false, Option, none, some, List, [], ◌∷◌, ◌++◌, All, length, take,
  drop, get_elem?, codes_eq, eqb, leb, length-append, take-append_length, ◌≡◌, refl, ap, ◌∙◌, arith,
}
use muto_rs_deployment_test.Serial.Bytes.{sum}
use muto_rs_deployment_test.Serial.Frames.{
  data_return_command, checksum_of, frame, packet_payload, frame_at, extract_payload, is_byte_at,
  expects,
}

-- the reply of the controller to a request, by its published protocol
abbrev pub reply : ℕ → List ℕ → List ℕ
reply address payload = frame data_return_command address payload

le→leb : {a b : ℕ} → a ≤ b → leb a b ≡ true
le→leb h = ground arith

eqb_same : (a : ℕ) → eqb a a ≡ true
eqb_same a = ground arith

is_byte_at-same : (i x : ℕ) (xs : List ℕ) → get_elem? xs i ≡ some x → is_byte_at i x xs ≡ true
is_byte_at-same i x xs h = rw (h, is_byte_at) (eqb_same x)

five : (n : ℕ) → n + 5 ≡ suc (suc (suc (suc (suc n))))
five n = omega arith

module _ {A : Type 0} where
  pub take-five :
      (n m : ℕ) (a b c d e : A) (xs : List A)
      → n ≡ m + 5
      → take n (a ∷ b ∷ c ∷ d ∷ e ∷ xs) ≡ a ∷ b ∷ c ∷ d ∷ e ∷ take m xs
  take-five n m a b c d e xs h = rw (h, five m) refl

  pub drop-five :
      (n m : ℕ) (a b c d e : A) (xs : List A)
      → n ≡ m + 5
      → drop n (a ∷ b ∷ c ∷ d ∷ e ∷ xs) ≡ drop m xs
  drop-five n m a b c d e xs h = rw (h, five m) refl

  pub get_elem?-five :
      (n m : ℕ) (a b c d e : A) (xs : List A)
      → n ≡ m + 5
      → get_elem? (a ∷ b ∷ c ∷ d ∷ e ∷ xs) n ≡ get_elem? xs m
  get_elem?-five n m a b c d e xs h = rw (h, five m) refl

  drop-append_more :
      (xs : List A) (y : A) (ys : List A) (n : ℕ) → n ≡ length xs + 1 → drop n (xs ++ y ∷ ys) ≡ ys
  drop-append_more [] y ys n h = rw h refl
  drop-append_more (x ∷ xs) y ys n h =
      let e : n ≡ suc (length xs + 1) = omega (arith, h) in
      rw e (drop-append_more xs y ys (length xs + 1) refl)

  get_elem?-append :
      (xs : List A) (y : A) (ys : List A) → get_elem? (xs ++ y ∷ ys) (length xs) ≡ some y
  get_elem?-append [] y ys = refl
  get_elem?-append (x ∷ xs) y ys = get_elem?-append xs y ys

  take-append_exact : (xs ys : List A) (n : ℕ) → n ≡ length xs → take n (xs ++ ys) ≡ xs
  take-append_exact xs ys n h = rw h (take-append_length xs ys)

reply-length :
    (address : ℕ) (payload rest : List ℕ)
    → length (reply address payload ++ rest) ≡ length payload + 8 + length rest
reply-length address payload rest =
    let check : ℕ =
      checksum_of (length payload + 8 + data_return_command + address + sum payload) in
    omega (
      arith,
      length-append {0} (payload ++ check ∷ 0x00 ∷ 0xAA ∷ []) rest,
      length-append {0} payload (check ∷ 0x00 ∷ 0xAA ∷ []),
    )

-- The reply at the start of what was read is found there, and its payload is read back.
packet_payload-reply :
    (address : ℕ) (payload rest : List ℕ) (expected : Option ℕ)
    → expects expected payload ≡ true
    → packet_payload (length payload + 8) address expected (reply address payload ++ rest)
      ≡ some payload
unfolding codes_eq
packet_payload-reply address payload rest expected fits =
    let size : ℕ = length payload + 8 in
    let check : ℕ = checksum_of (size + data_return_command + address + sum payload) in
    let tail : List ℕ = payload ++ check ∷ 0x00 ∷ 0xAA ∷ [] in
    let whole : take size (reply address payload ++ rest) ≡ reply address payload =
      take-five size (length payload + 3) _ _ _ _ _ (tail ++ rest) (omega arith)
      ∙ ap (λ (l : List ℕ). 0x55 ∷ 0x00 ∷ size ∷ data_return_command ∷ address ∷ l)
          (take-append_exact tail rest (length payload + 3)
            (omega (arith, length-append {0} payload (check ∷ 0x00 ∷ 0xAA ∷ [])))) in
    let body : take (size - 3) (reply address payload)
        ≡ 0x55 ∷ 0x00 ∷ size ∷ data_return_command ∷ address ∷ payload =
      take-five (size - 3) (length payload) _ _ _ _ _ tail (omega arith)
      ∙ ap (λ (l : List ℕ). 0x55 ∷ 0x00 ∷ size ∷ data_return_command ∷ address ∷ l)
          (take-append_length payload (check ∷ 0x00 ∷ 0xAA ∷ [])) in
    let ends : drop (size - 2) (reply address payload) ≡ 0x00 ∷ 0xAA ∷ [] =
      drop-five (size - 2) (length payload + 1) _ _ _ _ _ tail (omega arith)
      ∙ drop-append_more payload check (0x00 ∷ 0xAA ∷ []) (length payload + 1) refl in
    let sums : get_elem? (reply address payload) (size - 3) ≡ some check =
      get_elem?-five (size - 3) (length payload) _ _ _ _ _ tail (omega arith)
      ∙ get_elem?-append payload check (0x00 ∷ 0xAA ∷ []) in
    let total : size + (data_return_command + (address + sum payload))
        ≡ size + data_return_command + address + sum payload =
      omega arith in
    let room : leb size (length (reply address payload ++ rest)) ≡ true =
      le→leb (omega (arith, reply-length address payload rest)) in
    let shortest : leb 8 size ≡ true = le→leb (omega arith) in
    rw
      (
        shortest,
        room,
        whole,
        body,
        ends,
        eqb_same address,
        total,
        is_byte_at-same _ check _ sums,
        fits,
      )
      refl

no_frame-at :
    (address : ℕ) (expected : Option ℕ) (a : ℕ) (xs : List ℕ)
    → eqb a 0x55 ≡ false
    → frame_at address expected (a ∷ xs) ≡ none
no_frame-at address expected a [] h = refl
no_frame-at address expected a (b ∷ []) h = refl
no_frame-at address expected a (b ∷ size ∷ xs) h = rw h refl

-- no byte that could start a frame
abbrev pub IsNoise : ℕ → Type 0
IsNoise b = eqb b 0x55 ≡ false

-- After bytes none of which is the header, and before any others, a reply of the controller is found
-- and its payload is returned, where it has the length that the reader expects.
pub extract_payload-reply :
    (noise : List ℕ) (address : ℕ) (payload rest : List ℕ) (expected : Option ℕ)
    → All IsNoise noise
    → expects expected payload ≡ true
    → extract_payload address expected (noise ++ (reply address payload ++ rest)) ≡ some payload
unfolding extract_payload
extract_payload-reply [] address payload rest expected quiet fits =
    let long : leb 8 (length (reply address payload ++ rest)) ≡ true =
      le→leb (omega (arith, reply-length address payload rest)) in
    rw (long, packet_payload-reply address payload rest expected fits) refl
extract_payload-reply (b ∷ noise) address payload rest expected quiet fits =
    let found = noise ++ (reply address payload ++ rest) in
    let long : leb 8 (length (b ∷ found)) ≡ true = le→leb (
      omega (
        arith,
        length-append {0} noise (reply address payload ++ rest),
        reply-length address payload rest,
      )) in
    rw
      (
        long,
        no_frame-at address expected b found quiet.0,
        extract_payload-reply noise address payload rest expected quiet.1 fits,
      )
      refl

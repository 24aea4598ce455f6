-- ===== src/Serial/Found.antt =====
-- What the reader returns stands in what was read, as a frame (core/MutoLibCore.py).
use muto_rs_deployment_test.Prelude.{
  ℕ, zero, suc, ◌+◌, ◌-◌, ◌≤◌, Bool, true, false, ◌&&◌, Option, none, some, List, [], ◌∷◌, ◌++◌,
  length, take, drop, get_elem?, codes_eq, eqb, leb, ◌≡◌, refl, sym, ap, ◌∙◌, arith, if◌then◌else◌,
  ◌⊎◌, inl, inr,
}
use muto_rs_deployment_test.Serial.Bytes.{sum}
use muto_rs_deployment_test.Serial.Frames.{
  data_return_command, checksum_of, packet_payload, frame_at, first_of, extract_payload, is_byte_at,
  expects,
}
use muto_rs_deployment_test.Serial.RoundTrip.{reply, take-five, drop-five, get_elem?-five}
use mathlib.Core.Path.{subst}

codes_eq-eq : (xs ys : List ℕ) → codes_eq xs ys ≡ true → xs ≡ ys
unfolding codes_eq
codes_eq-eq [] [] h = refl
codes_eq-eq [] (y ∷ ys) h = cc
codes_eq-eq (x ∷ xs) [] h = cc
codes_eq-eq (x ∷ xs) (y ∷ ys) h = ground (arith, codes_eq-eq xs ys)

both_true : (a b : Bool) → (a && b) ≡ true → (a ≡ true) × (b ≡ true)
both_true true b h = (refl, h)
both_true false b h = cc

module _ {A : Type 0} where
  taken_if : (c : Bool) {x y : A} → (if c then some x else none) ≡ some y → (c ≡ true) × (x ≡ y)
  taken_if true h = (refl, cc)
  taken_if false h = cc

  take-drop_split : (n : ℕ) (xs : List A) → take n xs ++ drop n xs ≡ xs
  take-drop_split zero xs = refl
  take-drop_split (suc n) [] = refl
  take-drop_split (suc n) (x ∷ xs) = ap (λ (l : List A). x ∷ l) (take-drop_split n xs)

  get_elem?-split :
      (xs : List A) (n : ℕ) {x : A}
      → get_elem? xs n ≡ some x
      → (xs ≡ take n xs ++ x ∷ drop (suc n) xs) × (length (take n xs) ≡ n)
  get_elem?-split [] n h = cc
  get_elem?-split (y ∷ xs) zero h = (cc, refl)
  get_elem?-split (y ∷ xs) (suc n) h =
      let (e, l) = get_elem?-split xs n h in (ap (λ (l : List A). y ∷ l) e, omega (arith, l))

is_byte_at-eq : (i b : ℕ) (xs : List ℕ) → is_byte_at i b xs ≡ true → get_elem? xs i ≡ some b
is_byte_at-eq i b xs h = ground arith

eight_less : (n : ℕ) → leb 8 n ≡ true → n ≡ n - 8 + 8
eight_less n h = ground arith

eqb-eq : (a b : ℕ) → eqb a b ≡ true → a ≡ b
eqb-eq a b h = ground arith

-- What the checks of a start say of the bytes after the five of its head.
record Body (size address : ℕ) (c d : ℕ) (zs payload : List ℕ) (expected : Option ℕ) : Type 0 where
  m : ℕ
  size_is : size ≡ m + 8
  instruction : c ≡ data_return_command
  address_is : d ≡ address
  payload_is : take m (take (m + 3) zs) ≡ payload
  ends : drop (m + 1) (take (m + 3) zs) ≡ 0x00 ∷ 0xAA ∷ []
  sums :
      get_elem? (take (m + 3) zs) m
      ≡ some (checksum_of (size + (c + (d + sum (take m (take (m + 3) zs))))))
  fits : expects expected payload ≡ true

packet_payload-Body :
    (address : ℕ) (expected : Option ℕ) (size c d : ℕ) (zs : List ℕ) {payload : List ℕ}
    → packet_payload size address expected (0x55 ∷ 0x00 ∷ size ∷ c ∷ d ∷ zs) ≡ some payload
    → Body size address c d zs payload expected
packet_payload-Body address expected size c d zs {payload} h =
    let xs : List ℕ = 0x55 ∷ 0x00 ∷ size ∷ c ∷ d ∷ zs in
    let packet : List ℕ = take size xs in
    let q1 : Bool = leb size (length xs) in
    let q2 : Bool = codes_eq (drop (size - 2) packet) (0x00 ∷ 0xAA ∷ []) in
    let q3 : Bool = is_byte_at 3 data_return_command packet in
    let q4 : Bool = is_byte_at 4 address packet in
    let q5 : Bool =
      is_byte_at (size - 3) (checksum_of (sum (drop 2 (take (size - 3) packet)))) packet in
    let q6 : Bool = expects expected (drop 5 (take (size - 3) packet)) in
    let (cond, p) = taken_if (leb 8 size && (q1 && (q2 && (q3 && (q4 && (q5 && q6)))))) h in
    let (shortest, k1) = both_true (leb 8 size) (q1 && (q2 && (q3 && (q4 && (q5 && q6))))) cond in
    let (room, k2) = both_true q1 (q2 && (q3 && (q4 && (q5 && q6)))) k1 in
    let (trailer, k3) = both_true q2 (q3 && (q4 && (q5 && q6))) k2 in
    let (at3, k4) = both_true q3 (q4 && (q5 && q6)) k3 in
    let (at4, k5) = both_true q4 (q5 && q6) k4 in
    let (sumq, fits) = both_true q5 q6 k5 in
    let m : ℕ = size - 8 in
    let s : size ≡ m + 8 = eight_less size shortest in
    let whole : take size xs ≡ 0x55 ∷ 0x00 ∷ size ∷ c ∷ d ∷ take (m + 3) zs =
      take-five size (m + 3) _ _ _ _ _ zs (omega (arith, s)) in
    let body : take (size - 3) (take size xs)
        ≡ 0x55 ∷ 0x00 ∷ size ∷ c ∷ d ∷ take m (take (m + 3) zs) =
      ap (λ (l : List ℕ). take (size - 3) l) whole
      ∙ take-five (size - 3) m _ _ _ _ _ (take (m + 3) zs) (omega (arith, s)) in
    record {
      m = m;
      size_is = s;
      instruction =
          eqb-eq c data_return_command
            (subst (λ (l : List ℕ). is_byte_at 3 data_return_command l ≡ true) whole at3);
      address_is =
          eqb-eq d address (subst (λ (l : List ℕ). is_byte_at 4 address l ≡ true) whole at4);
      payload_is = ap (λ (l : List ℕ). drop 5 l) (sym body) ∙ p;
      ends =
          sym (drop-five (size - 2) (m + 1) _ _ _ _ _ (take (m + 3) zs) (omega (arith, s)))
          ∙ ap (λ (l : List ℕ). drop (size - 2) l) (sym whole)
          ∙ codes_eq-eq (drop (size - 2) packet) (0x00 ∷ 0xAA ∷ []) trailer;
      sums =
          sym (get_elem?-five (size - 3) m _ _ _ _ _ (take (m + 3) zs) (omega (arith, s)))
          ∙ ap (λ (l : List ℕ). get_elem? l (size - 3)) (sym whole)
          ∙ is_byte_at-eq (size - 3) (checksum_of (sum (drop 2 (take (size - 3) packet)))) packet
              sumq
          ∙ ap (λ (l : List ℕ). some (checksum_of (sum (drop 2 l)))) body;
      fits = subst (λ (l : List ℕ). expects expected l ≡ true) p fits;
    }

Body-reply :
    (address : ℕ) (expected : Option ℕ) (size c d : ℕ) (zs payload : List ℕ)
    (b : Body size address c d zs payload expected)
    → 0x55 ∷ 0x00 ∷ size ∷ c ∷ d ∷ zs ≡ reply address payload ++ drop (b.m + 3) zs
Body-reply address expected size c d zs payload b =
    let w : List ℕ = take (b.m + 3) zs in
    let (split, long) = get_elem?-split w b.m b.sums in
    let one_more : suc b.m ≡ b.m + 1 = omega arith in
    let ends : drop (suc b.m) w ≡ 0x00 ∷ 0xAA ∷ [] = ap (λ (k : ℕ). drop k w) one_more ∙ b.ends in
    let count : length payload ≡ b.m = ap (λ (l : List ℕ). length l) (sym b.payload_is) ∙ long in
    let total : size + (c + (d + sum (take b.m w)))
        ≡ length payload + 8 + data_return_command + address + sum payload =
      omega (
        arith,
        b.size_is,
        b.instruction,
        b.address_is,
        count,
        ap (λ (l : List ℕ). sum l) b.payload_is,
      ) in
    let whole : w
        ≡ payload
          ++ checksum_of (length payload + 8 + data_return_command + address + sum payload)
            ∷ 0x00
            ∷ 0xAA
            ∷ [] =
      cc (split, ends, b.payload_is, ap (λ (n : ℕ). checksum_of n) total) in
    let sized : size ≡ length payload + 8 = omega (arith, b.size_is, count) in
    cc (sized, b.instruction, b.address_is, sym (take-drop_split (b.m + 3) zs), whole)

chosen :
    {A : Type 0} (c : Bool) {o : Option A} {y : A}
    → (if c then o else none) ≡ some y
    → (c ≡ true) × (o ≡ some y)
chosen true h = (refl, h)
chosen false h = cc

leb-le : (a b : ℕ) → leb a b ≡ true → a ≤ b
leb-le a b h = ground arith

first_of-cases :
    (o r : Option (List ℕ)) {p : List ℕ} → first_of o r ≡ some p → (o ≡ some p) ⊎ (r ≡ some p)
first_of-cases (some q) r h = inl h
first_of-cases none r h = inr h

-- What one start gives is a frame there.
abbrev pub IsThere : ℕ → Option ℕ → List ℕ → List ℕ → Type 0
IsThere address expected xs payload =
    (before : List ℕ) × (after : List ℕ) × (xs ≡ before ++ (reply address payload ++ after))
    × (expects expected payload ≡ true)

frame_at-IsThere :
    (address : ℕ) (expected : Option ℕ) (xs : List ℕ) {payload : List ℕ}
    → 8 ≤ length xs
    → frame_at address expected xs ≡ some payload
    → IsThere address expected xs payload
frame_at-IsThere address expected (a ∷ x ∷ size ∷ c ∷ d ∷ zs) {payload} long h =
    let tail : List ℕ = size ∷ c ∷ d ∷ zs in
    let (head, pp) = chosen (eqb a 0x55 && eqb x 0x00) h in
    let (ha, hx) = both_true (eqb a 0x55) (eqb x 0x00) head in
    let ea = eqb-eq a 0x55 ha in
    let ex = eqb-eq x 0x00 hx in
    let at_head : packet_payload size address expected (0x55 ∷ 0x00 ∷ tail) ≡ some payload =
      subst (λ (k : ℕ). packet_payload size address expected (0x55 ∷ k ∷ tail) ≡ some payload) ex
        (subst (λ (k : ℕ). packet_payload size address expected (k ∷ x ∷ tail) ≡ some payload) ea
          pp) in
    let body = packet_payload-Body address expected size c d zs at_head in
    (
      [],
      drop (body.m + 3) zs,
      cc (ea, ex, Body-reply address expected size c d zs payload body),
      body.fits,
    )
frame_at-IsThere address expected [] long h = absurd (omega (arith, long))
frame_at-IsThere address expected (a ∷ []) long h = absurd (omega (arith, long))
frame_at-IsThere address expected (a ∷ x ∷ []) long h = absurd (omega (arith, long))
frame_at-IsThere address expected (a ∷ x ∷ size ∷ []) long h = absurd (omega (arith, long))
frame_at-IsThere address expected (a ∷ x ∷ size ∷ c ∷ []) long h = absurd (omega (arith, long))

-- A payload that the reader returns stands in what was read, in a whole frame of the controller for
-- the address, with the right length and checksum; it has the length that the reader expects.
pub extract_payload-IsThere :
    (address : ℕ) (expected : Option ℕ) (xs : List ℕ) {payload : List ℕ}
    → extract_payload address expected xs ≡ some payload
    → IsThere address expected xs payload
unfolding extract_payload
extract_payload-IsThere address expected [] h = cc
extract_payload-IsThere address expected (b ∷ bs) h =
    let (long, first) = chosen (leb 8 (length (b ∷ bs))) h in
    elim (first_of-cases (frame_at address expected (b ∷ bs)) (extract_payload address expected bs)
      first) [
        | inl here ↦ frame_at-IsThere address expected (b ∷ bs) (leb-le _ _ long) here
        | inr later ↦
            let (before, after, e, fits) = extract_payload-IsThere address expected bs later in
            (b ∷ before, after, ap (λ (l : List ℕ). b ∷ l) e, fits)
      ]

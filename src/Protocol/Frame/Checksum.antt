-- ===== src/Protocol/Frame/Checksum.antt =====
-- frame.rs: the checksum as a sum, and what it detects.
use plc_service_rust.Base.{
  ℕ, ◌+◌, ◌%◌, ◌≤◌, ◌<◌, ◌≡◌, ◌≢◌, refl, ap, sym, ◌∙◌, ok, arith, List, [], ◌∷◌, ◌++◌, length,
  append_assoc,
}
use plc_service_rust.Protocol.Frame.{Frame, checksum_loop, calc_checksum, of_bytes}
use plc_service_rust.Protocol.Frame.Parts.{accepts-layout, of_bytes_short}

-- The sum of all bytes, with no wrap-around.
abbrev pub total : List ℕ → ℕ
total [] = 0
total (b ∷ bytes) = b + total bytes

total-append : (xs ys : List ℕ) → total (xs ++ ys) ≡ total xs + total ys
total-append [] ys = omega arith
total-append (x ∷ xs) ys = omega (arith, total-append xs ys)

checksum_loop-total :
    (sum : ℕ) (bytes : List ℕ) → sum < 256 → checksum_loop sum bytes ≡ (sum + total bytes) % 256
unfolding checksum_loop
checksum_loop-total sum [] h = omega arith
checksum_loop-total sum (b ∷ bytes) h =
    checksum_loop-total ((sum + b) % 256) bytes (omega arith) ∙ omega arith

-- The checksum is the sum of all bytes modulo 256.
pub calc_checksum-total : (bytes : List ℕ) → calc_checksum bytes ≡ total bytes % 256
unfolding calc_checksum
calc_checksum-total bytes = checksum_loop-total 0 bytes (omega arith) ∙ omega arith

calc_checksum-ne :
    (xs ys : List ℕ) (x y : ℕ)
    → x < 256
    → y < 256
    → calc_checksum (xs ++ (x ∷ ys)) ≡ calc_checksum (xs ++ (y ∷ ys))
    → x ≡ y
calc_checksum-ne xs ys x y hx hy e = omega (
  arith,
  calc_checksum-total (xs ++ (x ∷ ys)),
  calc_checksum-total (xs ++ (y ∷ ys)),
  total-append xs (x ∷ ys),
  total-append xs (y ∷ ys),
)

-- The last two elements of a list.
split_last_two :
    (s : List ℕ)
    → 2 ≤ length s
    → (front : List ℕ) × (ck : ℕ) × (t : ℕ) × (s ≡ front ++ (ck ∷ t ∷ []))
split_last_two [] h = absurd (omega arith)
split_last_two (a ∷ []) h = absurd (omega arith)
split_last_two (a ∷ b ∷ []) h = ([], a, b, refl)
split_last_two (a ∷ b ∷ c ∷ s) h =
    let (front, ck, t, e) = split_last_two (b ∷ c ∷ s) (omega arith) in
    (a ∷ front, ck, t, ap (λ r. a ∷ r) e)

split_last : (a : ℕ) (s : List ℕ) → (front : List ℕ) × (b : ℕ) × (a ∷ s ≡ front ++ (b ∷ []))
split_last a [] = ([], a, refl)
split_last a (b ∷ s) = let (front, last, e) = split_last b s in (a ∷ front, last, ap (λ r. a ∷ r) e)

-- Two byte strings that differ in the byte `x`, `y` at one place, both accepted.
module _ (x y : ℕ) (hx : x < 256) (hy : y < 256) (f g : Frame) where
  summed_byte :
      (h lo hi : ℕ) (p front : List ℕ) (ck t : ℕ)
      → of_bytes (h ∷ lo ∷ hi ∷ (p ++ (x ∷ (front ++ (ck ∷ t ∷ []))))) ≡ ok f
      → of_bytes (h ∷ lo ∷ hi ∷ (p ++ (y ∷ (front ++ (ck ∷ t ∷ []))))) ≡ ok g
      → x ≡ y
  summed_byte h lo hi [] front ck t a b =
      let u = accepts-layout h lo hi x front ck t f a in
      let v = accepts-layout h lo hi y front ck t g b in
      calc_checksum-ne [] front x y hx hy (sym u.1 ∙ v.1)
  summed_byte h lo hi (c ∷ p) front ck t a b =
      let u =
        accepts-layout h lo hi c (p ++ (x ∷ front)) ck t f (
          ap (λ r. of_bytes (h ∷ lo ∷ hi ∷ c ∷ r)) (append_assoc p (x ∷ front) (ck ∷ t ∷ []))
          ∙ a) in
      let v =
        accepts-layout h lo hi c (p ++ (y ∷ front)) ck t g (
          ap (λ r. of_bytes (h ∷ lo ∷ hi ∷ c ∷ r)) (append_assoc p (y ∷ front) (ck ∷ t ∷ []))
          ∙ b) in
      calc_checksum-ne (c ∷ p) front x y hx hy (sym u.1 ∙ v.1)

  checksum_byte :
      (h lo hi : ℕ) (p : List ℕ) (t : ℕ)
      → of_bytes (h ∷ lo ∷ hi ∷ (p ++ (x ∷ t ∷ []))) ≡ ok f
      → of_bytes (h ∷ lo ∷ hi ∷ (p ++ (y ∷ t ∷ []))) ≡ ok g
      → x ≡ y
  checksum_byte h lo hi [] t a b =
      absurd (cc (of_bytes_short (h ∷ lo ∷ hi ∷ x ∷ t ∷ []) (omega arith)))
  checksum_byte h lo hi (c ∷ p) t a b =
      (accepts-layout h lo hi c p x t f a).1 ∙ sym (accepts-layout h lo hi c p y t g b).1

  tail_byte_lem :
      (h lo hi : ℕ) (p : List ℕ)
      → of_bytes (h ∷ lo ∷ hi ∷ (p ++ (x ∷ []))) ≡ ok f
      → of_bytes (h ∷ lo ∷ hi ∷ (p ++ (y ∷ []))) ≡ ok g
      → x ≡ y
  tail_byte_lem h lo hi [] a b = absurd (cc (of_bytes_short (h ∷ lo ∷ hi ∷ x ∷ []) (omega arith)))
  tail_byte_lem h lo hi (c ∷ []) a b =
      absurd (cc (of_bytes_short (h ∷ lo ∷ hi ∷ c ∷ x ∷ []) (omega arith)))
  tail_byte_lem h lo hi (c ∷ d ∷ p) a b =
      let (body, ck, e) = split_last d p in
      let shape : (t : ℕ) → (d ∷ p) ++ (t ∷ []) ≡ body ++ (ck ∷ t ∷ []) =
        λ t. ap (λ r. r ++ (t ∷ [])) e ∙ append_assoc body (ck ∷ []) (t ∷ []) in
      let u =
        accepts-layout h lo hi c body ck x f
          (ap (λ r. of_bytes (h ∷ lo ∷ hi ∷ c ∷ r)) (sym (shape x)) ∙ a) in
      let v =
        accepts-layout h lo hi c body ck y g
          (ap (λ r. of_bytes (h ∷ lo ∷ hi ∷ c ∷ r)) (sym (shape y)) ∙ b) in
      u.2 ∙ sym v.2

  header_byte_lem : (s : List ℕ) → of_bytes (x ∷ s) ≡ ok f → of_bytes (y ∷ s) ≡ ok g → x ≡ y
  header_byte_lem (lo ∷ hi ∷ c ∷ d ∷ e ∷ s) a b =
      let (body, ck, t, q) = split_last_two (d ∷ e ∷ s) (omega arith) in
      let u =
        accepts-layout x lo hi c body ck t f
          (ap (λ r. of_bytes (x ∷ lo ∷ hi ∷ c ∷ r)) (sym q) ∙ a) in
      let v =
        accepts-layout y lo hi c body ck t g
          (ap (λ r. of_bytes (y ∷ lo ∷ hi ∷ c ∷ r)) (sym q) ∙ b) in
      u.0 ∙ sym v.0
  header_byte_lem [] a b = absurd (cc (of_bytes_short (x ∷ []) (omega arith)))
  header_byte_lem (lo ∷ []) a b = absurd (cc (of_bytes_short (x ∷ lo ∷ []) (omega arith)))
  header_byte_lem (lo ∷ hi ∷ []) a b = absurd (cc (of_bytes_short (x ∷ lo ∷ hi ∷ []) (omega arith)))
  header_byte_lem (lo ∷ hi ∷ c ∷ []) a b =
      absurd (cc (of_bytes_short (x ∷ lo ∷ hi ∷ c ∷ []) (omega arith)))
  header_byte_lem (lo ∷ hi ∷ c ∷ d ∷ []) a b =
      absurd (cc (of_bytes_short (x ∷ lo ∷ hi ∷ c ∷ d ∷ []) (omega arith)))

  later_byte :
      (h lo hi : ℕ) (p s : List ℕ)
      → of_bytes (h ∷ lo ∷ hi ∷ (p ++ (x ∷ s))) ≡ ok f
      → of_bytes (h ∷ lo ∷ hi ∷ (p ++ (y ∷ s))) ≡ ok g
      → x ≡ y
  later_byte h lo hi p [] a b = tail_byte_lem h lo hi p a b
  later_byte h lo hi p (t ∷ []) a b = checksum_byte h lo hi p t a b
  later_byte h lo hi p (u ∷ v ∷ s) a b =
      let (front, ck, t, q) = split_last_two (u ∷ v ∷ s) (omega arith) in
      summed_byte h lo hi p front ck t
        (ap (λ r. of_bytes (h ∷ lo ∷ hi ∷ (p ++ (x ∷ r)))) (sym q) ∙ a)
        (ap (λ r. of_bytes (h ∷ lo ∷ hi ∷ (p ++ (y ∷ r)))) (sym q) ∙ b)

  same_byte :
      (p s : List ℕ)
      → length p ≢ 1
      → length p ≢ 2
      → of_bytes (p ++ (x ∷ s)) ≡ ok f
      → of_bytes (p ++ (y ∷ s)) ≡ ok g
      → x ≡ y
  same_byte [] s h1 h2 a b = header_byte_lem s a b
  same_byte (c ∷ []) s h1 h2 a b = absurd (h1 refl)
  same_byte (c ∷ d ∷ []) s h1 h2 a b = absurd (h2 refl)
  same_byte (h ∷ lo ∷ hi ∷ p) s h1 h2 a b = later_byte h lo hi p s a b

-- If bytes are accepted as a frame, then no bytes that differ from them in the value of just one byte
-- are accepted, unless that byte is one of the two of the length (the second and the third).
pub one_byte_error :
    (p s : List ℕ) (x y : ℕ) (f g : Frame)
    → x < 256
    → y < 256
    → x ≢ y
    → length p ≢ 1
    → length p ≢ 2
    → of_bytes (p ++ (x ∷ s)) ≡ ok f
    → of_bytes (p ++ (y ∷ s)) ≢ ok g
one_byte_error p s x y f g hx hy ne h1 h2 a b = ne (same_byte x y hx hy f g p s h1 h2 a b)

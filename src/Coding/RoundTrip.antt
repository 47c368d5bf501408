-- ===== src/Coding/RoundTrip.antt =====
-- Encoding and decoding of fixed-width integers are inverse to one another.
use lsmkv.Base.{
  ℕ, zero, suc, ◌+◌, ◌*◌, ◌/◌, ◌^◌, ◌≤◌, ◌<◌, ◌≡◌, refl, sym, ap, ap₂, ◌∙◌, arith, List, [], ◌∷◌,
  ◌++◌, append_assoc, length, take, drop, drop_of_length-le, length-drop, append-nil, All,
  length-append, take-append, drop-append,
}
use lsmkv.Coding.{
  decode_fixed, encode_fixed, encode_fixed128, decode_fixed128, decode_fixed64, encode_fixed64,
  store_at,
}
use native.Mathlib.Nat.{pow-suc}

abbrev pub IsBytes : List ℕ → Type 0
IsBytes = All (λ b. b < 256)

pub length-encode_fixed : (n v : ℕ) → length (encode_fixed n v) ≡ n
unfolding encode_fixed
length-encode_fixed zero v = refl
length-encode_fixed (suc n) v = ap suc (length-encode_fixed n (v / 256))

pub encode_fixed-IsBytes : (n v : ℕ) → IsBytes (encode_fixed n v)
unfolding encode_fixed
encode_fixed-IsBytes zero v = tt
encode_fixed-IsBytes (suc n) v = (omega arith, encode_fixed-IsBytes n (v / 256))

digit : (v m : ℕ) → v < 256 * m → v / 256 < m
digit v m h = omega arith

-- Decoding what was encoded gives the number back, whatever follows in the buffer, when the
-- number fits the width.
pub decode_fixed-encode_fixed :
    (n v : ℕ) (rest : List ℕ) → v < 256 ^ n → decode_fixed n (encode_fixed n v ++ rest) ≡ v
unfolding decode_fixed encode_fixed
decode_fixed-encode_fixed zero v rest h = omega arith
decode_fixed-encode_fixed (suc n) v rest h = omega (
  arith,
  decode_fixed-encode_fixed n (v / 256) rest (digit v (256 ^ n) (omega (arith, pow-suc 256 n))),
)

pub decode_fixed-encode_fixed_self : (n v : ℕ) → v < 256 ^ n → decode_fixed n (encode_fixed n v) ≡ v
decode_fixed-encode_fixed_self n v h =
    ap (decode_fixed n) (sym (append-nil (encode_fixed n v))) ∙ decode_fixed-encode_fixed n v [] h

-- Encoding what was decoded from enough bytes gives the bytes back.
pub encode_fixed-decode_fixed :
    (n : ℕ) (bs : List ℕ)
    → IsBytes bs
    → n ≤ length bs
    → encode_fixed n (decode_fixed n bs) ≡ take n bs
unfolding decode_fixed encode_fixed
encode_fixed-decode_fixed zero bs h l = refl
encode_fixed-decode_fixed (suc n) [] h l = absurd (omega arith)
encode_fixed-decode_fixed (suc n) (b ∷ bs) h l =
    let r = decode_fixed n bs in
    let q : (b + 256 * r) / 256 ≡ r = omega arith in
    ap₂ ◌∷◌ (omega arith) (rw q (encode_fixed-decode_fixed n bs h.1 (omega arith)))

-- A 128-bit field gives both of its halves back, if each fits 64 bits.
pub decode_fixed128-encode_fixed128 :
    (a b : ℕ) (rest : List ℕ)
    → a < 256 ^ 8
    → b < 256 ^ 8
    → decode_fixed128 (encode_fixed128 a b ++ rest) ≡ (a, b)
unfolding decode_fixed128 encode_fixed128
decode_fixed128-encode_fixed128 a b rest ha hb = rw append_assoc (λ i. (
  decode_fixed-encode_fixed 8 a (encode_fixed64 b ++ rest) ha i,
  (ap decode_fixed64 (
          drop-append 8 (encode_fixed64 a) (encode_fixed64 b ++ rest)
            (omega (arith, length-encode_fixed 8 a)))
        ∙ decode_fixed-encode_fixed 8 b rest hb)
      i,
))

-- A field behind a prefix of known length.
pub decode_fixed-drop :
    (n off v : ℕ) (pre rest : List ℕ)
    → off ≡ length pre
    → v < 256 ^ n
    → decode_fixed n (drop off (pre ++ (encode_fixed n v ++ rest))) ≡ v
decode_fixed-drop n off v pre rest e h =
    ap (decode_fixed n) (drop-append off pre (encode_fixed n v ++ rest) e)
    ∙ decode_fixed-encode_fixed n v rest h

-- The same for the last field.
pub decode_fixed-drop_last :
    (n off v : ℕ) (pre : List ℕ)
    → off ≡ length pre
    → v < 256 ^ n
    → decode_fixed n (drop off (pre ++ encode_fixed n v)) ≡ v
decode_fixed-drop_last n off v pre e h =
    ap (decode_fixed n) (drop-append off pre (encode_fixed n v) e)
    ∙ decode_fixed-encode_fixed_self n v h

-- Stores that follow one another fill a buffer from the front.
pub store_at_lem :
    (off : ℕ) (a new z : List ℕ)
    → off ≡ length a
    → store_at off new (a ++ z) ≡ a ++ new ++ drop (length new) z
unfolding store_at
store_at_lem off a new z e =
    rw e (ap₂ (λ s t. s ++ new ++ t) (take-append (length a) a z refl) (drop_past a))
  where
    drop_past : (a : List ℕ) → drop (length a + length new) (a ++ z) ≡ drop (length new) z
    drop_past [] = let e' : 0 + length new ≡ length new = omega arith in ap (λ n. drop n z) e'
    drop_past (x ∷ a) =
        let e' : suc (length a) + length new ≡ suc (length a + length new) = omega arith in
        ap (λ n. drop n (x ∷ (a ++ z))) e' ∙ drop_past a

-- Three stores that fill the buffer leave their bytes and nothing else.
pub store_at_three :
    (m n : ℕ) (a b c z : List ℕ)
    → m ≡ length a
    → n ≡ m + length b
    → length z ≡ n + length c
    → store_at n c (store_at m b (store_at 0 a z)) ≡ a ++ b ++ c
store_at_three m n a b c z em en ez =
    rw
      (
        store_at_lem 0 [] a z refl,
        store_at_lem m a b (drop (length a) z) em,
        store_at_lem n (a ++ b) c (drop (length b) (drop (length a) z))
            (omega (arith, length-append a b)),
        drop_of_length-le (length c) (drop (length b) (drop (length a) z))
            (omega (arith, length-drop (length b) (drop (length a) z), length-drop (length a) z)),
      )
      (append-nil (a ++ b ++ c))

-- Four stores behind what a buffer holds already.
pub store_at_four :
    (p a b c d z : List ℕ) (i j k l : ℕ)
    → i ≡ length p
    → j ≡ i + length a
    → k ≡ j + length b
    → l ≡ k + length c
    → length z ≡ length a + length b + length c + length d
    → store_at l d (store_at k c (store_at j b (store_at i a (p ++ z)))) ≡ p ++ a ++ b ++ c ++ d
store_at_four p a b c d z i j k l ei ej ek el ez =
    let z1 = drop (length a) z in
    let z2 = drop (length b) z1 in
    let z3 = drop (length c) z2 in
    rw
      (
        store_at_lem i p a z ei,
        store_at_lem j (p ++ a) b z1 (omega (arith, length-append p a)),
        store_at_lem k (p ++ a ++ b) c z2
            (omega (arith, length-append p a, length-append (p ++ a) b)),
        store_at_lem l (p ++ a ++ b ++ c) d z3 (
            omega
              (arith, length-append p a, length-append (p ++ a) b, length-append (p ++ a ++ b) c)),
        drop_of_length-le (length d) z3 (
            omega (
              arith,
              length-drop (length a) z,
              length-drop (length b) z1,
              length-drop (length c) z2,
            )),
      )
      (append-nil (p ++ a ++ b ++ c ++ d))

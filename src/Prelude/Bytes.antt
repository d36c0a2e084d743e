-- ===== src/Prelude/Bytes.antt =====
-- Little-endian bytes, `to_le_bytes` and `from_le_bytes`, and byte buffers.
use Prim.Native.Nat.{ℕ, zero, suc, ◌+◌, ◌-◌, ◌*◌, ◌/◌, ◌%◌, ◌^◌, ◌≤◌, ◌<◌}
use mathlib.Core.Path.{◌≡◌, refl, ap, ap₂, ◌∙◌, sym, subst}
use mathlib.Core.List.{List, [], ◌∷◌, ◌++◌}
use native.Mathlib.Omega.{arith}
use native.Mathlib.Nat.{pow-suc}
use mathlib.Core.Bool.{Bool, true, false, ◌&&◌}
use hiway.Prelude.Tests.{◌==◌}
use hiway.Prelude.Lists.{length, take, drop, All}

abbrev pub IsByte : ℕ → Type 0
IsByte b = b < 256

abbrev pub to_le : ℕ → ℕ → List ℕ
to_le zero v = []
to_le (suc w) v = v % 256 ∷ to_le w (v / 256)

abbrev pub from_le : List ℕ → ℕ
from_le [] = 0
from_le (b ∷ bs) = b + 256 * from_le bs

pub length-to_le : (w v : ℕ) → length (to_le w v) ≡ w
length-to_le zero v = refl
length-to_le (suc w) v = ap suc (length-to_le w (v / 256))

pub from_le-to_le : (w v : ℕ) → v < 256 ^ w → from_le (to_le w v) ≡ v
from_le-to_le zero v h = omega arith
from_le-to_le (suc w) v h = omega (arith, from_le-to_le w (v / 256) (omega (arith, pow-suc 256 w)))

pub to_le-IsByte : (w v : ℕ) → All IsByte (to_le w v)
to_le-IsByte zero v = tt
to_le-IsByte (suc w) v = (omega arith, to_le-IsByte w (v / 256))

pub from_le-lt : (bs : List ℕ) → All IsByte bs → from_le bs < 256 ^ length bs
from_le-lt [] h = omega arith
from_le-lt (b ∷ bs) h = omega (arith, from_le-lt bs h.1, pow-suc 256 (length bs), h.0)

pub to_le-from_le : (bs : List ℕ) → All IsByte bs → to_le (length bs) (from_le bs) ≡ bs
to_le-from_le [] h = refl
to_le-from_le (b ∷ bs) h =
    let low : (b + 256 * from_le bs) % 256 ≡ b = omega (arith, h.0) in
    let high : (b + 256 * from_le bs) / 256 ≡ from_le bs = omega (arith, h.0) in
    ap₂ ◌∷◌ low (ap (to_le (length bs)) high ∙ to_le-from_le bs h.1)

-- `output[..value.len()].copy_from_slice(value)`; the source panics if the value does not fit.
abbrev pub overwrite : List ℕ → List ℕ → List ℕ
overwrite output [] = output
overwrite [] (v ∷ vs) = []
overwrite (o ∷ os) (v ∷ vs) = v ∷ overwrite os vs

-- `put(&mut output[cursor..], value)`
abbrev pub put : List ℕ → ℕ → List ℕ → List ℕ
put output zero value = overwrite output value
put [] (suc cursor) value = []
put (o ∷ os) (suc cursor) value = o ∷ put os cursor value

pub overwrite-append :
    (output value : List ℕ)
    → length value ≤ length output
    → overwrite output value ≡ value ++ drop (length value) output
overwrite-append output [] h = refl
overwrite-append [] (v ∷ vs) h = absurd (omega arith)
overwrite-append (o ∷ os) (v ∷ vs) h = ap (◌∷◌ v) (overwrite-append os vs (omega arith))

-- A write at the end of what is written so far.
pub put-append :
    (front output value : List ℕ)
    → length value ≤ length output
    → put (front ++ output) (length front) value ≡ front ++ (value ++ drop (length value) output)
put-append [] output value h = overwrite-append output value h
put-append (f ∷ fs) output value h = ap (◌∷◌ f) (put-append fs output value h)

drop-nil : (n : ℕ) → drop {A = ℕ} n [] ≡ []
drop-nil zero = refl
drop-nil (suc n) = refl

drop-add : (m n : ℕ) (xs : List ℕ) → drop m (drop n xs) ≡ drop (n + m) xs
drop-add m zero xs = let e : m ≡ 0 + m = omega arith in ap (λ k. drop k xs) e
drop-add m (suc n) [] = drop-nil m ∙ sym (drop-nil (suc n + m))
drop-add m (suc n) (x ∷ xs) =
    let e : suc (n + m) ≡ suc n + m = omega arith in drop-add m n xs ∙ ap (λ k. drop k (x ∷ xs)) e

length-drop : (n : ℕ) (xs : List ℕ) → length (drop n xs) ≡ length xs - n
length-drop zero xs = omega arith
length-drop (suc n) [] = omega arith
length-drop (suc n) (x ∷ xs) = omega (arith, length-drop n xs)

-- A write behind the first `done` bytes, which `front` replaces.
pub put_next :
    (front output value : List ℕ) (done : ℕ)
    → done + length value ≤ length output
    → put (front ++ drop done output) (length front) value
      ≡ front ++ (value ++ drop (done + length value) output)
put_next front output value done h =
    put-append front (drop done output) value (omega (arith, length-drop done output))
    ∙ ap (λ rest. front ++ (value ++ rest)) (drop-add (length value) done output)

-- The bytes that `read` copies.
abbrev pub chunk : ℕ → ℕ → List ℕ → List ℕ
chunk cursor n xs = take n (drop cursor xs)

overwrite-take : (n : ℕ) (xs : List ℕ) → overwrite xs (take n xs) ≡ xs
overwrite-take zero xs = refl
overwrite-take (suc n) [] = refl
overwrite-take (suc n) (x ∷ xs) = ap (◌∷◌ x) (overwrite-take n xs)

-- Writing back what was read changes nothing.
pub put-chunk : (cursor n : ℕ) (xs : List ℕ) → put xs cursor (chunk cursor n xs) ≡ xs
put-chunk zero n xs = overwrite-take n xs
put-chunk (suc cursor) n [] = refl
put-chunk (suc cursor) n (x ∷ xs) = ap (◌∷◌ x) (put-chunk cursor n xs)

length-take : (n : ℕ) (xs : List ℕ) → n ≤ length xs → length (take n xs) ≡ n
length-take zero xs h = refl
length-take (suc n) [] h = absurd (omega arith)
length-take (suc n) (x ∷ xs) h = ap suc (length-take n xs (omega arith))

pub length-chunk :
    (cursor n : ℕ) (xs : List ℕ) → cursor + n ≤ length xs → length (chunk cursor n xs) ≡ n
length-chunk cursor n xs h = length-take n (drop cursor xs) (omega (arith, length-drop cursor xs))

pub IsByte-chunk : (cursor n : ℕ) (xs : List ℕ) → All IsByte xs → All IsByte (chunk cursor n xs)
IsByte-chunk zero zero xs h = tt
IsByte-chunk zero (suc n) [] h = tt
IsByte-chunk zero (suc n) (x ∷ xs) h = (h.0, IsByte-chunk zero n xs h.1)
IsByte-chunk (suc cursor) zero xs h = tt
IsByte-chunk (suc cursor) (suc n) [] h = tt
IsByte-chunk (suc cursor) (suc n) (x ∷ xs) h = IsByte-chunk cursor (suc n) xs h.1

-- Writing back the number that was read changes nothing.
pub put-from_le :
    (cursor n : ℕ) (xs : List ℕ)
    → cursor + n ≤ length xs
    → All IsByte xs
    → put xs cursor (to_le n (from_le (chunk cursor n xs))) ≡ xs
put-from_le cursor n xs h b =
    ap (λ k. put xs cursor (to_le k (from_le (chunk cursor n xs))))
      (sym (length-chunk cursor n xs h))
    ∙ ap (put xs cursor) (to_le-from_le (chunk cursor n xs) (IsByte-chunk cursor n xs b))
    ∙ put-chunk cursor n xs

pub chunk-lt :
    (cursor n : ℕ) (xs : List ℕ)
    → cursor + n ≤ length xs
    → All IsByte xs
    → from_le (chunk cursor n xs) < 256 ^ n
chunk-lt cursor n xs h b =
    subst (λ k. from_le (chunk cursor n xs) < 256 ^ k) (length-chunk cursor n xs h)
      (from_le-lt (chunk cursor n xs) (IsByte-chunk cursor n xs b))

-- Equality of byte slices.
abbrev pub equal_bytes : List ℕ → List ℕ → Bool
equal_bytes [] [] = true
equal_bytes [] (b ∷ bs) = false
equal_bytes (a ∷ more) [] = false
equal_bytes (a ∷ more) (b ∷ bs) = a == b && equal_bytes more bs

-- ===== src/Wasm/Base64/RoundTrip.antt =====
-- Base64Decode reads back what Base64Encode of src/wasm/host_functions.cpp writes.
use origindb.Prelude.{
  ℕ, zero, suc, ◌+◌, ◌*◌, ◌/◌, ◌%◌, ◌^◌, ◌<◌, ◌≡◌, refl, sym, Bool, true, false, not, ◌&&◌, Option,
  none, some, Text, [], ◌∷◌, All, IsByte, length, ◌==◌, if◌then◌else◌, arith,
}
use origindb.Wasm.Base64.{
  digit, value_of, pad, base64_encode, base64_decode, decode_group, decode_groups,
}

is_some_of : ℕ → Option ℕ → Bool
is_some_of n none = false
is_some_of n (some m) = m == n

is_some_of-eq : (n : ℕ) (o : Option ℕ) → is_some_of n o ≡ true → o ≡ some n
unfolding is_some_of
is_some_of-eq n none h = cc
is_some_of-eq n (some m) h = ground arith

reads : ℕ → Bool
unfolding is_some_of value_of digit
reads n = is_some_of n (value_of (digit n)) && not (digit n == pad)

-- Whether the digits of all numbers below `bound` are read back.
reads_below : ℕ → Bool
unfolding reads
reads_below zero = true
reads_below (suc bound) = if reads bound then reads_below bound else false

reads-reads_below : (n bound : ℕ) → n < bound → reads_below bound ≡ true → reads n ≡ true
unfolding reads_below
reads-reads_below n zero below h = absurd (omega arith)
reads-reads_below n (suc bound) below h = ground (arith, reads-reads_below n bound)

reads_below-all : reads_below 64 ≡ true
unfolding reads_below reads
reads_below-all = refl

digit-mod : (n : ℕ) → digit (n % 64) ≡ digit n
unfolding digit
digit-mod n = let e : n % 64 % 64 ≡ n % 64 = omega arith in rw e

digit_reads : (n : ℕ) → reads (n % 64) ≡ true
digit_reads n = reads-reads_below (n % 64) 64 (omega arith) reads_below-all

value_of-digit : (n : ℕ) → value_of (digit n) ≡ some (n % 64)
value_of-digit n = rw (sym (digit-mod n)) (
    is_some_of-eq (n % 64) (value_of (digit (n % 64)))
      (unfold reads in ground (arith, digit_reads n)))

digit-pad : (n : ℕ) → (digit n == pad) ≡ false
digit-pad n = rw (sym (digit-mod n)) (unfold reads in ground (arith, digit_reads n))

decode-three :
    (a b c : ℕ)
    → IsByte a
    → IsByte b
    → IsByte c
    → (let n = a * 2 ^ 16 + b * 2 ^ 8 + c in
        decode_group (digit (n / 2 ^ 18)) (digit (n / 2 ^ 12)) (digit (n / 2 ^ 6)) (digit n))
      ≡ some (a ∷ b ∷ c ∷ [])
unfolding decode_group
decode-three a b c ha hb hc =
    let n : ℕ = a * 2 ^ 16 + b * 2 ^ 8 + c in
    rw
      (
        value_of-digit (n / 2 ^ 18),
        value_of-digit (n / 2 ^ 12),
        value_of-digit (n / 2 ^ 6),
        value_of-digit n,
        digit-pad (n / 2 ^ 6),
        digit-pad n,
      )
      (ground arith)

decode-two :
    (a b : ℕ)
    → IsByte a
    → IsByte b
    → (let n = a * 2 ^ 16 + b * 2 ^ 8 in
        decode_group (digit (n / 2 ^ 18)) (digit (n / 2 ^ 12)) (digit (n / 2 ^ 6)) pad)
      ≡ some (a ∷ b ∷ [])
unfolding decode_group
decode-two a b ha hb =
    let n : ℕ = a * 2 ^ 16 + b * 2 ^ 8 in
    rw
      (
        value_of-digit (n / 2 ^ 18),
        value_of-digit (n / 2 ^ 12),
        value_of-digit (n / 2 ^ 6),
        digit-pad (n / 2 ^ 6),
      )
      (ground arith)

decode-one :
    (a : ℕ)
    → IsByte a
    → (let n = a * 2 ^ 16 in decode_group (digit (n / 2 ^ 18)) (digit (n / 2 ^ 12)) pad pad)
      ≡ some (a ∷ [])
unfolding decode_group
decode-one a ha =
    let n : ℕ = a * 2 ^ 16 in
    rw (value_of-digit (n / 2 ^ 18), value_of-digit (n / 2 ^ 12)) (ground arith)

decode_groups-encode : (s : Text) → All IsByte s → decode_groups (base64_encode s) ≡ some s
unfolding decode_groups base64_encode
decode_groups-encode [] h = refl
decode_groups-encode (a ∷ []) (ha, h) = rw (decode-one a ha)
decode_groups-encode (a ∷ b ∷ []) (ha, (hb, h)) = rw (decode-two a b ha hb)
decode_groups-encode (a ∷ b ∷ c ∷ s) (ha, (hb, (hc, h))) =
    rw (decode-three a b c ha hb hc, decode_groups-encode s h)

length-encode : (s : Text) → length (base64_encode s) % 4 ≡ 0
unfolding base64_encode
length-encode [] = refl
length-encode (a ∷ []) = refl
length-encode (a ∷ b ∷ []) = refl
length-encode (a ∷ b ∷ c ∷ s) = omega (arith, length-encode s)

-- Bytes of any number, encoded and decoded, are the bytes again.
pub base64_decode-encode : (s : Text) → All IsByte s → base64_decode (base64_encode s) ≡ some s
unfolding base64_decode
base64_decode-encode s h = rw (length-encode s) (decode_groups-encode s h)

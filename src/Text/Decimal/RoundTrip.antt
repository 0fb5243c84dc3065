-- ===== src/Text/Decimal/RoundTrip.antt =====
-- `stoi` reads back what `to_string` prints.
use distributed_cloud_storag.Prelude.{
  ℕ, zero, suc, ◌+◌, ◌/◌, ◌%◌, ◌^◌, ◌≤◌, ◌<◌, ◌≡◌, ◌≢◌, refl, true, false, [], ◌∷◌, ◌++◌, some,
  arith, ltb, All, Bool-cases, inl, inr, ap, sym, append-nil, ◌∙◌,
}
use distributed_cloud_storag.Prelude.Dict.{Bytes}
use distributed_cloud_storag.Prelude.Int.{pos}
use distributed_cloud_storag.Text.Decimal.{
  emit, print_nat, to_string, is_digit, scan, unsigned, positive, stoi,
}
use distributed_cloud_storag.Text.Find.{Lacks}

abbrev pub IsDigit : ℕ → Type 0
IsDigit c = (b'0' ≤ c) × (c ≤ b'9')

-- No digit follows.
abbrev Stops : Bytes → Type 0
Stops [] = Unit {0}
Stops (c ∷ s) = is_digit c ≡ false

emit-append : (fuel n : ℕ) (out rest : Bytes) → emit fuel n out ++ rest ≡ emit fuel n (out ++ rest)
unfolding emit
emit-append zero n out rest = refl
emit-append (suc fuel) n out rest =
    ground (arith, emit-append fuel (n / 10) ((b'0' + n % 10) ∷ out) rest)

emit-digits : (fuel n : ℕ) (out : Bytes) → All IsDigit out → All IsDigit (emit fuel n out)
unfolding emit
emit-digits zero n out h = h
emit-digits (suc fuel) n out h = ground (arith, emit-digits fuel (n / 10) ((b'0' + n % 10) ∷ out))

scan-emit : (fuel n : ℕ) (out : Bytes) → n < fuel → scan 0 (emit fuel n out) ≡ scan n out
unfolding emit scan
scan-emit zero n out h = elim h [ ]
scan-emit (suc fuel) n out h = ground (arith, scan-emit fuel (n / 10) ((b'0' + n % 10) ∷ out))

emit-cons :
    (fuel n : ℕ) (out : Bytes)
    → n < fuel
    → (c : ℕ) × (s : Bytes) × (emit fuel n out ≡ c ∷ s) × (is_digit c ≡ true)
unfolding emit
emit-cons zero n out h = elim h [ ]
emit-cons (suc fuel) n out h = elim (Bool-cases (ltb n 10)) [
  | inl low ↦ rw low (b'0' + n, out, refl, ground arith)
  | inr high ↦ rw high (emit-cons fuel (n / 10) ((b'0' + n % 10) ∷ out) (ground arith))
]

pub print_nat-digits : (n : ℕ) → All IsDigit (print_nat n)
unfolding print_nat
print_nat-digits n = emit-digits (n + 1) n [] tt

pub print_nat-ne-nil : (n : ℕ) → print_nat n ≢ []
unfolding print_nat
print_nat-ne-nil n e = let (c, s, q, d) = emit-cons (n + 1) n [] (omega arith) in cc

pub Lacks-digits : (c : ℕ) (s : Bytes) → is_digit c ≡ false → All IsDigit s → Lacks c s
Lacks-digits c [] h d = tt
Lacks-digits c (x ∷ s) h d = ground (arith, Lacks-digits c s h d.1)

scan_stop : (n : ℕ) (rest : Bytes) → Stops rest → scan n rest ≡ n
unfolding scan
scan_stop n [] h = refl
scan_stop n (c ∷ s) h = rw h

-- A text that starts with a digit is scanned as it is.
stoi-digit :
    (c : ℕ) (s : Bytes) → is_digit c ≡ true → stoi (c ∷ s) ≡ positive (some (scan 0 (c ∷ s)))
unfolding stoi unsigned
stoi-digit c s h = ground arith

-- Every number in the range of `int` is read back from its print, whatever follows it.
pub stoi-to_string :
    (n : ℕ) (rest : Bytes)
    → n < 2 ^ 31
    → Stops rest
    → stoi (to_string (pos n) ++ rest) ≡ some (pos n)
unfolding to_string
stoi-to_string n rest h stop =
    let (c, s, q, d) = emit-cons (n + 1) n rest (omega arith) in
    rw
      (
        emit-append,
        q,
        stoi-digit c s d,
        ← q,
        scan-emit (n + 1) n rest (omega arith),
        scan_stop n rest stop,
      )
      (unfold positive in ground arith)

pub stoi-to_string_alone : (n : ℕ) → n < 2 ^ 31 → stoi (to_string (pos n)) ≡ some (pos n)
stoi-to_string_alone n h = ap stoi (sym (append-nil (to_string (pos n)))) ∙ stoi-to_string n [] h tt

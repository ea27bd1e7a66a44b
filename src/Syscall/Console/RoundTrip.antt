-- ===== src/Syscall/Console/RoundTrip.antt =====
-- SysPrintNum and SysReadNum of userprog/ksyscall.h together, and what SysReadNum refuses.
use mathlib.Core.List.{append_assoc}
use nachos_assignment.Syscall.Console.{
  add_digit, scan_char, scan, scan_start, put_char, Console, print_num, read_num,
}
use nachos_assignment.Syscall.Console.Digits.{after_digits, fill_digits-Reads, put_all_lem}
use nachos_assignment.Base.{
  ℕ, zero, suc, ◌+◌, ◌^◌, ◌<◌, ◌≡◌, refl, ◌≢◌, ◌⊎◌, Bool, true, false, List, [], ◌∷◌, ◌++◌, arith,
  ℤ, pos, negsuc, pos_part, neg_part, ok,
}

-- The numbers that an `int` holds and that can be negated in it.
abbrev pub IsPrintable : ℤ → Type 0
IsPrintable n = (pos_part n < 2 ^ 31) × (neg_part n < 2 ^ 31)

-- A blank or the end of a line ends a number.
abbrev pub IsEnd : ℕ → Type 0
IsEnd ch = (ch ≡ b' ') ⊎ (ch ≡ 10)

-- The text `out` is what `n` prints as, and it reads back as `n`.
pub record PrintsAs (n : ℤ) (c : Console) (out : List ℕ) : Type 0 where
  pub prints : print_num n c ≡ ok (record c { output = c.output ++ out })
  pub reads :
      (ending : ℕ) (rest shown : List ℕ)
      → IsEnd ending
      → read_num (record { input = out ++ ending ∷ rest; output = shown })
        ≡ ok (n, record { input = rest; output = shown })

scan_end :
    (ending : ℕ) (rest : List ℕ) (n : ℕ) (neg : Bool)
    → IsEnd ending
    → n ≢ 0
    → scan (ending ∷ rest) (after_digits n neg) ≡ ok (after_digits n neg, rest)
unfolding scan scan_char
scan_end ending rest n neg h nz = ground arith

print_zero : (c : Console) → PrintsAs (pos 0) c (b'0' ∷ [])
unfolding print_num read_num scan scan_char add_digit
print_zero c = record { prints = refl; reads = λ ending rest shown h. ground arith }

print_positive :
    (n : ℕ) (c : Console) → n ≢ 0 → n < 2 ^ 31 → (out : List ℕ) × PrintsAs (pos n) c out
unfolding print_num read_num
print_positive n c nz h =
    let (front, e, reads) = fill_digits-Reads 10 n [] (omega arith) h in
    (
      front ++ [],
      record {
        prints = ground (arith, put_all_lem (front ++ []) c);
        reads = λ ending rest shown he. ground (
          arith,
          append_assoc front [] (ending ∷ rest),
          reads false (ending ∷ rest),
          scan_end ending rest n false he nz,
        );
      },
    )

print_negative : (n : ℕ) (c : Console) → suc n < 2 ^ 31 → (out : List ℕ) × PrintsAs (negsuc n) c out
unfolding print_num read_num
print_negative n c h =
    let (front, e, reads) = fill_digits-Reads 10 (n + 1) [] (omega arith) (omega arith) in
    (
      b'-' ∷ (front ++ []),
      record {
        prints = ground (
          arith,
          put_all_lem (front ++ []) (put_char b'-' c),
          append_assoc c.output (b'-' ∷ []) (front ++ []),
        );
        reads = λ ending rest shown he. ground (
          arith,
          append_assoc front [] (ending ∷ rest),
          reads true (ending ∷ rest),
          scan_end ending rest (n + 1) true he (omega arith),
          minus_sign (front ++ ending ∷ rest),
        );
      },
    )
  where
    minus_sign : (tail : List ℕ) → scan (b'-' ∷ tail) scan_start ≡ scan tail (after_digits 0 true)
    minus_sign tail = unfold scan scan_char in refl

-- For every int but the least one SysPrintNum ends well and only appends to the output; what it
-- appends, followed by a blank or the end of a line, is read by SysReadNum as the same number, with
-- the rest of the input left.
pub print_num-read_num : (n : ℤ) (c : Console) → IsPrintable n → (out : List ℕ) × PrintsAs n c out
print_num-read_num (pos zero) c h = (b'0' ∷ [], print_zero c)
print_num-read_num (pos (suc n)) c h = print_positive (suc n) c (omega arith) h.0
print_num-read_num (negsuc n) c h = print_negative n c h.1

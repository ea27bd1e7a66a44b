-- ===== src/Syscall/Console/Digits.antt =====
-- The digits that SysPrintNum of userprog/ksyscall.h puts into its buffer, and what SysReadNum
-- makes of them.
use native.Mathlib.Nat.{pow-suc}
use mathlib.Core.List.{append_assoc, append-nil}
use nachos_assignment.Syscall.Console.{
  NumState, add_digit, scan_char, scan, fill_digits, put_char, put_all, Console,
}
use nachos_assignment.Base.{
  not, ℕ, zero, suc, ◌+◌, ◌/◌, ◌%◌, ◌^◌, ◌<◌, ◌≡◌, sym, ap, ◌∙◌, ◌≢◌, inl, inr, Bool, true, List,
  [], ◌∷◌, ◌++◌, arith, ◌==◌, Bool-cases, ok,
}

-- The state of the scan after the digits of `n`, from a state with no digit yet.
abbrev pub after_digits : ℕ → Bool → NumState
after_digits n neg = record { result = n; legal = true; is_neg = neg; has_num = not (n == 0) }

-- The text `ds` is read as the number `n`, whatever follows.
abbrev pub Reads : List ℕ → ℕ → Type 0
Reads ds n =
    (neg : Bool) (tail : List ℕ)
    → scan (ds ++ tail) (after_digits 0 neg) ≡ scan tail (after_digits n neg)

scan_digit :
    (n : ℕ) (neg : Bool) (tail : List ℕ)
    → n < 2 ^ 31
    → n ≢ 0
    → scan ((n % 10 + b'0') ∷ tail) (after_digits (n / 10) neg) ≡ scan tail (after_digits n neg)
unfolding scan scan_char add_digit
scan_digit n neg tail h nz = ground arith

-- A number below 10 ^ room fills at most `room` cells, and its digits read back as it.
pub fill_digits-Reads :
    (room n : ℕ) (ds : List ℕ)
    → n < 10 ^ room
    → n < 2 ^ 31
    → (front : List ℕ) × (fill_digits room n ds ≡ ok (front ++ ds)) × Reads front n
unfolding fill_digits
fill_digits-Reads zero n ds small h =
    ([], ground arith, λ neg tail. ap (λ (t : ℕ). scan tail (after_digits t neg)) (omega arith))
fill_digits-Reads (suc room) n ds small h = elim (Bool-cases (n == 0)) [
  | inl z ↦ ([], rw z, λ neg tail. ap (λ (t : ℕ). scan tail (after_digits t neg)) (ground arith))
  | inr nz ↦
      let (front, e, reads) =
        fill_digits-Reads room (n / 10) ((n % 10 + b'0') ∷ ds) (omega (arith, pow-suc 10 room))
          (omega arith) in
      (
        front ++ (n % 10 + b'0') ∷ [],
        rw nz (e ∙ ap (λ (t : List ℕ). ok t) (sym (append_assoc front ((n % 10 + b'0') ∷ []) ds))),
        λ neg tail.
            ap (λ (t : List ℕ). scan t (after_digits 0 neg))
              (append_assoc front ((n % 10 + b'0') ∷ []) tail)
            ∙ (reads neg ((n % 10 + b'0') ∷ tail) ∙ scan_digit n neg tail h (ground arith)),
      )
]

pub put_all_lem : (ds : List ℕ) (c : Console) → put_all ds c ≡ record c { output = c.output ++ ds }
unfolding put_all
put_all_lem [] c = ap (λ (t : List ℕ). record c { output = t }) (sym (append-nil c.output))
put_all_lem (d ∷ ds) c =
    put_all_lem ds (put_char d c)
    ∙ ap (λ (t : List ℕ). record c { output = t }) (append_assoc c.output (d ∷ []) ds)

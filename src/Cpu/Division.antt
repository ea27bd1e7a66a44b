-- ===== src/Cpu/Division.antt =====
-- DIV of machine/mipssim.cc.
use nachos_assignment.Machine.{Machine}
use nachos_assignment.Cpu.{div_int, magnitude, is_negative, rem_int, hi_reg, lo_reg}
use nachos_assignment.Cpu.Effects.{divide, Effect, writes, with_register}
use native.Mathlib.Nat.{mod-add-div, mod-lt, div-le_self, div-mul-le_self, mul-le-mul_right}
use nachos_assignment.Cpu.Decode.{Instruction}
use nachos_assignment.Cpu.Effects.{writes, with_register, divide}
use nachos_assignment.Cpu.OpCode.{op_div}
use nachos_assignment.Cpu.Execute.{execute}
use nachos_assignment.Base.{
  ℕ, zero, suc, ◌+◌, ◌-◌, ◌*◌, ◌/◌, ◌%◌, ◌^◌, ◌≤◌, ◌<◌, ◌≡◌, refl, sym, ap, ◌∙◌, subst, ◌⊎◌, inl,
  inr, Bool, true, false, arith, ltb, if◌then◌else◌, Bool-cases, agree, ℤ, pos, negsuc, neg_ℤ,
  IsInt, ◌+ℤ◌, same_int, undefined, Outcome, err,
}

infixl 40 ◌*ℤ◌
-- The product of two integers.
abbrev pub ◌*ℤ◌ : ℤ → ℤ → ℤ
a *ℤ b =
    if agree (is_negative a) (is_negative b)
    then pos (magnitude a * magnitude b)
    else neg_ℤ (pos (magnitude a * magnitude b))

-- `q` and `r` are quotient and remainder of `a` by `b`, with the quotient cut towards zero: the
-- remainder has the sign of the dividend.
pub record IsQuotient (a b q r : ℤ) : Type 0 where
  pub makes_up : (b *ℤ q) +ℤ r ≡ a
  pub smaller : magnitude r < magnitude b
  pub towards_zero : (r ≡ pos 0) ⊎ (is_negative r ≡ is_negative a)

-- What DIV comes to for the registers `a` and `b`.
pub data Divides (m : Machine) (a b after : ℤ) (r : Outcome Effect) : Type 0 where
  by_zero :
      b ≡ pos 0
      → r ≡ writes (with_register m lo_reg (pos 0)) hi_reg (pos 0) after
      → Divides m a b after r
  overflowing : a ≡ negsuc (2 ^ 31 - 1) → b ≡ negsuc 0 → r ≡ err undefined → Divides m a b after r
  divided :
      (q rem : ℤ)
      → IsQuotient a b q rem
      → r ≡ writes (with_register m lo_reg q) hi_reg rem after
      → Divides m a b after r

magnitude-minus : (n : ℕ) → magnitude (neg_ℤ (pos n)) ≡ n
magnitude-minus zero = ground arith
magnitude-minus (suc n) = ground arith

nonzero : (b : ℤ) → same_int b (pos 0) ≡ false → 0 < magnitude b
nonzero (pos zero) h = absurd (ground (arith, h))
nonzero (pos (suc b)) h = omega arith
nonzero (negsuc b) h = omega arith

is_zero : (b : ℤ) → same_int b (pos 0) ≡ true → b ≡ pos 0
is_zero (pos b) h = let z : b ≡ 0 = ground (arith, h) in ap pos z
is_zero (negsuc b) h = absurd (ground (arith, h))

magnitude-rem : (a b : ℤ) → magnitude (rem_int a b) ≡ magnitude a % magnitude b
unfolding rem_int
magnitude-rem (pos a) b = omega arith
magnitude-rem (negsuc a) b = magnitude-minus (magnitude (negsuc a) % magnitude b)

minus_sign : (n : ℕ) → (neg_ℤ (pos n) ≡ pos 0) ⊎ (is_negative (neg_ℤ (pos n)) ≡ true)
minus_sign zero = inl refl
minus_sign (suc n) = inr (ground arith)

rem_sign : (a b : ℤ) → (rem_int a b ≡ pos 0) ⊎ (is_negative (rem_int a b) ≡ is_negative a)
unfolding rem_int
rem_sign (pos a) b = inr refl
rem_sign (negsuc a) b = minus_sign (magnitude (negsuc a) % magnitude b)

-- A quotient is too large only for the least `int` and -1.
least_only :
    (a b : ℤ)
    → IsInt a
    → 0 < magnitude b
    → agree (is_negative a) (is_negative b) ≡ true
    → 2 ^ 31 ≤ magnitude a / magnitude b
    → (a ≡ negsuc (2 ^ 31 - 1)) × (b ≡ negsuc 0)
least_only (pos a) b h p s big =
    absurd (omega (arith, div-le_self (magnitude (pos a)) (magnitude b)))
least_only (negsuc a) (pos b) h p s big = absurd (ground (arith, s))
least_only (negsuc a) (negsuc b) h p s big =
    let whole : 2 ^ 31 ≤ suc a = omega (arith, div-le_self (suc a) (suc b)) in
    let once : magnitude (negsuc a) / magnitude (negsuc b) * magnitude (negsuc b)
        ≤ magnitude (negsuc a) =
      div-mul-le_self (magnitude (negsuc a)) (magnitude (negsuc b)) in
    let more : 2 ^ 31 * magnitude (negsuc b)
        ≤ magnitude (negsuc a) / magnitude (negsuc b) * magnitude (negsuc b) =
      mul-le-mul_right (magnitude (negsuc b)) big in
    let a' : a ≡ 2 ^ 31 - 1 = omega (arith, whole) in
    let b' : b ≡ 0 = omega (arith, once, more) in (ap negsuc a', ap negsuc b')

-- The quotient with the sign that the operands give it.
abbrev signed_quotient : ℤ → ℤ → ℕ → ℤ
signed_quotient a b k = if agree (is_negative a) (is_negative b) then pos k else neg_ℤ (pos k)

minus_suc : (k : ℕ) → neg_ℤ (pos (suc k)) ≡ negsuc k
minus_suc k = ground arith

-- The products of an integer by a size with either sign.
pos_times : (d k : ℕ) → pos d *ℤ pos k ≡ pos (magnitude (pos d) * k)
pos_times d k = let plain : k + 0 ≡ k = omega arith in ap (λ t. pos ((d + 0) * t)) plain

pos_times_minus : (d k : ℕ) → pos d *ℤ neg_ℤ (pos k) ≡ neg_ℤ (pos (magnitude (pos d) * k))
pos_times_minus d zero =
    let z : magnitude (pos d) * 0 ≡ 0 = omega arith in
    subst (λ t. pos t ≡ neg_ℤ (pos t)) (sym z) refl
pos_times_minus d (suc k) =
    let plain : 0 + suc k ≡ suc k = omega arith in
    subst (λ q. pos d *ℤ q ≡ neg_ℤ (pos (magnitude (pos d) * suc k))) (sym (minus_suc k))
      (ap (λ t. neg_ℤ (pos ((d + 0) * t))) plain)

negsuc_times : (d k : ℕ) → negsuc d *ℤ pos k ≡ neg_ℤ (pos (magnitude (negsuc d) * k))
negsuc_times d k =
    let plain : k + 0 ≡ k = omega arith in ap (λ t. neg_ℤ (pos ((0 + suc d) * t))) plain

negsuc_times_minus : (d k : ℕ) → negsuc d *ℤ neg_ℤ (pos k) ≡ pos (magnitude (negsuc d) * k)
negsuc_times_minus d zero =
    let z : magnitude (negsuc d) * 0 ≡ 0 = omega arith in
    subst (λ t. neg_ℤ (pos t) ≡ pos t) (sym z) refl
negsuc_times_minus d (suc k) =
    let plain : 0 + suc k ≡ suc k = omega arith in
    subst (λ q. negsuc d *ℤ q ≡ pos (magnitude (negsuc d) * suc k)) (sym (minus_suc k))
      (ap (λ t. pos ((0 + suc d) * t)) plain)

adds_up : (x r n : ℕ) → r + x ≡ n → pos x +ℤ pos r ≡ pos n
adds_up x r n e = ground (arith, e)

takes_up : (x r n : ℕ) → r + x ≡ suc n → neg_ℤ (pos x) +ℤ neg_ℤ (pos r) ≡ negsuc n
takes_up zero r n e = ground (arith, e)
takes_up (suc x) zero n e = ground (arith, e)
takes_up (suc x) (suc r) n e = ground (arith, e)

-- The remainder and the product put together by the sizes.
made_up :
    (a b : ℤ) (k : ℕ)
    → magnitude a % magnitude b + magnitude b * k ≡ magnitude a
    → (b *ℤ signed_quotient a b k) +ℤ rem_int a b ≡ a
unfolding rem_int
made_up (pos n) (pos d) k e =
    ap (λ t. t +ℤ rem_int (pos n) (pos d)) (pos_times d k)
    ∙ adds_up (magnitude (pos d) * k) _ n (omega (arith, e))
made_up (pos n) (negsuc d) k e =
    ap (λ t. t +ℤ rem_int (pos n) (negsuc d)) (negsuc_times_minus d k)
    ∙ adds_up (magnitude (negsuc d) * k) _ n (omega (arith, e))
made_up (negsuc n) (pos d) k e =
    ap (λ t. t +ℤ rem_int (negsuc n) (pos d)) (pos_times_minus d k)
    ∙ takes_up (magnitude (pos d) * k) _ n (omega (arith, e))
made_up (negsuc n) (negsuc d) k e =
    ap (λ t. t +ℤ rem_int (negsuc n) (negsuc d)) (negsuc_times d k)
    ∙ takes_up (magnitude (negsuc d) * k) _ n (omega (arith, e))

rem_int-IsQuotient :
    (a b : ℤ)
    → 0 < magnitude b
    → IsQuotient a b (signed_quotient a b (magnitude a / magnitude b)) (rem_int a b)
rem_int-IsQuotient a b p = record {
  makes_up = made_up a b (magnitude a / magnitude b) (mod-add-div (magnitude a) (magnitude b));
  smaller = subst (λ t. t < magnitude b) (sym (magnitude-rem a b)) (mod-lt (magnitude a) p);
  towards_zero = rem_sign a b;
}

-- With the sign that is known.
IsQuotient-signed :
    (a b : ℤ) (s : Bool)
    → 0 < magnitude b
    → agree (is_negative a) (is_negative b) ≡ s
    → IsQuotient a b
        (if s then pos (magnitude a / magnitude b) else neg_ℤ (pos (magnitude a / magnitude b)))
        (rem_int a b)
IsQuotient-signed a b s p e =
    subst
      (λ t.
        IsQuotient a b
          (if t then pos (magnitude a / magnitude b) else neg_ℤ (pos (magnitude a / magnitude b)))
          (rem_int a b))
      e (rem_int-IsQuotient a b p)

-- DIV of ints: a divisor 0 clears Lo and Hi; the least int divided by -1 is undefined; else Lo and
-- Hi get a quotient and a remainder smaller than the divisor such that the divisor times the
-- quotient plus the remainder is the dividend, and the remainder is 0 or has the sign of the
-- dividend.
pub op_div-Divides :
    (handler : Machine → Outcome Machine) (i : Instruction) (m : Machine) (a b next after : ℤ)
    → IsInt a
    → Divides m a b after (execute handler op_div i m a b next after)
unfolding execute divide div_int
op_div-Divides handler i m a b next after h = elim (Bool-cases (same_int b (pos 0))) [
  | inl z ↦ by_zero (is_zero b z) (rw z refl)
  | inr nz ↦ elim (Bool-cases (agree (is_negative a) (is_negative b))) [
    | inl same ↦ elim (Bool-cases (ltb (magnitude a / magnitude b) (2 ^ 31))) [
      | inl fits ↦
          divided (pos (magnitude a / magnitude b)) (rem_int a b)
            (IsQuotient-signed a b true (nonzero b nz) same) (rw (nz, same, fits) refl)
      | inr over ↦
          let (la, lb) = least_only a b h (nonzero b nz) same (ground (arith, over)) in
          overflowing la lb (rw (nz, same, over) refl)
    ]
    | inr other ↦
        divided (neg_ℤ (pos (magnitude a / magnitude b))) (rem_int a b)
          (IsQuotient-signed a b false (nonzero b nz) other) (rw (nz, other) refl)
  ]
]

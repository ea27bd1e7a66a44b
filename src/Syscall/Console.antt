-- ===== src/Syscall/Console.antt =====
-- The console calls of userprog/ksyscall.h: SysReadNum, SysPrintNum, SysReadChar, SysPrintChar and
-- SysAdd. The console is what `synchConsoleIn->GetChar()` will answer, in order (an end of file is
-- the character 255), and what `synchConsoleOut->PutChar` has written. A character is its byte.
pub mod Digits
pub mod RoundTrip
pub mod Tests
use nachos_assignment.Base.{
  ◌&&◌, ◌||◌, not, ℕ, zero, suc, ◌+◌, ◌-◌, ◌*◌, ◌/◌, ◌%◌, ◌^◌, ◌≤◌, ◌<◌, min, max, bit_and, bit_or,
  ◌≡◌, refl, sym, ap, ap₂, ◌∙◌, subst, fun_ext, ◌≢◌, ◌↔◌, ◌⊎◌, inl, inr, Bool, true, false, Option,
  none, some, List, [], ◌∷◌, ◌++◌, map, arith, ltb, leb, ◌==◌, if◌then◌else◌, ltb→lt, lt→ltb,
  leb→le, ==_iff, tests, Bool-cases, Option-cases, every, every-test, agree, agree_eq, length,
  get_elem?, set, get_or, take, drop, replicate, length-append, length-set, get_elem?-set_self,
  get_elem?-set_ne, take-append-drop, length-take, length-drop, length-replicate, length-map,
  get_elem?-eq-get_or, get_or-set_self, get_or-set_ne, get_or-replicate, get_elem?-none,
  get_elem?-some, get_elem?_beyond, get_elem?_inside, drop_all, drop_step, set-set_self, set-set_ne,
  set-get_elem?, among, IsDistinct, ℤ, pos, negsuc, pos_part, neg_part, sub_ℕ, neg_ℤ, ltb_ℤ,
  to_unsigned, to_int, IsInt, to_int-to_unsigned, ◌+ℤ◌, ◌-ℤ◌, same_int, minus_one, Name, same_name,
  same_name_eq, same_name_refl, Stop, aborted, halted, undefined, Outcome, ok, err, check_int,
  ◌>>=◌, ◌>>◌, assert, deref, at, Name, same_name, same_name_eq, same_name_refl,
}

pub record Console : Type 0 where
  pub input : List ℕ
  pub output : List ℕ

-- SynchConsoleInput::GetChar waits for a key; with none to come the thread sleeps for good.
pub get_char : Console → Outcome (ℕ × Console)
get_char c = elim c.input [ [] ↦ err Stop.waiting | ch ∷ rest ↦ ok (ch, record c { input = rest }) ]

abbrev pub put_char : ℕ → Console → Console
put_char ch c = record c { output = c.output ++ ch ∷ [] }

-- The local variables of SysReadNum.
pub record NumState : Type 0 where
  pub result : ℕ
  pub legal : Bool
  pub is_neg : Bool
  pub has_num : Bool

-- What one round of its loop does: goes on, breaks out, or overflows an `int`.
pub data Round : Type 0 where
  again leave : NumState → Round
  overflow : Round

abbrev pub is_digit : ℕ → Bool
is_digit ch = leb b'0' ch && leb ch b'9'

pub add_digit : NumState → ℕ → Round
add_digit s ch =
    let v = s.result * 10 + (ch - b'0') in
    if ltb v (2 ^ 31) then again (record s { result = v; has_num = true }) else overflow

pub scan_char : NumState → ℕ → Round
scan_char s ch =
    if is_digit ch
    then add_digit s ch
    else if ch == b'-'
    then again (if s.has_num then record s { legal = false } else record s { is_neg = true })
    else if ch == b' ' || ch == 10
    then (if not s.legal
        then leave s
        else if not s.has_num && not s.is_neg
        then again s
        else leave s)
    else again (record s { legal = false })

-- The loop over the keys to come, with the keys that are left.
pub scan : List ℕ → NumState → Outcome (NumState × List ℕ)
scan [] s = err Stop.waiting
scan (ch ∷ rest) s = elim (scan_char s ch) [
  | again s' ↦ scan rest s'
  | leave s' ↦ ok (s', rest)
  | overflow ↦ err undefined
]

abbrev pub scan_start : NumState
scan_start = record { result = 0; legal = true; is_neg = false; has_num = false }

pub read_num : Console → Outcome (ℤ × Console)
read_num c = do
  (s, rest) ← scan c.input scan_start
  let signed = if s.is_neg then neg_ℤ (pos s.result) else pos s.result
  ok (if s.legal then signed else pos 0, record c { input = rest })

-- while (n > 0) { digits[i] = n % 10 + '0'; i++; n /= 10; }: `room` cells of the buffer are left,
-- and `digits` holds the filled ones, the last one first. A store past the buffer is undefined.
pub fill_digits : ℕ → ℕ → List ℕ → Outcome (List ℕ)
fill_digits zero n digits = if n == 0 then ok digits else err undefined
fill_digits (suc room) n digits =
    let rest = fill_digits room (n / 10) ((n % 10 + b'0') ∷ digits) in
    if n == 0 then ok digits else rest

-- for (j = i - 1; j >= 0; j--) PutChar(digits[j])
pub put_all : List ℕ → Console → Console
put_all [] c = c
put_all (ch ∷ rest) c = put_all rest (put_char ch c)

-- The buffer has 10 cells. For the least `int`, n = -n overflows.
pub print_num : ℤ → Console → Outcome Console
print_num (pos n) c =
    if n == 0
    then ok (put_char b'0' c)
    else (fill_digits 10 n [] >>= λ digits. ok (put_all digits c))
print_num (negsuc n) c =
    if ltb (n + 1) (2 ^ 31)
    then (fill_digits 10 (n + 1) [] >>= λ digits. ok (put_all digits (put_char b'-' c)))
    else err undefined

-- SysReadChar lets through what it takes for printable, and answers '\0' for the rest.
abbrev pub is_valid_char : ℕ → Bool
is_valid_char ch = (ltb 31 ch && ltb ch 126) || (ltb 9 ch && ltb ch 12)

pub read_char : Console → Outcome (ℕ × Console)
read_char c = do (ch, c') ← get_char c; ok (if is_valid_char ch then ch else 0, c')

pub print_char : ℕ → Console → Console
print_char ch c = if is_valid_char ch then put_char ch c else c

-- SysAdd
pub add : ℤ → ℤ → Outcome ℤ
add op1 op2 =
    let sum = op1 +ℤ op2 in
    if ltb (pos_part sum) (2 ^ 31) && leb (neg_part sum) (2 ^ 31) then ok sum else err undefined

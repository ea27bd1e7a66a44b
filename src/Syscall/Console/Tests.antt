-- ===== src/Syscall/Console/Tests.antt =====
-- Runs of the console calls of userprog/ksyscall.h, and the theorems at them.
use nachos_assignment.Syscall.Console.{
  Console, print_num, read_num, scan, scan_char, add_digit, fill_digits, put_all,
}
use nachos_assignment.Syscall.Console.RoundTrip.{PrintsAs, print_num-read_num}
use nachos_assignment.Base.{ℕ, ◌≡◌, refl, List, [], ◌∷◌, arith, pos, negsuc, Stop, ok, err}

abbrev typed : List ℕ → Console
typed keys = record { input = keys; output = [] }

reads_negative :
    read_num (typed (10 ∷ b'-' ∷ b'4' ∷ b'2' ∷ 10 ∷ b'7' ∷ [])) ≡ ok (negsuc 41, typed (b'7' ∷ []))
unfolding read_num scan scan_char add_digit
reads_negative = refl

refuses_letters : read_num (typed (b'4' ∷ b'x' ∷ b'2' ∷ 10 ∷ [])) ≡ ok (pos 0, typed [])
unfolding read_num scan scan_char add_digit
refuses_letters = refl

waits_for_more : read_num (typed (b'4' ∷ [])) ≡ err Stop.waiting
unfolding read_num scan scan_char add_digit
waits_for_more = refl

prints_ten_digits :
    print_num (pos 2147483647) (typed [])
    ≡ ok (record {
      input = [];
      output = b'2' ∷ b'1' ∷ b'4' ∷ b'7' ∷ b'4' ∷ b'8' ∷ b'3' ∷ b'6' ∷ b'4' ∷ b'7' ∷ [];
    })
unfolding print_num fill_digits put_all
prints_ten_digits = refl

print_num-read_num_example : (out : List ℕ) × PrintsAs (negsuc 1206) (typed []) out
print_num-read_num_example = print_num-read_num (negsuc 1206) (typed []) (omega arith)

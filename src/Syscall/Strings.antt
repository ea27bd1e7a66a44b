-- ===== src/Syscall/Strings.antt =====
-- System2User and User2System of userprog/ksyscall.h: bytes between the kernel and the memory of a user
-- program. A kernel buffer is the list of its bytes; the limit of User2System is not negative.
pub mod FromUser
pub mod Tests
use nachos_assignment.Machine.{Machine}
use nachos_assignment.Machine.Memory.{read_mem, write_mem, char_value}
use nachos_assignment.Base.{
  ◌&&◌, ◌||◌, not, ℕ, zero, suc, ◌+◌, ◌-◌, ◌*◌, ◌/◌, ◌%◌, ◌^◌, ◌≤◌, ◌<◌, min, max, bit_and, bit_or,
  ◌≡◌, refl, sym, ap, ap₂, ◌∙◌, subst, fun_ext, ◌≢◌, ◌↔◌, ◌⊎◌, inl, inr, Bool, true, false, Option,
  none, some, List, [], ◌∷◌, ◌++◌, map, arith, ltb, leb, ◌==◌, if◌then◌else◌, ltb→lt, lt→ltb,
  leb→le, ==_iff, tests, Bool-cases, Option-cases, every, every-test, agree, agree_eq, length,
  get_elem?, set, get_or, take, drop, replicate, length-append, length-set, get_elem?-set_self,
  get_elem?-set_ne, take-append-drop, length-take, length-drop, length-replicate, length-map,
  get_elem?-eq-get_or, get_or-set_self, get_or-set_ne, get_or-replicate, get_elem?-none,
  get_elem?-some, get_elem?_beyond, get_elem?_inside, drop_all, drop_step, set-set_self, set-set_ne,
  set-get_elem?, among, IsDistinct, ℤ, pos, negsuc, pos_part, neg_part, sub_ℕ, neg_ℤ, ltb_ℤ,
  to_unsigned, to_int, IsInt, to_int-to_unsigned, ◌+ℤ◌, ◌-ℤ◌, same_int, minus_one, Name, same_name,
  same_name_eq, same_name_refl, Stop, aborted, halted, undefined, Outcome, ok, err, check_int,
  ◌>>=◌, ◌>>◌, assert, deref, at, Name, same_name, same_name_eq, same_name_refl,
}

-- virtAddr + i, on 32 bits
abbrev pub address : ℕ → ℕ → ℕ
address va i = (va + i) % 2 ^ 32

-- The loop of System2User over what is left of the buffer; it ends behind the first 0.
unfoldable pub write_user : ℕ → ℕ → ℕ → List ℕ → Machine → Outcome Machine
write_user zero i va buffer m = ok m
write_user (suc left) i va [] m = err undefined
write_user (suc left) i va (b ∷ buffer) m = do
  r ← write_mem m (address va i) 1 (char_value b)
  let rest = write_user left (i + 1) va buffer r.0
  if b == 0 then ok r.0 else rest

-- The answer is that of the outer `i`, which stays 0.
unfoldable pub system_to_user : ℕ → ℤ → List ℕ → Machine → Outcome (Machine × ℤ)
system_to_user va (negsuc n) buffer m = ok (m, minus_one)
system_to_user va (pos n) buffer m = do m' ← write_user n 0 va buffer m; ok (m', pos 0)

-- The loop of User2System from byte `i` on, with the bytes that it stores.
unfoldable pub read_user : ℕ → ℕ → ℕ → Machine → Outcome (Machine × List ℕ)
read_user zero i va m = ok (m, [])
read_user (suc left) i va m = do
  (m', done, value) ← read_mem m (address va i) 1
  let byte = to_unsigned value % 256
  (m'', bytes) ←
      (let rest = read_user left (i + 1) va m' in
        if same_int value (pos 0) then ok (m', []) else rest)
  ok (m'', byte ∷ bytes)

-- The new buffer has limit + 1 bytes, which start as 0.
unfoldable pub user_to_system : ℕ → ℕ → Machine → Outcome (Machine × List ℕ)
user_to_system va limit m = do
  (m', bytes) ← read_user limit 0 va m
  ok (m', bytes ++ replicate (limit + 1 - length bytes) 0)

-- ===== src/AddrSpace/Bytes.antt =====
-- Bytes copied into the memory of the machine by userprog/addrspace.cc.
use nachos_assignment.AddrSpace.{put_bytes}
use nachos_assignment.Base.{
  ℕ, zero, suc, ◌+◌, ◌≤◌, ◌<◌, ◌≡◌, refl, ◌∙◌, ◌⊎◌, List, [], ◌∷◌, arith, length, get_elem?, set,
  length-set, get_elem?-set_self, get_elem?-set_ne, get_elem?-some, ok,
}

-- `m'` is `m` with the bytes from `pa` on.
pub record Stores (m : List ℕ) (pa : ℕ) (bytes m' : List ℕ) : Type 0 where
  pub same_size : length m' ≡ length m
  pub outside : (j : ℕ) → (j < pa) ⊎ (pa + length bytes ≤ j) → get_elem? m' j ≡ get_elem? m j
  pub inside : (k : ℕ) → k < length bytes → get_elem? m' (pa + k) ≡ get_elem? bytes k

Stores-step :
    (m : List ℕ) (pa b : ℕ) (bytes m' : List ℕ)
    → pa < length m
    → Stores (set m pa b) (pa + 1) bytes m'
    → Stores m pa (b ∷ bytes) m'
Stores-step m pa b bytes m' fits s = record {
  same_size = s.same_size ∙ length-set m pa b;
  outside =
      λ j out. s.outside j (omega arith) ∙ get_elem?-set_ne m {i = pa} {j = j} b (omega arith);
  inside = in_bytes;
}
  where
    in_bytes : (k : ℕ) → k < suc (length bytes) → get_elem? m' (pa + k) ≡ get_elem? (b ∷ bytes) k
    in_bytes zero h =
        let at_start : pa + 0 ≡ pa = omega arith in
        rw at_start (s.outside pa (omega arith) ∙ get_elem?-set_self m pa b fits)
    in_bytes (suc k) h =
        let shifted : pa + suc k ≡ pa + 1 + k = omega arith in rw shifted (s.inside k (omega arith))

pub put_bytes-Stores :
    (bytes m : List ℕ) (pa : ℕ)
    → pa + length bytes ≤ length m
    → (m' : List ℕ) × (put_bytes m pa bytes ≡ ok m') × Stores m pa bytes m'
unfolding put_bytes
put_bytes-Stores [] m pa h = (
  m,
  refl,
  record { same_size = refl; outside = λ j o. refl; inside = λ k b. absurd (omega arith) },
)
put_bytes-Stores (b ∷ bytes) m pa h =
    let (old, e) = get_elem?-some m pa (omega arith) in
    let (m', e', s) =
      put_bytes-Stores bytes (set m pa b) (pa + 1) (omega (arith, length-set m pa b)) in
    (m', rw e e', Stores-step m pa b bytes m' (omega arith) s)

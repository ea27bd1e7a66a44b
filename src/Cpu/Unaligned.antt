-- ===== src/Cpu/Unaligned.antt =====
-- LWL, LWR, SWL and SWR of machine/mipssim.cc on a word that lies across two words of the memory.
use nachos_assignment.Cpu.Halves.{below_8, below_16, below_24, above_8, above_16, above_24}
use nachos_assignment.Cpu.Bounds.{
  lwl_value-IsMerge, lwr_value-IsMerge, swl_value-IsMerge, swr_value-IsMerge,
}
use nachos_assignment.Cpu.Words.{to_unsigned-lt}
use nachos_assignment.Cpu.Effects.{lwl_value, lwr_value, swl_value, swr_value}
use nachos_assignment.Base.{
  ℕ, zero, suc, ◌+◌, ◌-◌, ◌*◌, ◌/◌, ◌%◌, ◌^◌, ◌<◌, ◌≡◌, sym, ap, ◌∙◌, arith, ℤ, to_unsigned, to_int,
  IsInt, to_int-to_unsigned,
}

-- The word that begins at byte `k` of the first of two words and ends in the second.
abbrev pub across : ℕ → ℤ → ℤ → ℕ
across k first second = to_unsigned first / 256 ^ k + to_unsigned second % 256 ^ k * 256 ^ (4 - k)

-- The two words after a store across them.
abbrev pub first_stored : ℕ → ℤ → ℤ → ℕ
first_stored k first source =
    to_unsigned first % 256 ^ k + to_unsigned source % 256 ^ (4 - k) * 256 ^ k

abbrev pub second_stored : ℕ → ℤ → ℤ → ℕ
second_stored k second source =
    to_unsigned source / 256 ^ (4 - k) + to_unsigned second / 256 ^ k * 256 ^ k

module _ (old first second source : ℤ) (hf : IsInt first) (ho : IsInt old) (hs : IsInt source)
    (h2 : IsInt second) where
  -- What LWR at byte `k` and LWL three bytes further load, and what SWR and SWL there store.
  abbrev Merges : ℕ → Type 0
  Merges k =
      (to_unsigned (lwl_value (k - 1) (lwr_value k old first) second) ≡ across k first second)
      × (to_unsigned (swr_value k first source) ≡ first_stored k first source)
      × (to_unsigned (swl_value (k - 1) second source) ≡ second_stored k second source)

  from_one : Merges 1
  unfolding lwl_value lwr_value swl_value swr_value
  from_one = (
    above_24 _ second ∙ omega (arith, below_24 old first ho hf, to_unsigned-lt first),
    above_8 first source,
    below_8 second source h2 hs,
  )

  from_two : Merges 2
  unfolding lwl_value lwr_value swl_value swr_value
  from_two = (
    above_16 _ second ∙ omega (arith, below_16 old first ho hf, to_unsigned-lt first),
    above_16 first source,
    below_16 second source h2 hs,
  )

  from_three : Merges 3
  unfolding lwl_value lwr_value swl_value swr_value
  from_three = (
    above_8 _ second ∙ omega (arith, below_8 old first ho hf, to_unsigned-lt first),
    above_24 first source,
    below_24 second source h2 hs,
  )

  pub merges_lem : (k : ℕ) → 0 < k → k < 4 → Merges k
  merges_lem zero positive few = absurd (omega arith)
  merges_lem (suc zero) positive few = from_one
  merges_lem (suc (suc zero)) positive few = from_two
  merges_lem (suc (suc (suc zero))) positive few = from_three
  merges_lem (suc (suc (suc (suc k)))) positive few = absurd (omega arith)

-- The digits of a word, cut in two places and put together again.
rejoined :
    (k f2 s2 first second source : ℕ)
    → source < 2 ^ 32
    → 0 < k
    → k < 4
    → f2 ≡ first % 256 ^ k + source % 256 ^ (4 - k) * 256 ^ k
    → s2 ≡ source / 256 ^ (4 - k) + second / 256 ^ k * 256 ^ k
    → f2 / 256 ^ k + s2 % 256 ^ k * 256 ^ (4 - k) ≡ source
rejoined zero f2 s2 first second source h positive few e e' = absurd (omega arith)
rejoined (suc zero) f2 s2 first second source h positive few e e' = omega arith
rejoined (suc (suc zero)) f2 s2 first second source h positive few e e' = omega arith
rejoined (suc (suc (suc zero))) f2 s2 first second source h positive few e e' = omega arith
rejoined (suc (suc (suc (suc k)))) f2 s2 first second source h positive few e e' =
    absurd (omega arith)

-- The two merges of a load, and of a load after the two of a store.
pub merged_lem :
    (k : ℕ) (old first second source : ℤ)
    → 0 < k
    → k < 4
    → IsInt old
    → IsInt first
    → IsInt second
    → IsInt source
    → (to_unsigned (lwl_value (k - 1) (lwr_value k old first) second)
        ≡ to_unsigned first / 256 ^ k + to_unsigned second % 256 ^ k * 256 ^ (4 - k))
      × (lwl_value
            (k - 1)
            (lwr_value k old (swr_value k first source))
            (swl_value (k - 1) second source)
          ≡ source)
merged_lem k old first second source positive few ho hf h2 hs =
    let f2 = swr_value-IsMerge k first source hf hs in
    let s2 = swl_value-IsMerge (k - 1) second source h2 hs in
    let loaded = merges_lem old first second source hf ho hs h2 k positive few in
    let again =
      merges_lem old (swr_value k first source) (swl_value (k - 1) second source) source f2 ho hs s2
        k positive few in
    let int =
      lwl_value-IsMerge (k - 1) (lwr_value k old (swr_value k first source))
        (swl_value (k - 1) second source) (lwr_value-IsMerge k old (swr_value k first source) ho f2)
        s2 in
    (
      loaded.0,
      sym (to_int-to_unsigned _ int)
          ∙ (ap to_int (
                again.0
                ∙ rejoined k _ _ (to_unsigned first) (to_unsigned second) (to_unsigned source)
                    (to_unsigned-lt source) positive few loaded.1 loaded.2)
              ∙ to_int-to_unsigned source hs),
    )

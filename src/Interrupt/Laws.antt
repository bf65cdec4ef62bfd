-- ===== src/Interrupt/Laws.antt =====
-- The mask behaves as a set of numbers, and `peek` gives its least member.
use ceres_vm.Prelude.{
  ℕ, zero, suc, ◌+◌, ◌-◌, ◌^◌, ◌≤◌, ◌<◌, bit_and, ◌≡◌, ◌⊎◌, inl, inr, none, some, arith,
}
use ceres_vm.Prelude.Tests.{ltb, ltb→lt, ◌==◌, if◌then◌else◌, Bool-cases}
use ceres_vm.Prelude.Bits.{
  bit, bit-lt, bit-bit_and, bit-bit_or, bit-pow, bit_complement, bit_test, bit-high, zero-bit,
}
use ceres_vm.Prelude.Widths.{pow-lt}
use ceres_vm.Interrupt.{InterruptController, raise, clear, peek, lowest_from, bit_of}

-- Whether a number is pending.
abbrev pub IsPending : InterruptController → ℕ → Type 0
IsPending c n = bit c.pending n ≡ 1

-- A raise adds its number to the pending ones, whether or not it was there, and nothing else; a clear
-- takes its number out, and nothing else.
pub pending_as_set :
    (n k : ℕ) (c : InterruptController)
    → n < 64
    → c.pending < 2 ^ 64
    → (bit (raise n c).pending k ≡ (if k == n then 1 else bit c.pending k))
      × (bit (clear n c).pending k ≡ (if k == n then 0 else bit c.pending k))
unfolding raise clear
pending_as_set n k c h fits = (
  ground (arith, bit-bit_or c.pending (2 ^ n) k, bit-pow n k, bit-lt c.pending k),
  ground (
    arith,
    bit-bit_and c.pending (2 ^ 64 - 1 - 2 ^ n) k,
    bit_complement 64 (2 ^ n) k (pow-lt n 64 h),
    bit-pow n k,
    bit-lt c.pending k,
    bit-high c.pending 64 k,
  ),
)

-- A digit that the range starts with, or one of those after it.
split_first : (number k : ℕ) → number ≤ k → (number ≡ k) ⊎ (number + 1 ≤ k)
split_first number k p = ground arith

lowest_from-none :
    (left number pending : ℕ)
    → lowest_from left number pending ≡ none
    → (k : ℕ) → number ≤ k
    → k < number + left
    → bit pending k ≡ 0
unfolding lowest_from
lowest_from-none zero number pending h k p q = absurd (omega arith)
lowest_from-none (suc left) number pending h k p q = elim (split_first number k p) [
  | inl e ↦ rw (← e) (ground (arith, bit_test pending number))
  | inr later ↦
      lowest_from-none left (number + 1) pending (ground (arith, bit_test pending number)) k later
        (omega arith)
]

lowest_from-some :
    (left number pending n : ℕ)
    → lowest_from left number pending ≡ some n
    → (bit pending n ≡ 1) × (n < number + left) × ((k : ℕ) → number ≤ k → k < n → bit pending k ≡ 0)
unfolding lowest_from
lowest_from-some zero number pending n h = cc
lowest_from-some (suc left) number pending n h =
    let test = bit_test pending number in
    let digit = bit-lt pending number in
    elim (Bool-cases (bit_and pending (bit_of number) == 0)) [
      | inl e ↦
          let rest = lowest_from-some left (number + 1) pending n (rw e at h) in
          let off : bit pending number ≡ 0 = ground arith in
          (
            rest.0,
            omega (arith, rest.1),
            λ k p q. elim (split_first number k p) [
              | inl same ↦ rw (← same) off
              | inr later ↦ rest.2 k later q
            ],
          )
      | inr e ↦
          let found : number ≡ n = ground arith in
          (rw (← found) (ground arith), omega arith, λ k p q. absurd (omega arith))
    ]

-- `peek` gives none exactly when nothing is pending, and otherwise the lowest pending number.
pub peek_lem :
    (c : InterruptController)
    → c.pending < 2 ^ 64
    → (peek c ≡ none → (k : ℕ) → bit c.pending k ≡ 0)
      × ((n : ℕ)
          → peek c ≡ some n
          → IsPending c n × (n < 64) × ((k : ℕ) → k < n → bit c.pending k ≡ 0))
unfolding peek
peek_lem c fits = elim (Bool-cases (c.pending == 0)) [
  | inl e ↦
      let none_pending : c.pending ≡ 0 = ground arith in
      rw e (λ h k. rw none_pending (zero-bit k), λ n h. cc)
  | inr e ↦ rw e (
    λ h k. elim (Bool-cases (ltb k 64)) [
      | inl low ↦ lowest_from-none 64 0 c.pending h k (omega arith) (ltb→lt k 64 low)
      | inr high ↦ bit-high c.pending 64 k fits (ground arith)
    ],
    λ n h.
        let least = lowest_from-some 64 0 c.pending n h in
        (least.0, least.1, λ k q. least.2 k (omega arith) q),
  )
]

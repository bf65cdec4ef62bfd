-- ===== src/Interrupt/Tests.antt =====
-- The controller with two requests.
use ceres_vm.Prelude.{ℕ, ◌+◌, ◌<◌, ◌≡◌, ◌^◌, none, some, refl, arith}
use ceres_vm.Prelude.Bits.{bit}
use ceres_vm.Interrupt.{InterruptController, peek, lowest_from}
use ceres_vm.Interrupt.Laws.{IsPending, peek_lem}

-- Requests 17 and 20.
abbrev two : InterruptController
two = record { pending = 2 ^ 17 + 2 ^ 20; raises = 2 }

peek-two : peek two ≡ some 17
unfolding peek lowest_from
peek-two = refl

peek_lem_example :
    (peek two ≡ none → (k : ℕ) → bit two.pending k ≡ 0)
    × ((n : ℕ)
        → peek two ≡ some n
        → IsPending two n × (n < 64) × ((k : ℕ) → k < n → bit two.pending k ≡ 0))
peek_lem_example = peek_lem two (omega arith)

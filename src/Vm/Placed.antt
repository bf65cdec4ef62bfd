-- ===== src/Vm/Placed.antt =====
-- The argument strings and the array of their addresses, as `placeArguments` leaves them.
use ceres_vm.Prelude.{
  ℕ, ◌+◌, ◌*◌, ◌^◌, ◌≤◌, ◌<◌, ◌≡◌, refl, ◌∙◌, ap, Bool, true, false, ◌&&◌, ◌||◌, inl, inr, some,
  List, [], ◌∷◌, arith,
}
use ceres_vm.Prelude.Tests.{ltb, leb}
use ceres_vm.Prelude.Lists.{length}
use ceres_vm.Prelude.Words.{u32, add32}
use ceres_vm.Memory.{Memory, read_raw, read_bytes, span_from, write_raw, write_bytes}
use ceres_vm.Memory.Laws.{write_raw_lem}
use ceres_vm.Memory.Blocks.{write_bytes-read_bytes}
use ceres_vm.Vm.Arguments.{strings_size, put_strings}
use ceres_vm.Vm.Frame.{
  Keeps, Keeps-trans, Keeps-weaken, write_raw-Keeps, write_bytes-Keeps, read_raw-Keeps,
  read_bytes-Keeps,
}
use ceres_vm.Vm.Vectors.{read_write_word}

-- The bytes of a string at `base`, and the zero that ends it.
abbrev pub HasString : List ℕ → ℕ → Memory → Type 0
HasString s base m =
    (read_bytes false base (length s) m ≡ some s)
    × (read_bytes false (base + length s) 1 m ≡ some (0 ∷ []))

-- An array of addresses at `slot`, each of its string, that a null pointer ends.
abbrev pub HasStrings : List (List ℕ) → ℕ → Memory → Type 0
HasStrings [] slot m = read_raw 0 4 slot m ≡ 0
HasStrings (s ∷ ss) slot m = HasString s (read_raw 0 4 slot m) m × HasStrings ss (slot + 4) m

-- The same with the strings in order from `cursor` on.
abbrev pub IsPut : List (List ℕ) → ℕ → ℕ → Memory → Type 0
IsPut [] cursor slot m = read_raw 0 4 slot m ≡ 0
IsPut (s ∷ ss) cursor slot m =
    (read_raw 0 4 slot m ≡ cursor)
    × HasString s cursor m
    × IsPut ss (cursor + length s + 1) (slot + 4) m

pub IsPut-HasStrings :
    (ss : List (List ℕ)) (cursor slot : ℕ) (m : Memory)
    → IsPut ss cursor slot m
    → HasStrings ss slot m
IsPut-HasStrings [] cursor slot m h = h
IsPut-HasStrings (s ∷ ss) cursor slot m h =
    (rw h.0 h.1, IsPut-HasStrings ss (cursor + length s + 1) (slot + 4) m h.2)

-- The cells that are neither the strings' nor the array's.
abbrev pub outside : List (List ℕ) → ℕ → ℕ → ℕ → Bool
outside ss cursor slot a =
    (ltb a cursor || leb (cursor + strings_size ss) a)
    && (ltb a slot || leb (slot + (length ss + 1) * 4) a)

HasString-Keeps :
    (kept : ℕ → Bool) (m m' : Memory)
    → Keeps kept m m'
    → (s : List ℕ) (base : ℕ) → ((a : ℕ) → base ≤ a → a < base + length s + 1 → kept a ≡ true)
    → HasString s base m
    → HasString s base m'
HasString-Keeps kept m m' k s base h p = (
  read_bytes-Keeps kept m m' k base (length s) (λ j q. h (base + j) (omega arith) (omega arith))
      ∙ p.0,
  read_bytes-Keeps kept m m' k (base + length s) 1
        (λ j q. h (base + length s + j) (omega arith) (omega arith))
      ∙ p.1,
)

-- Writes elsewhere leave them.
pub IsPut-Keeps :
    (kept : ℕ → Bool) (m m' : Memory)
    → Keeps kept m m'
    → (ss : List (List ℕ)) (cursor slot : ℕ) → slot + (length ss + 1) * 4 ≤ m.size
    → ((a : ℕ) → cursor ≤ a → a < cursor + strings_size ss → kept a ≡ true)
    → ((a : ℕ) → slot ≤ a → a < slot + (length ss + 1) * 4 → kept a ≡ true)
    → IsPut ss cursor slot m
    → IsPut ss cursor slot m'
IsPut-Keeps kept m m' k [] cursor slot fits strings array h =
    read_raw-Keeps kept m m' k slot (omega (arith, fits))
      (λ j p. array (slot + j) (omega arith) (omega arith))
    ∙ h
IsPut-Keeps kept m m' k (s ∷ ss) cursor slot fits strings array h = (
  read_raw-Keeps kept m m' k slot (omega (arith, fits))
        (λ j p. array (slot + j) (omega arith) (omega arith))
      ∙ h.0,
  HasString-Keeps kept m m' k s cursor (λ a p q. strings a p (omega arith)) h.1,
  IsPut-Keeps kept m m' k ss (cursor + length s + 1) (slot + 4) (omega (arith, fits))
      (λ a p q. strings a (omega arith) (omega arith))
      (λ a p q. array a (omega arith) (omega arith)) h.2,
)

put_strings-cons :
    (x : List ℕ) (ss : List (List ℕ)) (cursor slot after : ℕ) (m m1 m' : Memory)
    → write_bytes false cursor x m ≡ some m1
    → put_strings ss
        (cursor + length x + 1)
        (slot + 4)
        (write_raw 0 4 slot cursor (write_raw 0 1 (cursor + length x) 0 m1))
      ≡ some (after, m')
    → cursor + length x + 1 < 2 ^ 32
    → slot + 4 < 2 ^ 32
    → put_strings (x ∷ ss) cursor slot m ≡ some (after, m')
unfolding put_strings
put_strings-cons x ss cursor slot after m m1 m' first rest low small =
    let end : add32 cursor (u32 (length x)) ≡ cursor + length x = omega (arith, low) in
    let next : add32 (cursor + length x) 1 ≡ cursor + length x + 1 = omega (arith, low) in
    let next_slot : add32 slot 4 ≡ slot + 4 = omega (arith, small) in
    rw (first, end, next, next_slot) rest

-- The zero after a string.
zero-read :
    (base : ℕ) (m : Memory)
    → base + 1 ≤ m.size
    → read_bytes false base 1 (write_raw 0 1 base 0 m) ≡ some (0 ∷ [])
unfolding read_bytes span_from
zero-read base m fits = ground (
  arith,
  fits,
  (write_raw_lem 0 1 base 0 m (inl refl)).0,
  (write_raw_lem 0 1 base 0 m (inl refl)).1 base,
)

-- One string, its zero and its address.
put_head :
    (x : List ℕ) (cursor slot : ℕ) (m : Memory)
    → slot + 4 ≤ cursor
    → m.size ≤ 2 ^ 31
    → cursor + length x + 1 ≤ m.size
    → (m1 : Memory) × (write_bytes false cursor x m ≡ some m1)
      × Keeps
          (λ a. (ltb a cursor || leb (cursor + length x + 1) a) && (ltb a slot || leb (slot + 4) a))
          m
          (write_raw 0 4 slot cursor (write_raw 0 1 (cursor + length x) 0 m1))
      × (read_raw 0 4 slot (write_raw 0 4 slot cursor (write_raw 0 1 (cursor + length x) 0 m1))
          ≡ cursor)
      × HasString x cursor (write_raw 0 4 slot cursor (write_raw 0 1 (cursor + length x) 0 m1))
put_head x cursor slot m apart small fits =
    let kept : ℕ → Bool =
      λ a. (ltb a cursor || leb (cursor + length x + 1) a) && (ltb a slot || leb (slot + 4) a) in
    let (m1, e1, k1) =
      write_bytes-Keeps kept cursor x m (omega (arith, fits)) (λ a h. ground (arith, h)) in
    let end : ℕ = cursor + length x in
    let m2 = write_raw 0 1 end 0 m1 in
    let k2 = write_raw-Keeps kept 1 end 0 m1 (inl refl) (λ a h. ground (arith, h)) in
    let m3 = write_raw 0 4 slot cursor m2 in
    let k3 = write_raw-Keeps kept 4 slot cursor m2 (inr (inr refl)) (λ a h. ground (arith, h)) in
    let before : ℕ → Bool = λ a. ltb a end in
    let above : ℕ → Bool = λ a. leb cursor a in
    let b2 = write_raw-Keeps before 1 end 0 m1 (inl refl) (λ a h. inl (ground (arith, h))) in
    let a3 =
      write_raw-Keeps above 4 slot cursor m2 (inr (inr refl))
        (λ a h. inr (ground (arith, h, apart))) in
    (
      m1,
      e1,
      Keeps-trans kept k1 (Keeps-trans kept k2 k3),
      read_write_word slot cursor m2 (omega (arith, k1.size, k2.size, fits, apart))
          ∙ omega (arith, fits, small),
      (
        read_bytes-Keeps above m2 m3 a3 cursor (length x) (λ j p. ground arith)
            ∙ read_bytes-Keeps before m1 m2 b2 cursor (length x) (λ j p. ground (arith, p))
            ∙ (write_bytes-read_bytes false cursor x m e1).0,
        read_bytes-Keeps above m2 m3 a3 end 1 (λ j p. ground arith)
            ∙ zero-read end m1 (omega (arith, k1.size, fits)),
      ),
    )

-- The strings and their addresses are put where there is room for them, and nothing else is changed.
pub put_strings-IsPut :
    (ss : List (List ℕ)) (cursor slot : ℕ) (m : Memory)
    → slot + (length ss + 1) * 4 ≤ cursor
    → m.size ≤ 2 ^ 31
    → cursor + strings_size ss ≤ m.size
    → (m' : Memory) × (put_strings ss cursor slot m ≡ some (cursor + strings_size ss, m'))
      × Keeps (outside ss cursor slot) m m'
      × IsPut ss cursor slot m'
unfolding put_strings
put_strings-IsPut [] cursor slot m apart small fits =
    let e : cursor + 0 ≡ cursor = omega arith in
    (
      write_raw 0 4 slot 0 m,
      rw e refl,
      write_raw-Keeps (outside [] cursor slot) 4 slot 0 m (inr (inr refl))
          (λ a h. ground (arith, h)),
      read_write_word slot 0 m (omega (arith, apart, fits)),
    )
put_strings-IsPut (x ∷ ss) cursor slot m apart small fits =
    let (m1, e1, k, word, string) =
      put_head x cursor slot m (omega (arith, apart)) small (omega (arith, fits)) in
    let end : ℕ = cursor + length x in
    let m3 = write_raw 0 4 slot cursor (write_raw 0 1 end 0 m1) in
    let (m', e, rest, put) =
      put_strings-IsPut ss (end + 1) (slot + 4) m3 (omega (arith, apart))
        (omega (arith, k.size, small)) (omega (arith, k.size, fits)) in
    let whole : end + 1 + strings_size ss ≡ cursor + (length x + 1 + strings_size ss) =
      omega arith in
    let later : ℕ → Bool = outside ss (end + 1) (slot + 4) in
    (
      m',
      put_strings-cons x ss cursor slot (cursor + (length x + 1 + strings_size ss)) m m1 m' e1
          (e ∙ ap (λ t. some (t, m')) whole) (omega (arith, fits, small))
          (omega (arith, apart, fits, small)),
      Keeps-trans (outside (x ∷ ss) cursor slot) (Keeps-weaken _ _ (λ a h. ground (arith, h)) k)
          (Keeps-weaken _ _ (λ a h. ground (arith, h)) rest),
      (
        read_raw-Keeps later m3 m' rest slot (omega (arith, k.size, apart, fits))
              (λ j p. ground (arith, p, apart))
            ∙ word,
        HasString-Keeps later m3 m' rest x cursor (λ a p q. ground (arith, p, q, apart)) string,
        put,
      ),
    )

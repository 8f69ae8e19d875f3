-- ===== src/Goproxy/Counter/Carry.antt =====
-- The counter as a number.
use n6bagent.Prelude.{
  ℕ, suc, ◌+◌, ◌*◌, ◌%◌, ◌^◌, ◌<◌, ◌≡◌, refl, ◌∙◌, ap, [], ◌∷◌, length, All, arith, ◌⊎◌, ltb,
  Bool-cases, inl, inr,
}
use native.Mathlib.Nat.{mod-eq_of_lt, mod_self, pow-succ'}
use n6bagent.Goproxy.Http.{Bytes}
use n6bagent.Goproxy.Counter.{increment}

-- The number of bytes, the lowest first.
abbrev pub value : Bytes → ℕ
value [] = 0
value (b ∷ bs) = b + 256 * value bs

wrap-next :
    (v n : ℕ) → v < n → ((v + 1 < n) × ((v + 1) % n ≡ v + 1)) ⊎ ((v + 1 ≡ n) × ((v + 1) % n ≡ 0))
wrap-next v n lt = elim (Bool-cases (ltb (v + 1) n)) [
  | inl more ↦ let lt' : v + 1 < n = ground arith in inl (lt', mod-eq_of_lt lt')
  | inr last ↦ let e : v + 1 ≡ n = ground arith in inr (e, ap (λ (k : ℕ). k % n) e ∙ mod_self n)
]

pow_suc : (n : ℕ) → 256 ^ suc n ≡ 256 * 256 ^ n
pow_suc n = pow-succ' 256 n

value-lt : (bs : Bytes) → All (λ b. b < 256) bs → value bs < 256 ^ length bs
value-lt [] all = omega arith
value-lt (b ∷ bs) (lt, all) = omega (arith, value-lt bs all, pow_suc (length bs))

-- The counter counts up by one, and wraps around from its greatest value to zero.
pub value-increment :
    (bs : Bytes) → All (λ b. b < 256) bs → value (increment bs) ≡ (value bs + 1) % 256 ^ length bs
unfolding increment
value-increment [] all = refl
value-increment (b ∷ bs) (lt, all) =
    let here = wrap-next b 256 lt in
    let low = value-lt (b ∷ bs) (lt, all) in
    let whole = wrap-next (value (b ∷ bs)) (256 ^ suc (length bs)) low in
    let rest = wrap-next (value bs) (256 ^ length bs) (value-lt bs all) in
    ground (arith, here, whole, rest, value-increment bs all, pow_suc (length bs))

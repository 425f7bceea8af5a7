-- ===== src/Engine/PrefixHash/Encoding.antt =====
-- The bytes that are hashed, and what they determine.
use native.Mathlib.Nat.{pow-suc}
use turboserve.Prelude.{
  ℕ, zero, suc, ◌+◌, ◌*◌, ◌/◌, ◌%◌, ◌^◌, ◌<◌, ◌≡◌, refl, sym, ap, ◌∙◌, List, [], ◌∷◌, ◌++◌, arith,
  length, length-append, take, drop, append-cancel,
}
use turboserve.Engine.PrefixHash.{le_bytes, token_bytes, message}

length-le_bytes : (k n : ℕ) → length (le_bytes k n) ≡ k
unfolding le_bytes
length-le_bytes zero n = refl
length-le_bytes (suc k) n = omega (arith, length-le_bytes k (n / 256))

le_bytes-injective : (k a b : ℕ) → le_bytes k a ≡ le_bytes k b → a < 256 ^ k → b < 256 ^ k → a ≡ b
unfolding le_bytes
le_bytes-injective zero a b e ha hb = omega arith
le_bytes-injective (suc k) a b e ha hb =
    let p = pow-suc 256 k in
    let low : a % 256 ≡ b % 256 = cc in
    let high : a / 256 ≡ b / 256 =
      le_bytes-injective k (a / 256) (b / 256) (cc) (omega (arith, p)) (omega (arith, p)) in
    omega (arith, low, high)

-- The range of a signed 64-bit integer that is not negative.
abbrev pub IsInt64 : ℕ → Type 0
IsInt64 n = n < 2 ^ 63

abbrev pub AllInt64 : List ℕ → Type 0
AllInt64 [] = Unit
AllInt64 (t ∷ ts) = IsInt64 t × AllInt64 ts

pub AllInt64-take : (n : ℕ) (ts : List ℕ) → AllInt64 ts → AllInt64 (take n ts)
AllInt64-take zero ts h = tt
AllInt64-take (suc n) [] h = tt
AllInt64-take (suc n) (t ∷ ts) h = (h.0, AllInt64-take n ts h.1)

pub AllInt64-drop : (n : ℕ) (ts : List ℕ) → AllInt64 ts → AllInt64 (drop n ts)
AllInt64-drop zero ts h = h
AllInt64-drop (suc n) [] h = tt
AllInt64-drop (suc n) (t ∷ ts) h = AllInt64-drop n ts h.1

length-token_bytes : (ts : List ℕ) → length (token_bytes ts) ≡ 8 * length ts
unfolding token_bytes
length-token_bytes [] = refl
length-token_bytes (t ∷ ts) = omega (
  arith,
  length-append (le_bytes 8 t) (token_bytes ts),
  length-le_bytes 8 t,
  length-token_bytes ts,
)

token_bytes-injective :
    (ts us : List ℕ) → token_bytes ts ≡ token_bytes us → AllInt64 ts → AllInt64 us → ts ≡ us
unfolding token_bytes
token_bytes-injective [] [] e ht hu = refl
token_bytes-injective [] (u ∷ us) e ht hu =
    absurd (
      omega
        (arith, ap length e, length-append (le_bytes 8 u) (token_bytes us), length-le_bytes 8 u))
token_bytes-injective (t ∷ ts) [] e ht hu =
    absurd (
      omega
        (arith, ap length e, length-append (le_bytes 8 t) (token_bytes ts), length-le_bytes 8 t))
token_bytes-injective (t ∷ ts) (u ∷ us) e ht hu =
    let (p, q) =
      append-cancel (le_bytes 8 t) (le_bytes 8 u) (token_bytes ts) (token_bytes us) e
        (length-le_bytes 8 t ∙ sym (length-le_bytes 8 u)) in
    let head : t ≡ u = le_bytes-injective 8 t u p (omega arith) (omega arith) in
    let rest : ts ≡ us = token_bytes-injective ts us q ht.1 hu.1 in cc

pub length-message :
    (parent tokens : List ℕ) (lora : ℕ)
    → length (message parent tokens lora) ≡ length parent + 8 + 8 * length tokens
unfolding message
length-message parent tokens lora = omega (
  arith,
  length-append parent (le_bytes 8 lora ++ token_bytes tokens),
  length-append (le_bytes 8 lora) (token_bytes tokens),
  length-le_bytes 8 lora,
  length-token_bytes tokens,
)

pub message-injective :
    (p q ts us : List ℕ) (l k : ℕ)
    → length p ≡ length q
    → message p ts l ≡ message q us k
    → IsInt64 l
    → IsInt64 k
    → AllInt64 ts
    → AllInt64 us
    → (p ≡ q) × (l ≡ k) × (ts ≡ us)
unfolding message
message-injective p q ts us l k n e hl hk ht hu =
    let (a, b) =
      append-cancel p q (le_bytes 8 l ++ token_bytes ts) (le_bytes 8 k ++ token_bytes us) e n in
    let (c, d) =
      append-cancel (le_bytes 8 l) (le_bytes 8 k) (token_bytes ts) (token_bytes us) b
        (length-le_bytes 8 l ∙ sym (length-le_bytes 8 k)) in
    (a, le_bytes-injective 8 l k c (omega arith) (omega arith), token_bytes-injective ts us d ht hu)

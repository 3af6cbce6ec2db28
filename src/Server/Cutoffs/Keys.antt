-- ===== src/Server/Cutoffs/Keys.antt =====
-- The keys of cards, passkeys and the membership change.
use vps_scaffold_auth.Common.{
  ℕ, zero, suc, ◌+◌, ◌-◌, ◌*◌, ◌/◌, ◌%◌, ◌<◌, ◌≡◌, refl, sym, ap, ◌∙◌, ◌≢◌, inl, inr, Bool, true,
  [], ◌∷◌, ◌++◌, arith, ltb, nat_beq, Bool-cases, ◌==◌, Bytes, bytes_beq_iff, nat_eq, bytes_eq,
  pair_eq,
}
use vps_scaffold_auth.Server.Cutoffs.{format_rounds, format_int, card_key, passkey_key, groups_key}

-- the number that a text of digits stands for
value : ℕ → Bytes → ℕ
value acc [] = acc
value acc (d ∷ s) = value (acc * 10 + (d - 48)) s

value-append : (acc d : ℕ) (s : Bytes) → value acc (s ++ d ∷ []) ≡ value acc s * 10 + (d - 48)
unfolding value
value-append acc d [] = refl
value-append acc d (x ∷ s) = value-append (acc * 10 + (x - 48)) d s

value-format_rounds : (f n : ℕ) → n < f → value 0 (format_rounds f n) ≡ n
unfolding format_rounds value
value-format_rounds zero n h = absurd (omega arith)
value-format_rounds (suc f) n h = elim (Bool-cases (ltb n 10)) [
  | inl q ↦ rw (q, format_rounds) (omega arith)
  | inr q ↦
      rw (q, format_rounds)
        (value-append 0 (48 + n % 10) (format_rounds f (n / 10))
          ∙ rw (value-format_rounds f (n / 10) (ground arith)) (omega arith))
]

format_int-injective : (m n : ℕ) → format_int m ≡ format_int n → m ≡ n
unfolding format_int
format_int-injective m n h =
    sym (value-format_rounds (suc m) m (omega arith))
    ∙ ap (value 0) h
    ∙ value-format_rounds (suc n) n (omega arith)

skip : ℕ → Bytes → Bytes
skip zero s = s
skip (suc n) [] = []
skip (suc n) (c ∷ s) = skip n s

first : Bytes → ℕ
first [] = 0
first (c ∷ s) = c

same_key : (b : Bool) (m n : ℕ) → (b ≡ true → m ≡ n) → (m ≡ n → b ≡ true) → b ≡ nat_beq m n
same_key b m n f g = ground (arith, f, g)

same_card : (m n : ℕ) → (card_key m == card_key n) ≡ nat_beq m n
unfolding card_key skip
same_card m n =
    same_key (card_key m == card_key n) m n
      (λ h. format_int-injective m n (ap (skip 5) ((bytes_beq_iff (card_key m) (card_key n)).0 h)))
      (λ e. (bytes_beq_iff (card_key m) (card_key n)).1 (ap card_key e))

same_passkey : (m n : ℕ) → (passkey_key m == passkey_key n) ≡ nat_beq m n
unfolding passkey_key skip
same_passkey m n =
    same_key (passkey_key m == passkey_key n) m n
      (λ h.
        format_int-injective m n
          (ap (skip 8) ((bytes_beq_iff (passkey_key m) (passkey_key n)).0 h)))
      (λ e. (bytes_beq_iff (passkey_key m) (passkey_key n)).1 (ap passkey_key e))

-- Two cards have one key exactly if they are one card, and so for passkeys; no card's key is a
-- passkey's, and neither is the key of the membership change.
pub keys_apart :
    (m n : ℕ)
    → ((card_key m == card_key n) ≡ nat_beq m n)
      × ((passkey_key m == passkey_key n) ≡ nat_beq m n)
      × (card_key m ≢ passkey_key n)
      × (card_key m ≢ groups_key)
      × (passkey_key m ≢ groups_key)
unfolding card_key passkey_key first
keys_apart m n = (
  same_card m n,
  same_passkey m n,
  λ h. absurd (omega (arith, ap first h)),
  λ h. absurd (omega (arith, ap first h)),
  λ h. absurd (omega (arith, ap first h)),
)

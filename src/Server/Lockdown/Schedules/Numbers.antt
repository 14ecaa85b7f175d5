-- ===== src/Server/Lockdown/Schedules/Numbers.antt =====
-- internal/server/lockdown.go: a number that is printed is read back.
use argo_watcher.Common.{
  ℕ, zero, suc, ◌+◌, ◌-◌, ◌*◌, ◌/◌, ◌%◌, ◌^◌, ◌<◌, ◌≤◌, String, true, false, ◌&&◌, Option, none,
  some, str_eq, eq_iff, Char, code, ltb, leb, ◌==◌, ◌⧺◌, ◌≢◌, ◌≡◌, refl, sym, ap, ◌∙◌, arith, inl,
  inr, Bool-cases,
}
use argo_watcher.Common.Split.{trim_right, is_space}
use argo_watcher.Common.Split.Separator.{Free}
use text.Mathlib.TextLemmas.{nil-append, cons-append, append-eq-nil_iff}
use argo_watcher.Models.Report.Failure.{digit, decimal, decimal_from}
use argo_watcher.Server.Lockdown.Schedules.{digits_from, unsigned, atoi}

abbrev then_digits : Option ℕ → String → Option ℕ
then_digits none s = none
then_digits (some n) s = digits_from n s

digits_from-append :
    (n : ℕ) (s t : String) → digits_from n (s ⧺ t) ≡ then_digits (digits_from n s) t
unfolding digits_from
digits_from-append n String.[] t = ap (digits_from n) (nil-append t)
digits_from-append n (String.◌∷◌ c s) t =
    ap (digits_from n) (cons-append c s t)
    ∙ elim (Bool-cases (leb 48 (code c) && leb (code c) 57)) [
      | inl b ↦ rw b (digits_from-append (n * 10 + (code c - 48)) s t)
      | inr b ↦ rw b refl
    ]

digits_from-digit : (n d : ℕ) → d < 10 → digits_from n (digit d) ≡ some (n * 10 + d)
unfolding digits_from
digits_from-digit n zero h = refl
digits_from-digit n (suc zero) h = refl
digits_from-digit n (suc (suc zero)) h = refl
digits_from-digit n (suc (suc (suc zero))) h = refl
digits_from-digit n (suc (suc (suc (suc zero)))) h = refl
digits_from-digit n (suc (suc (suc (suc (suc zero))))) h = refl
digits_from-digit n (suc (suc (suc (suc (suc (suc zero)))))) h = refl
digits_from-digit n (suc (suc (suc (suc (suc (suc (suc zero))))))) h = refl
digits_from-digit n (suc (suc (suc (suc (suc (suc (suc (suc zero)))))))) h = refl
digits_from-digit n (suc (suc (suc (suc (suc (suc (suc (suc (suc zero))))))))) h = refl
digits_from-digit n (suc (suc (suc (suc (suc (suc (suc (suc (suc (suc d)))))))))) h =
    absurd (omega (arith, h))

digits_from-decimal_from : (fuel n : ℕ) → n < fuel → digits_from 0 (decimal_from fuel n) ≡ some n
unfolding decimal_from
digits_from-decimal_from zero n h = absurd (omega (arith, h))
digits_from-decimal_from (suc fuel) n h = elim (Bool-cases (ltb n 10)) [
  | inl b ↦ rw b (digits_from-digit 0 n (ground (arith, b)) ∙ ap (λ m. some m) (omega arith))
  | inr b ↦
      let long : 10 ≤ n = ground (arith, b) in
      let d = n % 10 in
      rw b (
        digits_from-append 0 (decimal_from fuel (n / 10)) (digit d)
        ∙ ap (λ o. then_digits o (digit d))
            (digits_from-decimal_from fuel (n / 10) (omega (arith, h, long)))
        ∙ digits_from-digit (n / 10) d (omega arith)
        ∙ ap (λ m. some m) (omega arith))
]

digits_from-decimal : (n : ℕ) → digits_from 0 (decimal n) ≡ some n
unfolding decimal
digits_from-decimal n = digits_from-decimal_from (suc n) n (omega arith)

pub decimal-not_empty : (n : ℕ) → decimal n ≢ ""
unfolding decimal decimal_from digits_from
decimal-not_empty zero h = let q : false ≡ true = (eq_iff "0" "").1 h in cc q
decimal-not_empty (suc n) h =
    let q : some 0 ≡ some (suc n) = ap (digits_from 0) (sym h) ∙ digits_from-decimal (suc n) in
    absurd (ground (arith, q))

not_equal : (s t : String) → s ≢ t → str_eq s t ≡ false
not_equal s t h = elim (Bool-cases (str_eq s t)) [
  | inl k ↦ absurd (h ((eq_iff s t).0 k))
  | inr k ↦ k
]

first_digit :
    (c : Char) (s : String) (m n : ℕ)
    → digits_from m (String.◌∷◌ c s) ≡ some n
    → (leb 48 (code c) && leb (code c) 57) ≡ true
unfolding digits_from
first_digit c s m n h = elim (Bool-cases (leb 48 (code c) && leb (code c) 57)) [
  | inl k ↦ k
  | inr k ↦ absurd (let q : ◌≡◌ {A = Option ℕ} none (some n) = rw k at h in cc q)
]

digit-not_plus : (c : ℕ) → (leb 48 c && leb c 57) ≡ true → (c == 43) ≡ false
digit-not_plus c h = ground (arith, h)

digit-not_space : (c : ℕ) → (leb 48 c && leb c 57) ≡ true → is_space c ≡ false
digit-not_space c h = ground (arith, h)

atoi-digits :
    (s : String) (n : ℕ) → digits_from 0 s ≡ some n → s ≢ "" → n < 2 ^ 63 → atoi s ≡ some n
unfolding atoi unsigned digits_from
atoi-digits String.[] n d h l = absurd (h refl)
atoi-digits (String.◌∷◌ c s) n d h l =
    let plus = digit-not_plus (code c) (first_digit c s 0 n d) in
    let full : str_eq (String.◌∷◌ c s) "" ≡ false = not_equal (String.◌∷◌ c s) "" h in
    let small : ltb n (2 ^ 63) ≡ true = ground (arith, l) in simp (plus, full, d, small) refl

-- A number that is printed is read back.
pub atoi-decimal : (n : ℕ) → n < 2 ^ 63 → atoi (decimal n) ≡ some n
atoi-decimal n l = atoi-digits (decimal n) n (digits_from-decimal n) (decimal-not_empty n) l

digits-Free :
    (b : ℕ) (s : String) (m n : ℕ)
    → (leb 48 b && leb b 57) ≡ false
    → digits_from m s ≡ some n
    → Free b s
unfolding digits_from
digits-Free b String.[] m n o h = tt
digits-Free b (String.◌∷◌ c s) m n o h = elim (Bool-cases (leb 48 (code c) && leb (code c) 57)) [
  | inl k ↦ (ground (arith, o, k), digits-Free b s (m * 10 + (code c - 48)) n o (rw k at h))
  | inr k ↦ absurd (let q : ◌≡◌ {A = Option ℕ} none (some n) = rw k at h in cc q)
]

pub decimal-Free : (b n : ℕ) → (leb 48 b && leb b 57) ≡ false → Free b (decimal n)
decimal-Free b n o = digits-Free b (decimal n) 0 n o (digits_from-decimal n)

-- A text that ends in a number has no space at its end.
trim_right-digits : (s : String) (m n : ℕ) → digits_from m s ≡ some n → trim_right s ≡ s
unfolding digits_from trim_right
trim_right-digits String.[] m n h = refl
trim_right-digits (String.◌∷◌ c s) m n h =
    let digit = first_digit c s m n h in
    let later = trim_right-digits s (m * 10 + (code c - 48)) n (rw digit at h) in
    simp (digit-not_space (code c) digit, later) refl

pub trim_right-append : (x s : String) → trim_right s ≡ s → s ≢ "" → trim_right (x ⧺ s) ≡ x ⧺ s
unfolding trim_right
trim_right-append String.[] s h k = ap trim_right (nil-append s) ∙ h ∙ sym (nil-append s)
trim_right-append (String.◌∷◌ c x) s h k =
    let later = trim_right-append x s h k in
    let full : str_eq (x ⧺ s) "" ≡ false =
      not_equal (x ⧺ s) "" (λ e. k (append-eq-nil_iff.0 e).1) in
    ap trim_right (cons-append c x s) ∙ ends c (x ⧺ s) later full ∙ sym (cons-append c x s)
  where
    ends :
        (d : Char) (y : String)
        → trim_right y ≡ y
        → str_eq y "" ≡ false
        → trim_right (String.◌∷◌ d y) ≡ String.◌∷◌ d y
    ends d y e f =
        rw (e, f) (elim (Bool-cases (is_space (code d))) [ inl b ↦ rw b refl | inr b ↦ rw b refl ])

pub trim_right-decimal : (n : ℕ) → trim_right (decimal n) ≡ decimal n
trim_right-decimal n = trim_right-digits (decimal n) 0 n (digits_from-decimal n)

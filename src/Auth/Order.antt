-- ===== src/Auth/Order.antt =====
-- internal/auth/auth.go: the order in which the strategies are walked does not matter.
use argo_watcher.Common.{
  String, Bool, true, false, ◌&&◌, ◌||◌, not, List, [], ◌∷◌, Option, none, some, str_eq,
  if◌then◌else◌, any, is_some, Bool-cases, inl, inr, ◌≡◌, refl, sym, ap, ap₂, ◌∙◌,
}
use argo_watcher.Auth.{
  AuthError, Answer, AuthStrategy, parse_auth_token, after_answer, at_end, Strategies, walk_from,
  walk,
}
use mathlib.Core.List.{Perm, Permᴰ}
use mathlib.Core.Logic.{∥∥₁_elim}
use mathlib.Core.Bool.{Bool-set}

-- How a request's credentials are judged.
pub data Verdict : Type 0 where
  authenticated provider_down refused not_provided : Verdict

abbrev pub verdict : Answer → Verdict
verdict (true, e) = authenticated
verdict (false, none) = not_provided
verdict (false, some e) = if e.provider_unavailable then provider_down else refused

abbrev pub accepts : Answer → Bool
accepts (valid, e) = valid

abbrev pub is_down : Answer → Bool
is_down (true, e) = false
is_down (false, none) = false
is_down (false, some e) = e.provider_unavailable

abbrev pub rejects : Answer → Bool
rejects (true, e) = false
rejects (false, none) = false
rejects (false, some e) = not e.provider_unavailable

-- The verdict from what was found anywhere.
abbrev pub judged : Bool → Bool → Bool → Verdict
judged true down rejected = authenticated
judged false true rejected = provider_down
judged false false true = refused
judged false false false = not_provided

injected : {x y : AuthError} → some x ≡ some y → x ≡ y
injected e = cc e

-- The errors that the walk carries are of their kind.
abbrev OfKind : Option AuthError → Option AuthError → Type 0
OfKind rejected unavailable =
    ((e : AuthError) → rejected ≡ some e → e.provider_unavailable ≡ false)
    × ((e : AuthError) → unavailable ≡ some e → e.provider_unavailable ≡ true)

at_end-judged :
    (rejected unavailable : Option AuthError)
    → OfKind rejected unavailable
    → verdict (at_end rejected unavailable) ≡ judged false (is_some unavailable) (is_some rejected)
at_end-judged none none k = refl
at_end-judged (some e) none k = simp (k.0 e refl)
at_end-judged rejected (some e) k = simp (k.1 e refl)

or-false : (b : Bool) → (b || false) ≡ b
or-false true = refl
or-false false = refl

or-true : (b : Bool) → (b || true) ≡ true
or-true true = refl
or-true false = refl

-- The step of the walk, over what it finds in the rest.
after_answer-judged :
    (x : Answer) (rejected unavailable : Option AuthError)
    (rest : Option AuthError → Option AuthError → Answer) (a d j : Bool)
    → OfKind rejected unavailable
    → ((r u : Option AuthError)
        → OfKind r u
        → verdict (rest r u) ≡ judged a (is_some u || d) (is_some r || j))
    → verdict (after_answer x rejected unavailable rest)
      ≡ judged
          (accepts x || a)
          (is_some unavailable || (is_down x || d))
          (is_some rejected || (rejects x || j))
after_answer-judged (true, e) rejected unavailable rest a d j k h = refl
after_answer-judged (false, none) rejected unavailable rest a d j k h = h rejected unavailable k
after_answer-judged (false, some e) rejected unavailable rest a d j k h =
    elim (Bool-cases e.provider_unavailable) [
      | inl b ↦
          simp (b, or-true (is_some unavailable))
            (h rejected (some e)
              (k.0, λ x q. ap (λ y. y.provider_unavailable) (sym (injected q)) ∙ b))
      | inr b ↦
          simp (b, or-true (is_some rejected))
            (h (some e) unavailable
              (λ x q. ap (λ y. y.provider_unavailable) (sym (injected q)) ∙ b, k.1))
    ]

module _ (check : AuthStrategy → String → Answer) (request : String → String) where
  -- A property of the answer to a strategy's token; a header without a token has none.
  abbrev pub says : (Answer → Bool) → String × AuthStrategy → Bool
  says p (header, strategy) =
      not (str_eq (parse_auth_token request header) "")
      && p (check strategy (parse_auth_token request header))

  walk_from-judged :
      (strategies : Strategies) (rejected unavailable : Option AuthError)
      → OfKind rejected unavailable
      → verdict (walk_from check request strategies rejected unavailable)
        ≡ judged
            (any (says accepts) strategies)
            (is_some unavailable || any (says is_down) strategies)
            (is_some rejected || any (says rejects) strategies)
  unfolding walk_from
  walk_from-judged [] rejected unavailable k =
      rw (or-false (is_some unavailable), or-false (is_some rejected))
        (at_end-judged rejected unavailable k)
  walk_from-judged ((header, strategy) ∷ rest) rejected unavailable k =
      elim (Bool-cases (str_eq (parse_auth_token request header) "")) [
        | inl e ↦ rw (e) (walk_from-judged rest rejected unavailable k)
        | inr e ↦ rw (e) (
            after_answer-judged (check strategy (parse_auth_token request header)) rejected
              unavailable (λ r u. walk_from check request rest r u) (any (says accepts) rest)
              (any (says is_down) rest) (any (says rejects) rest) k
              (λ r u l. walk_from-judged rest r u l))
      ]

or_swap : (a b c : Bool) → (a || (b || c)) ≡ (b || (a || c))
or_swap true true c = refl
or_swap true false c = refl
or_swap false true c = refl
or_swap false false c = refl

any-Permᴰ : {A : Type 0} (p : A → Bool) {xs ys : List A} → Permᴰ xs ys → any p xs ≡ any p ys
any-Permᴰ p Permᴰ.nil = refl
any-Permᴰ p (Permᴰ.cons {a} {b} {l₁} {l₂} e q) = ap₂ (λ x y. x || y) (ap p e) (any-Permᴰ p q)
any-Permᴰ p (Permᴰ.swap {a} {b} {a'} {b'} {l} e f) =
    ap₂ (λ x y. x || (y || any p l)) (ap p e) (ap p f) ∙ or_swap (p b') (p a') (any p l)
any-Permᴰ p (Permᴰ.trans q r) = any-Permᴰ p q ∙ any-Permᴰ p r

any-Perm : {A : Type 0} (p : A → Bool) {xs ys : List A} → Perm xs ys → any p xs ≡ any p ys
any-Perm p q = ∥∥₁_elim q (Bool-set _ _) (any-Permᴰ p)

-- A request is judged by what its credentials are, not by the order of the strategies: it is let
-- through if one is accepted, else the provider is reported as down if one could not be asked about,
-- else it is refused if one was rejected, else it brought no credential.
pub walk-Perm :
    (check : AuthStrategy → String → Answer) (request : String → String) (s s' : Strategies)
    → Perm s s'
    → (verdict (walk check request s)
        ≡ judged
            (any (says check request accepts) s)
            (any (says check request is_down) s)
            (any (says check request rejects) s))
      × (verdict (walk check request s) ≡ verdict (walk check request s'))
unfolding walk
walk-Perm check request s s' p =
    let kind : OfKind none none = (λ e q. cc q, λ e q. cc q) in
    let one = walk_from-judged check request s none none kind in
    let other = walk_from-judged check request s' none none kind in
    (
      one,
      one
          ∙ cc (
            any-Perm (says check request accepts) p,
            any-Perm (says check request is_down) p,
            any-Perm (says check request rejects) p,
          )
          ∙ sym other,
    )

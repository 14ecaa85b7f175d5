-- ===== src/Client/Requests/Retries.antt =====
-- internal/client/utility.go: how often a request is sent, and which reply decides.
use argo_watcher.Common.{
  ℕ, zero, suc, ◌+◌, ◌≤◌, ◌<◌, String, Bool, true, false, Option, ◌≡◌, refl, sym, ap, subst, arith,
}
use argo_watcher.Client.Requests.{
  Reply, TaskStatus, RequestError, Got, got, transient, terminal, Decoded, Result, ok, err,
  get_json_once, after_try, get_json_from, get_json,
}

module _ {A : Type 0} where
  -- How a reply is the result: the last that is allowed also if its failure may pass.
  abbrev pub Decides : Bool → Got A → Result A → Type 0
  Decides last (got a) (ok b) = a ≡ b
  Decides last (got a) (err e) = ⊥
  Decides last (terminal d) (ok b) = ⊥
  Decides last (terminal d) (err e) = d ≡ e
  Decides last (transient d) (ok b) = ⊥
  Decides last (transient d) (err e) = (d ≡ e) × (last ≡ true)

  module _ (decode_status : String → Option TaskStatus) (decode : String → Decoded A)
      (feed : ℕ → Reply) where
    abbrev once : ℕ → Got A
    once i = get_json_once decode_status decode (feed i)

    -- From the reply `i` on, with so many retries left.
    abbrev pub DecidedFrom : ℕ → ℕ → Result A × ℕ → Type 0
    DecidedFrom left i (result, sent) =
        (n : ℕ) × (sent ≡ suc n)
        × (n ≤ left)
        × ((j : ℕ) → j < n → (e : RequestError) × (once (i + j) ≡ transient e))
        × ((last : Bool) × (last ≡ true → n ≡ left) × Decides last (once (i + n)) result)

    at_once : (i : ℕ) (g : Got A) → once i ≡ g → once (i + 0) ≡ g
    at_once i g e = let z : i + 0 ≡ i = omega arith in rw z e

    earlier :
        (i n : ℕ) (e : RequestError)
        → once i ≡ transient e
        → ((j : ℕ) → j < n → (d : RequestError) × (once (suc i + j) ≡ transient d))
        → (j : ℕ) → j < suc n
        → (d : RequestError) × (once (i + j) ≡ transient d)
    earlier i n e now later zero l = (e, at_once i (transient e) now)
    earlier i n e now later (suc j) l =
        let s : suc i + j ≡ i + suc j = omega arith in
        let (d, h) = later j (omega (arith, l)) in (d, subst (λ k. once k ≡ transient d) s h)

    after_try-DecidedFrom :
        (left i : ℕ) (g : Got A) (more : Result A × ℕ)
        → once i ≡ g
        → (0 < left → (left' : ℕ) × (left ≡ suc left') × DecidedFrom left' (suc i) more)
        → DecidedFrom left i (after_try decode_status decode left g more)
    after_try-DecidedFrom left i (got a) more e rest = (
      0,
      refl,
      omega arith,
      λ j l. absurd (omega (arith, l)),
      (
        false,
        λ f. absurd (cc f),
        subst (λ g. Decides false g (ok a)) (sym (at_once i (got a) e)) refl,
      ),
    )
    after_try-DecidedFrom left i (terminal d) more e rest = (
      0,
      refl,
      omega arith,
      λ j l. absurd (omega (arith, l)),
      (
        false,
        λ f. absurd (cc f),
        subst (λ g. Decides false g (err d)) (sym (at_once i (terminal d) e)) refl,
      ),
    )
    after_try-DecidedFrom zero i (transient d) more e rest = (
      0,
      refl,
      omega arith,
      λ j l. absurd (omega (arith, l)),
      (
        true,
        λ f. refl,
        subst (λ g. Decides true g (err d)) (sym (at_once i (transient d) e)) (refl, refl),
      ),
    )
    after_try-DecidedFrom (suc left) i (transient d) (result, sent) e rest =
        let (left', l, (n, s, b, before, (last, final, x))) = rest (omega arith) in
        let k : suc i + n ≡ i + suc n = omega arith in
        (
          suc n,
          ap suc s,
          omega (arith, b, l),
          earlier i n d e before,
          (last, λ f. omega (arith, final f, l), subst (λ m. Decides last (once m) result) k x),
        )

    get_json_from-DecidedFrom :
        (left i : ℕ) → DecidedFrom left i (get_json_from decode_status decode left feed i)
    unfolding get_json_from
    get_json_from-DecidedFrom zero i =
        after_try-DecidedFrom zero i (once i) _ refl (λ l. absurd (omega (arith, l)))
    get_json_from-DecidedFrom (suc left) i =
        after_try-DecidedFrom (suc left) i (once i) _ refl
          (λ _. (left, refl, get_json_from-DecidedFrom left (suc i)))

-- A request is sent at most four times; every reply before the last is a failure that `getJSONOnce` takes
-- for transient. The result is what the last reply says: its value, its failure if that is terminal,
-- and its transient failure only if it was the fourth.
pub get_json-DecidedFrom :
    {A : Type 0} (decode_status : String → Option TaskStatus) (decode : String → Decoded A)
    (feed : ℕ → Reply)
    → DecidedFrom decode_status decode feed 3 0 (get_json decode_status decode feed)
unfolding get_json
get_json-DecidedFrom decode_status decode feed =
    get_json_from-DecidedFrom decode_status decode feed 3 0

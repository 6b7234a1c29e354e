-- ===== src/Str/Search.antt =====
-- memmem against what it is to find: the first place where the needle stands.
use mathlib.Core.Path.{subst}
use ceres_standard_library.Prelude.{
  ℕ, zero, suc, ◌+◌, ◌-◌, ◌<◌, ◌≤◌, ◌≡◌, ◌⊎◌, inl, inr, refl, sym, ap, ◌∙◌, arith, Bool, true,
  false, ◌&&◌, Option, none, some, List, [], ◌∷◌, drop, ◌==◌, if◌then◌else◌, dec_lt, lt→ltb,
  le→ltb_false, ==_iff,
}
use ceres_standard_library.Str.{at, same_bytes, memmem_from, memmem}

-- `nl` bytes of the needle stand at index `j` of the haystack
abbrev pub StandsAt : List ℕ → List ℕ → ℕ → ℕ → Type 0
StandsAt hay needle nl j = (k : ℕ) → k < nl → at hay (j + k) ≡ at needle k

same_sum : (j k : ℕ) → suc j + k ≡ suc (j + k)
same_sum j k = omega arith

at-drop : (j : ℕ) (s : List ℕ) (k : ℕ) → at (drop j s) k ≡ at s (j + k)
at-drop zero s k = ap (at s) (omega arith)
at-drop (suc j) [] k = refl
at-drop (suc j) (x ∷ s) k = at-drop j s k ∙ sym (ap (at (x ∷ s)) (same_sum j k))

at-tail : (s : List ℕ) (k : ℕ) → at (drop 1 s) k ≡ at s (suc k)
at-tail [] k = refl
at-tail (x ∷ s) k = refl

both : (a b : Bool) → a && b ≡ true → (a ≡ true) × (b ≡ true)
both a b e = ground arith

same_bytes-true :
    (n : ℕ) (h nd : List ℕ) → same_bytes n h nd ≡ true → (k : ℕ) → k < n → at h k ≡ at nd k
same_bytes-true zero h nd e k less = absurd (omega arith)
same_bytes-true (suc n) h nd e zero less = (==_iff _ _).0 ((both _ _ e).0)
same_bytes-true (suc n) h nd e (suc k) less =
    sym (at-tail h k)
    ∙ same_bytes-true n (drop 1 h) (drop 1 nd) ((both _ _ e).1) k (omega arith)
    ∙ at-tail nd k

true-same_bytes :
    (n : ℕ) (h nd : List ℕ) → ((k : ℕ) → k < n → at h k ≡ at nd k) → same_bytes n h nd ≡ true
true-same_bytes zero h nd e = refl
true-same_bytes (suc n) h nd e = rw ((==_iff (at h 0) (at nd 0)).1 (e 0 (omega arith))) (
    true-same_bytes n (drop 1 h) (drop 1 nd)
      (λ k less. at-tail h k ∙ e (suc k) (omega arith) ∙ sym (at-tail nd k)))

-- what the search from index `i` on gives, with the starting points before `stop`
abbrev pub IsFirst : List ℕ → List ℕ → ℕ → ℕ → ℕ → Option ℕ → Type 0
IsFirst hay needle nl i stop found =
    ((found ≡ none) × ((j : ℕ) → i ≤ j → j < stop → ¬ StandsAt hay needle nl j))
    ⊎ ((place : ℕ) × (found ≡ some place)
        × (i ≤ place)
        × (place < stop)
        × StandsAt hay needle nl place
        × ((j : ℕ) → i ≤ j → j < place → ¬ StandsAt hay needle nl j))

unfoldable test : List ℕ → List ℕ → ℕ → ℕ → Bool
test hay needle nl i = (at hay i == at needle 0) && same_bytes nl (drop i hay) needle

test-true :
    (hay needle : List ℕ) (nl i : ℕ) → test hay needle nl i ≡ true → StandsAt hay needle nl i
unfolding test
test-true hay needle nl i e k less =
    sym (at-drop i hay k) ∙ same_bytes-true nl (drop i hay) needle ((both _ _ e).1) k less

test-false :
    (hay needle : List ℕ) (nl i : ℕ)
    → 0 < nl
    → test hay needle nl i ≡ false
    → ¬ StandsAt hay needle nl i
unfolding test
test-false hay needle nl i some_bytes e stands =
    let first : at hay i ≡ at needle 0 =
      ap (at hay) {x = i} {y = i + 0} (omega arith) ∙ stands 0 some_bytes in
    let all : same_bytes nl (drop i hay) needle ≡ true =
      true-same_bytes nl (drop i hay) needle (λ k less. at-drop i hay k ∙ stands k less) in
    let equal : (at hay i == at needle 0) ≡ true = (==_iff (at hay i) (at needle 0)).1 first in
    ground arith

more : (i j : ℕ) → i ≤ j → (i ≡ j) ⊎ (i + 1 ≤ j)
more i j h = elim (dec_lt i j) [ yes less ↦ inr (omega arith) | no same ↦ inl (omega arith) ]

step-IsFirst :
    (b : Bool) (hay needle : List ℕ) (nl i left : ℕ) (rest : Option ℕ)
    → (b ≡ true → StandsAt hay needle nl i)
    → (b ≡ false → ¬ StandsAt hay needle nl i)
    → IsFirst hay needle nl (i + 1) (i + 1 + left) rest
    → IsFirst hay needle nl i (i + suc left) (if b then some i else rest)
step-IsFirst true hay needle nl i left rest here away later =
    inr (i, refl, omega arith, omega arith, here refl, λ j low high. absurd (omega arith))
step-IsFirst false hay needle nl i left rest here away (inl (none', nowhere)) = inl (
  none',
  λ j low high stands. elim (more i j low) [
    | inl e ↦ away refl (subst (StandsAt hay needle nl) (sym e) stands)
    | inr further ↦ nowhere j further (omega arith) stands
  ],
)
step-IsFirst false hay needle nl i left rest here away (inr (place, e, low', high', found, first)) =
    inr (
      place,
      e,
      omega arith,
      omega arith,
      found,
      λ j low high stands. elim (more i j low) [
        | inl e' ↦ away refl (subst (StandsAt hay needle nl) (sym e') stands)
        | inr further ↦ first j further high stands
      ],
    )

memmem_from-IsFirst :
    (left i : ℕ) (hay needle : List ℕ) (nl : ℕ)
    → 0 < nl
    → IsFirst hay needle nl i (i + left) (memmem_from left i hay needle nl)
unfolding memmem_from test
memmem_from-IsFirst zero i hay needle nl h = inl (refl, λ j low high. absurd (omega arith))
memmem_from-IsFirst (suc left) i hay needle nl h =
    step-IsFirst (test hay needle nl i) hay needle nl i left
      (memmem_from left (i + 1) hay needle nl) (test-true hay needle nl i)
      (test-false hay needle nl i h) (memmem_from-IsFirst left (i + 1) hay needle nl h)

-- memmem gives the first index at which the needle's bytes stand whole inside the haystack, or NULL
-- when there is none; the empty needle stands at 0.
pub memmem_lem :
    (hay : List ℕ) (hl : ℕ) (needle : List ℕ) (nl : ℕ)
    → IsFirst hay needle nl 0 (suc hl - nl) (memmem hay hl needle nl)
unfolding memmem
memmem_lem hay hl needle zero = inr (
  0,
  refl,
  omega arith,
  omega arith,
  λ k less. absurd (omega arith),
  λ j low high. absurd (omega arith),
)
memmem_lem hay hl needle (suc nl) =
    let full : (suc nl == 0) ≡ false = ground arith in
    elim (dec_lt hl (suc nl)) [
      | yes less ↦
          rw (full, lt→ltb hl (suc nl) less) (inl (refl, λ j low high. absurd (omega arith)))
      | no enough ↦
          let stop : 0 + (hl - suc nl + 1) ≡ suc hl - suc nl = omega arith in
          rw (full, le→ltb_false (suc nl) hl (omega arith), sym stop)
            (memmem_from-IsFirst (hl - suc nl + 1) 0 hay needle (suc nl) (omega arith))
    ]

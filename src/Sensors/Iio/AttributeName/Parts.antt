-- ===== src/Sensors/Iio/AttributeName/Parts.antt =====
-- interfaces/sensors/mainline/backends/iio/IioTypes.cpp: ParseIioAttributeName.
use android_hardware_mainlin.Prelude.{
  ℕ, ◌-◌, ◌≤◌, ◌≡◌, refl, sym, ap, ◌∙◌, ◌⊎◌, inl, inr, true, ◌&&◌, List, [], ◌∷◌, ◌++◌, arith, ltb,
  Bool-cases, length, length-append, any_of, find_if, All, Bytes, codes, bytes_eq, bytes_eq_iff,
  nat_key, bytes_key, AndroidBase, OnSome, OnSome-mono,
}
use android_hardware_mainlin.Sensors.Iio.AttributeName.{take, drop, find_postfix, longest_type}

-- What the documentation of android::base::StartsWith and EndsWith says.
pub record TestsAffixes (base : AndroidBase) : Type 0 where
  pub starts_with_prefix :
      (s p : Bytes) → base.starts_with s p ≡ true → (rest : Bytes) × (s ≡ p ++ rest)
  pub ends_with_suffix :
      (s q : Bytes) → base.ends_with s q ≡ true → (front : Bytes) × (s ≡ front ++ q)

abbrev pub IsWord : Bytes → List Bytes → Type 0
IsWord word words = any_of (bytes_eq word) words ≡ true

take-append : (xs ys : Bytes) → take (length xs) (xs ++ ys) ≡ xs
unfolding take
take-append [] ys = refl
take-append (x ∷ xs) ys = ap (◌∷◌ x) (take-append xs ys)

pub drop-append : (xs ys : Bytes) → drop (length xs) (xs ++ ys) ≡ ys
unfolding drop
drop-append [] ys = refl
drop-append (x ∷ xs) ys = drop-append xs ys

front_of : (xs ys : Bytes) → take (length (xs ++ ys) - length ys) (xs ++ ys) ≡ xs
front_of xs ys =
    let size : length (xs ++ ys) - length ys ≡ length xs = omega (arith, length-append xs ys) in
    rw size (take-append xs ys)

pub bytes_eq_self : (b : Bytes) → bytes_eq b b ≡ true
bytes_eq_self b = (bytes_eq_iff b b).1 refl

IsWord-later : (m word : Bytes) (words : List Bytes) → IsWord m words → IsWord m (word ∷ words)
IsWord-later m word words h = ground (arith, h)

abbrev pub EndsWithPostfix : Bytes → List Bytes → Bytes × Bytes → Type 0
EndsWithPostfix body words found = (body ≡ found.1 ++ (codes "_" ++ found.0)) × IsWord found.0 words

pub find_if-IsWord :
    (body : Bytes) (words : List Bytes)
    → OnSome (λ m. (body ≡ m) × IsWord m words) (find_if (bytes_eq body) words)
find_if-IsWord body [] = tt
find_if-IsWord body (word ∷ words) = elim (Bool-cases (bytes_eq body word)) [
  | inl here ↦ rw here ((bytes_eq_iff body word).0 here, rw (bytes_eq_self word) refl)
  | inr later ↦ rw later (
      OnSome-mono (λ m. (body ≡ m) × IsWord m words) (λ m. (body ≡ m) × IsWord m (word ∷ words)) _
        (λ m h. (h.0, IsWord-later m word words h.1)) (find_if-IsWord body words))
]

module _ (base : AndroidBase) (affixes : TestsAffixes base) where
  pub find_postfix-splits :
      (body : Bytes) (words : List Bytes)
      → OnSome (EndsWithPostfix body words) (find_postfix base body words)
  unfolding find_postfix
  find_postfix-splits body [] = tt
  find_postfix-splits body (word ∷ words) =
      elim (Bool-cases (base.ends_with body (codes "_" ++ word))) [
        | inl here ↦ rw here (
          let split = affixes.ends_with_suffix body (codes "_" ++ word) here in
              split.1
              ∙ ap (λ front. front ++ (codes "_" ++ word))
                  (sym (
                    ap (λ b. take (length b - length (codes "_" ++ word)) b) split.1
                    ∙ front_of split.0 (codes "_" ++ word))),
          rw (bytes_eq_self word) refl,
        )
        | inr later ↦ rw later (
            OnSome-mono (EndsWithPostfix body words) (EndsWithPostfix body (word ∷ words)) _
              (λ r h. (h.0, IsWord-later r.0 word words h.1)) (find_postfix-splits body words))
      ]

  -- The type found so far is a prefix of the body, and no longer than the one in the end.
  pub longest_type-IsPrefix :
      (body : Bytes) (words : List Bytes) (best : Bytes)
      → (rest : Bytes) × (body ≡ best ++ rest)
      → (rest : Bytes) × (body ≡ longest_type base body words best ++ rest)
  unfolding longest_type
  longest_type-IsPrefix body [] best h = h
  longest_type-IsPrefix body (word ∷ words) best h =
      elim (Bool-cases (ltb (length best) (length word) && base.starts_with body word)) [
        | inl better ↦ rw better (
            longest_type-IsPrefix body words word
              (affixes.starts_with_prefix body word (ground (arith, better))))
        | inr worse ↦ rw worse (longest_type-IsPrefix body words best h)
      ]

  longest_type-grows :
      (body : Bytes) (words : List Bytes) (best : Bytes)
      → length best ≤ length (longest_type base body words best)
  unfolding longest_type
  longest_type-grows body [] best = omega arith
  longest_type-grows body (word ∷ words) best =
      elim (Bool-cases (ltb (length best) (length word) && base.starts_with body word)) [
        | inl better ↦ rw better (let more = longest_type-grows body words word in ground arith)
        | inr worse ↦ rw worse (longest_type-grows body words best)
      ]

  -- No word that starts the body is longer than the type found.
  pub longest_type-longest :
      (body : Bytes) (words : List Bytes) (best : Bytes) (bound : ℕ)
      → length (longest_type base body words best) ≤ bound
      → All (λ w. base.starts_with body w ≡ true → length w ≤ bound) words
  unfolding longest_type
  longest_type-longest body [] best bound h = tt
  longest_type-longest body (word ∷ words) best bound h =
      elim (Bool-cases (ltb (length best) (length word) && base.starts_with body word)) [
        | inl better ↦
            let after = rw better at h in
            (
              (λ starts. let more = longest_type-grows body words word in omega (arith, after)),
              longest_type-longest body words word bound after,
            )
        | inr worse ↦
            let after = rw worse at h in
            (
              (λ starts. let more = longest_type-grows body words best in ground arith),
              longest_type-longest body words best bound after,
            )
      ]

  pub longest_type-IsWord :
      (body : Bytes) (words : List Bytes) (best found : Bytes)
      → longest_type base body words best ≡ found
      → (found ≡ best) ⊎ IsWord found words
  unfolding longest_type
  longest_type-IsWord body [] best found e = inl (sym e)
  longest_type-IsWord body (word ∷ words) best found e =
      elim (Bool-cases (ltb (length best) (length word) && base.starts_with body word)) [
        | inl better ↦ elim (longest_type-IsWord body words word found (rw better at e)) [
          | inl same ↦ inr (rw (same, bytes_eq_self word) refl)
          | inr later ↦ inr (IsWord-later found word words later)
        ]
        | inr worse ↦ elim (longest_type-IsWord body words best found (rw worse at e)) [
          | inl same ↦ inl same
          | inr later ↦ inr (IsWord-later found word words later)
        ]
      ]

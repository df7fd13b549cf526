-- ===== src/Monitor/Window.antt =====
-- A log of tf2_monitor holds the last 1000 of the values that were put into it.
use rcl_like_wrapper_for_fas.Base.{
  ℕ, zero, suc, ◌-◌, ◌≤◌, ◌<◌, ◌≡◌, ◌⊎◌, inl, inr, refl, sym, ap, ◌∙◌, Option, none, some, List, [],
  ◌∷◌, ◌++◌, length, length-append, ltb, if◌then◌else◌, arith,
}
use rcl_like_wrapper_for_fas.Monitor.{logged, tail}

cases : (n : ℕ) → (n < 1000) ⊎ (1000 ≤ n)
cases n = ground arith

module _ {D : Type 0} where
  abbrev pub drop : ℕ → List D → List D
  drop zero xs = xs
  drop (suc n) [] = []
  drop (suc n) (x ∷ xs) = drop n xs

  -- The values of a log into which these were put, and which is not there before the first.
  abbrev pub window : List D → Option (List D)
  window [] = none
  window (x ∷ xs) = some (drop (length (x ∷ xs) - 1000) (x ∷ xs))

  drop-append : (n : ℕ) (xs ys : List D) → n ≤ length xs → drop n (xs ++ ys) ≡ drop n xs ++ ys
  drop-append zero xs ys h = refl
  drop-append (suc n) [] ys h = absurd (omega (arith, h))
  drop-append (suc n) (x ∷ xs) ys h = drop-append n xs ys (omega (arith, h))

  tail-drop : (n : ℕ) (xs : List D) → tail (drop n xs) ≡ drop (suc n) xs
  unfolding tail
  tail-drop zero [] = refl
  tail-drop zero (x ∷ xs) = refl
  tail-drop (suc n) [] = refl
  tail-drop (suc n) (x ∷ xs) = tail-drop n xs

  length-drop : (n : ℕ) (xs : List D) → length (drop n xs) ≡ length xs - n
  length-drop zero xs = omega arith
  length-drop (suc n) [] = omega arith
  length-drop (suc n) (x ∷ xs) = omega (arith, length-drop n xs)

  abbrev trim : List D → List D
  trim ys = if ltb 1000 (length ys) then tail ys else ys

  trim_short : (ys : List D) → length ys ≤ 1000 → trim ys ≡ ys
  trim_short ys h = ground arith

  trim_long : (ys : List D) → 1000 < length ys → trim ys ≡ tail ys
  trim_long ys h = ground arith

  logged-drop :
      (x : D) (xs : List D)
      → logged x (some (drop (length xs - 1000) xs))
        ≡ drop (length (xs ++ (x ∷ [])) - 1000) (xs ++ (x ∷ []))
  unfolding logged
  logged-drop x xs =
      let n = length xs - 1000 in
      let pushed = drop-append n xs (x ∷ []) (omega arith) in
      let size = length-append xs (x ∷ []) in
      let kept = length-drop n xs in
      elim (cases (length xs)) [
        | inl h ↦
            trim_short (drop n xs ++ (x ∷ []))
              (omega (arith, length-append (drop n xs) (x ∷ []), kept, h))
            ∙ sym pushed
            ∙ ap (λ k. drop k (xs ++ (x ∷ []))) {x = n} {y = length (xs ++ (x ∷ [])) - 1000}
                (omega (arith, size, h))
        | inr h ↦
            trim_long (drop n xs ++ (x ∷ []))
              (omega (arith, length-append (drop n xs) (x ∷ []), kept, h))
            ∙ ap tail (sym pushed)
            ∙ tail-drop n (xs ++ (x ∷ []))
            ∙ ap (λ k. drop k (xs ++ (x ∷ []))) {x = suc n} {y = length (xs ++ (x ∷ [])) - 1000}
                (omega (arith, size, h))
      ]

  pub logged-window : (x : D) (xs : List D) → some (logged x (window xs)) ≡ window (xs ++ (x ∷ []))
  unfolding logged
  logged-window x [] = refl
  logged-window x (y ∷ ys) = ap some (logged-drop x (y ∷ ys))

-- ===== src/App/Main/Path.antt =====
-- The directory of the executable, which a program of lwrcl/apps finds its configuration in.
use rcl_like_wrapper_for_fas.Base.{
  ℕ, suc, ◌≡◌, ◌≢◌, refl, ap, ◌∙◌, none, some, List, [], ◌∷◌, ◌++◌, All, length, arith,
}
use rcl_like_wrapper_for_fas.App.Main.{rfind_slash, take, prefix, directory}

rfind_slash-name : (name : List ℕ) → All (λ c. c ≢ 47) name → rfind_slash name ≡ none
unfolding rfind_slash
rfind_slash-name [] h = refl
rfind_slash-name (c ∷ name) (d, h) = ground (arith, rfind_slash-name name h)

rfind_slash-append :
    (dir name : List ℕ)
    → All (λ c. c ≢ 47) name
    → rfind_slash (dir ++ (47 ∷ name)) ≡ some (length dir)
unfolding rfind_slash
rfind_slash-append [] name h = ground (arith, rfind_slash-name name h)
rfind_slash-append (c ∷ dir) name h = ground (arith, rfind_slash-append dir name h)

take-append : (dir name : List ℕ) → take (suc (length dir)) (dir ++ (47 ∷ name)) ≡ dir ++ (47 ∷ [])
take-append [] name = refl
take-append (c ∷ dir) name = ap (λ cs. c ∷ cs) (take-append dir name)

-- The directory is the path without the name behind its last slash, and with that slash.
directory-name :
    (dir name : List ℕ) → All (λ c. c ≢ 47) name → directory (dir ++ (47 ∷ name)) ≡ dir ++ (47 ∷ [])
unfolding directory prefix
directory-name dir name h = rw (rfind_slash-append dir name h) (
    ap (λ n. take n (dir ++ (47 ∷ name))) {y = suc (length dir)} (omega arith)
    ∙ take-append dir name)
